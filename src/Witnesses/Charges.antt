-- ===== src/Witnesses/Charges.antt =====
-- The theorems on orders, menus and settlement, applied.
use hotello_backend.Common.{
  ℕ, ◌+◌, ◌%◌, ◌<◌, ◌≡◌, refl, true, false, inl, none, some, [], ◌∷◌, arith,
}
use hotello_backend.Store.{AllRows, AllRows-save}
use hotello_backend.Clock.{minutes_of}
use hotello_backend.Exec.{World, ok}
use hotello_backend.Model.People.{all_inclusive}
use hotello_backend.Model.Stays.{en}
use hotello_backend.Model.Charges.{FnbOrder, delivered, FnbDestinationType, room_charge}
use hotello_backend.Fnb.Life.{IsDated}
use hotello_backend.Fnb.Reach.{
  settle_call, perform, here, after, IsDelivery, Reach-IsDated, Reach-IsDelivery,
}
use hotello_backend.Fnb.Availability.{FnbWindow, menu_availability}
use hotello_backend.Fnb.Availability.Soonest.{IsDaily, menu_availability_soonest}
use hotello_backend.Settlement.Service.{Settled, settle}
use hotello_backend.Settlement.Cleared.{Clear, settle_clears}
use hotello_backend.Witnesses.Database.{database}
use hotello_backend.Witnesses.Samples.{the_user, the_world, the_stay, AllRows-nil}

abbrev the_order : FnbOrder
the_order = record {
  id = 11;
  hotel_id = 1;
  stay_id = 9;
  room_id = 7;
  room_number = b'7' ∷ [];
  guest_language = en;
  stay_type = all_inclusive;
  menu_ids = [];
  destination_type = FnbDestinationType.room;
  location_id = none;
  location_names = none;
  spot = none;
  payment_method = some room_charge;
  total_amount = 120_000;
  status = delivered;
  sla_target_minutes = 30;
  due_at = 0;
  assigned_to_id = some 5;
  started_by_id = some 5;
  delivered_by_id = some 5;
  cancelled_by_id = none;
  started_at = some 10;
  out_for_delivery_at = some 20;
  delivered_at = some 30;
  cancelled_at = none;
  cancelled_reason = none;
  cancel_note = none;
  settled_at = none;
  settled_by_id = none;
  created_at = 0;
}

abbrev charged_world : World database
charged_world = record the_world { orders = the_order ∷ [] }

the_order-IsDated : IsDated the_order
the_order-IsDated = ground arith

settle_clears_example :
    (s : Settled) × (v : World database) × (settle database the_user 9 charged_world ≡ ok s v)
    × ((s.unsettled_total ≡ 0) × Clear database 1 9 v)
settle_clears_example = settle_clears database the_user the_stay charged_world refl refl

abbrev settled_world : World database
settled_world = perform database (settle_call the_user 9) charged_world

Reach-IsDated_example : AllRows database {key = λ (o : FnbOrder). o.id} IsDated settled_world.orders
Reach-IsDated_example =
    Reach-IsDated database charged_world settled_world (after (settle_call the_user 9) here) (
      AllRows-save database {key = λ (o : FnbOrder). o.id} IsDated the_order [] the_order-IsDated
        (AllRows-nil (λ (o : FnbOrder). o.id) IsDated))

Reach-IsDelivery_example :
    (r : FnbOrder) × (database.get {key = λ (o : FnbOrder). o.id} settled_world.orders 11 ≡ some r)
    × IsDelivery database the_order r
Reach-IsDelivery_example =
    Reach-IsDelivery database charged_world settled_world 11 the_order
      (after (settle_call the_user 9) here) refl (inl refl)

-- breakfast from eight to eleven, asked for at noon
abbrev breakfast : FnbWindow
breakfast = record {
  start = b'0' ∷ b'8' ∷ b':' ∷ b'0' ∷ b'0' ∷ [];
  end = b'1' ∷ b'1' ∷ b':' ∷ b'0' ∷ b'0' ∷ [];
}

breakfast-IsDaily : IsDaily breakfast
unfolding minutes_of
breakfast-IsDaily = record { start = omega arith; end = omega arith }

closed_at_noon : (menu_availability (breakfast ∷ []) 720).opens_at ≡ some breakfast.start
unfolding menu_availability
closed_at_noon = refl

menu_availability_soonest_example :
    (d : ℕ) × (minutes_of breakfast.start ≡ (720 + d) % 1440)
    × ((menu_availability (breakfast ∷ []) ((720 + d) % 1440)).available ≡ true)
    × ((k : ℕ) → k < d → (menu_availability (breakfast ∷ []) ((720 + k) % 1440)).available ≡ false)
menu_availability_soonest_example =
    menu_availability_soonest (breakfast ∷ []) 720 breakfast.start (breakfast-IsDaily, tt)
      (omega arith) closed_at_noon
