-- ===== src/Events/Handlers/Settled.antt =====
-- The settlement of a stay (src/modules/stay-settlement) settles only bookings that are booked.
use hotello_backend.Common.{
  ℕ, String, ◌≡◌, ◌≢◌, refl, sym, ap, ◌∙◌, true, List, [], ◌∷◌, All, length, some, ◌==◌, arith,
}
use hotello_backend.Store.{TypeOrm, Distinct, find-All, get-save_ne}
use hotello_backend.Model.People.{TenantUser}
use hotello_backend.Model.Effects.{Metadata}
use hotello_backend.Model.Charges.{FnbOrder, EventBooking}
use hotello_backend.Exec.{World}
use hotello_backend.Exec.Keeps.{
  Keeps, Any, Keeps-pure, Keeps-bind, Keeps-then, Keeps-when, Keeps-if, Keeps-from_option,
}
use hotello_backend.Exec.Safe.{
  Safe, Safe-pure, Safe-gets, Safe-if, Safe-modify, Safe-bind, Safe-then, Safe-Holds,
}
use hotello_backend.Exec.Frame.{On, Keeps-read, Keeps-elsewhere}
use hotello_backend.Shared.{log}
use hotello_backend.Stays.Shared.{find_stay, find_room, find_stay_in_hotel, audit}
use hotello_backend.Settlement.Orders
use hotello_backend.Settlement.Bookings
use hotello_backend.Settlement.Service.{sources, find_all, mark_all, settle}
use hotello_backend.Events.Changes.{Tables, BookingTable, view, IsKept, settled}

module _ (orm : TypeOrm) (J : Tables orm → Type 0) (kept : IsKept orm J) where
  -- the rows that the loop has still to save are stored and eligible
  abbrev AreDue : List EventBooking → BookingTable orm → Type 0
  AreDue rows t = All (λ b. (orm.get t b.id ≡ some b) × (Bookings.is_eligible b ≡ true)) rows

  AreDue-save :
      (t : BookingTable orm) (b : EventBooking) (rows : List EventBooking)
      → All (λ r. r.id ≢ b.id) rows
      → AreDue rows t
      → AreDue rows (orm.save b t)
  AreDue-save t b [] apart h = tt
  AreDue-save t b (r ∷ rows) (ne, apart) ((stored, due), rest) =
      ((get-save_ne orm b t r.id (λ e. ne (sym e)) ∙ stored, due), AreDue-save t b rows apart rest)

  save_settled-Safe :
      (now user_id : ℕ) (rows : List EventBooking)
      → Distinct (λ (b : EventBooking). b.id) rows
      → Safe
          (λ (w : World orm). J (view orm w) × AreDue rows w.bookings)
          (On (view orm) J)
          (λ _. On (view orm) J)
          (Bookings.save_settled orm now user_id rows)
  unfolding Bookings.save_settled
  save_settled-Safe now user_id [] d = Safe-pure tt (λ w h. h.0)
  save_settled-Safe now user_id (b ∷ rows) (apart, d) =
      Safe-then _ _
        (Safe-modify {Q = λ (w : World orm). J (view orm w) × AreDue rows w.bookings} _
          λ w (j, ((stored, due), rest)). (
            kept (view orm w) _ (settled w.events w.bookings b now user_id stored (ground arith)) j,
            AreDue-save w.bookings (Bookings.settled_booking now user_id b) rows apart rest,
          ))
        (save_settled-Safe now user_id rows d)

  mark_bookings-Keeps :
      (hotel_id stay_id user_id : ℕ)
      → Keeps (On (view orm) J) Any (Bookings.mark_settled orm hotel_id stay_id user_id)
  unfolding Bookings.mark_settled
  mark_bookings-Keeps hotel_id stay_id user_id = record { at = λ w h. Safe-Holds _ run w h }
    where
      Found : List EventBooking → World orm → Type 0
      Found rows w =
          (J (view orm w) × AreDue rows w.bookings) × Distinct (λ (b : EventBooking). b.id) rows

      run :
          Safe
            (On (view orm) J)
            (On (view orm) J)
            (λ _. On (view orm) J)
            (Bookings.mark_settled orm hotel_id stay_id user_id)
      run =
          Safe-bind {Q = Found} _ _
            (Safe-gets _ (λ w h. (
              (
                h,
                find-All orm _ _ w.bookings (λ k r e passed.
                    (ap (orm.get w.bookings) (orm.get-key w.bookings k r e) ∙ e, ground arith)),
              ),
              orm.find-distinct _ w.bookings,
            )))
            λ rows.
              Safe-if (length rows == 0) _ _ (λ _. Safe-pure [] (λ w h. h.0.0))
                λ _. Safe-bind {Q = λ _. Found rows} _ _ (Safe-gets _ (λ w h. h)) λ now.
                  Safe-then _ _
                    (record { at = λ w (o, d). (save_settled-Safe now user_id rows d).at w o })
                    (Safe-pure _ (λ w h. h))

module _ (orm : TypeOrm) (J : Tables orm → Type 0) where
  save_orders-Keeps :
      (now user_id : ℕ) (os : List FnbOrder)
      → Keeps (On (view orm) J) Any (Orders.save_settled orm now user_id os)
  unfolding Orders.save_settled
  save_orders-Keeps now user_id [] = Keeps-pure tt tt
  save_orders-Keeps now user_id (o ∷ os) =
      Keeps-then _ _ (Keeps-elsewhere (view orm) J _ (λ w. refl)) (save_orders-Keeps now user_id os)

  mark_orders-Keeps :
      (ids : List ℕ) (hotel_id stay_id user_id : ℕ)
      → Keeps (On (view orm) J) Any (Orders.mark_settled orm ids hotel_id stay_id user_id)
  unfolding Orders.mark_settled
  mark_orders-Keeps ids hotel_id stay_id user_id =
      Keeps-bind {P = Any} _ _ (Keeps-read (view orm) J _) λ os _.
        Keeps-if (length os == 0) _ _ (λ _. Keeps-pure [] tt)
          λ _.
            Keeps-bind {P = Any} _ _ (Keeps-read (view orm) J _)
              λ now _. Keeps-then _ _ (save_orders-Keeps now user_id os) (Keeps-pure _ tt)

  find_all-Keeps :
      (hotel_id stay_id : ℕ)
      → Keeps (On (view orm) J) Any (find_all orm (sources orm) hotel_id stay_id)
  unfolding find_all Orders.find_unsettled Bookings.find_unsettled
  find_all-Keeps hotel_id stay_id = Keeps-bind {P = Any} _ _ (Keeps-read (view orm) J _) λ os _.
      Keeps-bind {P = Any} _ _
        (Keeps-bind {P = Any} _ _ (Keeps-read (view orm) J _)
          λ bs _. Keeps-bind {P = Any} _ _ (Keeps-pure [] tt) λ r _. Keeps-pure _ tt)
        λ r _. Keeps-pure _ tt

  find_stay-Keeps :
      (hotel_id id : ℕ) → Keeps (On (view orm) J) Any (find_stay_in_hotel orm hotel_id id)
  unfolding find_stay_in_hotel find_stay find_room
  find_stay-Keeps hotel_id id =
      Keeps-bind {P = Any} _ _
        (Keeps-bind {P = Any} _ _ (Keeps-read (view orm) J _)
          λ o _. Keeps-from_option _ o (λ a e. tt))
        λ s _. Keeps-bind {P = Any} _ _ (Keeps-read (view orm) J _) λ r _. Keeps-pure _ tt

  audit-Keeps :
      (action : String) (id : ℕ) (user : TenantUser) (m : Metadata)
      → Keeps (On (view orm) J) Any (audit orm action id user m)
  unfolding audit log
  audit-Keeps action id user m = Keeps-elsewhere (view orm) J _ (λ w. refl)

  pub settle-Keeps :
      (user : TenantUser) (stay_id : ℕ)
      → IsKept orm J
      → Keeps (On (view orm) J) Any (settle orm user stay_id)
  unfolding settle mark_all
  settle-Keeps user stay_id kept = Keeps-bind {P = Any} _ _ (find_stay-Keeps _ _) λ _ _.
      Keeps-bind {P = Any} _ _
        (Keeps-bind {P = Any} _ _ (mark_orders-Keeps [] _ _ _) λ os _.
          Keeps-bind {P = Any} _ _
            (Keeps-bind {P = Any} _ _ (mark_bookings-Keeps orm J kept _ _ _)
              λ bs _. Keeps-bind {P = Any} _ _ (Keeps-pure [] tt) λ r _. Keeps-pure _ tt)
            λ r _. Keeps-pure _ tt)
        λ per _.
          Keeps-then _ _ (Keeps-when _ _ (audit-Keeps _ _ _ _))
            (Keeps-bind {P = Any} _ _ (find_all-Keeps _ _) λ left _. Keeps-pure _ tt)
