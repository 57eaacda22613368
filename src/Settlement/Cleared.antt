-- ===== src/Settlement/Cleared.antt =====
-- What `settle` of src/modules/stay-settlement/stay-settlement.service.ts achieves.
use mathlib.Core.Path.{subst}
use hotello_backend.Common.{
  ℕ, ◌≡◌, refl, ap, inl, inr, Bool-cases, Bool, true, false, ◌&&◌, some, List, [], ◌∷◌, All, map,
  filter, length, ◌==◌, String, arith,
}
use hotello_backend.Store.{TypeOrm, Covered, Covered-save, find-All, find_one-get}
use hotello_backend.Model.People.{TenantUser}
use hotello_backend.Model.Stays.{Stay}
use hotello_backend.Model.Effects.{Metadata}
use hotello_backend.Model.Charges.{FnbOrder, EventBooking}
use hotello_backend.Exec.{World, ok}
use hotello_backend.Exec.Total.{
  Total, Returns-ok, Total-pure, Total-gets, Total-if, Total-given, Total-modify, Total-when,
  Total-bind, Total-then, Total-from_option,
}
use hotello_backend.Shared.{log}
use hotello_backend.Stays.Shared.{find_stay, find_room, find_stay_in_hotel, audit}
use hotello_backend.Settlement.Lines.{UnsettledLine}
use hotello_backend.Settlement.Orders
use hotello_backend.Settlement.Bookings
use hotello_backend.Settlement.Sources.{event_source}
use hotello_backend.Settlement.Service.{
  sources, Settled, round2, sum, find_all, mark_all, total_of, settle,
}

filter_nil :
    {A : Type 0} (test : A → Bool) (xs : List A)
    → All (λ x. test x ≡ false) xs
    → filter test xs ≡ []
unfolding filter
filter_nil test [] h = refl
filter_nil test (x ∷ xs) (p, h) = ground (arith, filter_nil test xs h)

module _ (orm : TypeOrm) (hotel_id stay_id : ℕ) where
  -- nothing of the stay is left to settle
  abbrev pub OrdersClear : World orm → Type 0
  OrdersClear w = Covered orm {key = λ o. o.id} (Orders.is_due hotel_id stay_id) w.orders []

  abbrev pub BookingsClear : World orm → Type 0
  BookingsClear w = Covered orm {key = λ b. b.id} (Bookings.is_due hotel_id stay_id) w.bookings []

  save_orders-Total :
      (now user_id : ℕ) (os : List FnbOrder)
      → Total
          (λ (w : World orm).
            Covered orm {key = λ o. o.id} (Orders.is_due hotel_id stay_id) w.orders os)
          (λ _. OrdersClear)
          (Orders.save_settled orm now user_id os)
  unfolding Orders.save_settled
  save_orders-Total now user_id [] = Total-pure tt (λ w h. h)
  save_orders-Total now user_id (o ∷ os) =
      Total-then _ _
        (Total-modify _ (λ w h. Covered-save orm _ w.orders o _ os refl (ground arith) h))
        (save_orders-Total now user_id os)

  save_bookings-Total :
      (now user_id : ℕ) (bs : List EventBooking)
      → Total
          (λ (w : World orm).
            OrdersClear w
            × Covered orm {key = λ b. b.id} (Bookings.is_due hotel_id stay_id) w.bookings bs)
          (λ _ w. OrdersClear w × BookingsClear w)
          (Bookings.save_settled orm now user_id bs)
  unfolding Bookings.save_settled
  save_bookings-Total now user_id [] = Total-pure tt (λ w h. h)
  save_bookings-Total now user_id (b ∷ bs) =
      Total-then _ _
        (Total-modify _
          (λ w h. (h.0, Covered-save orm _ w.bookings b _ bs refl (ground arith) h.1)))
        (save_bookings-Total now user_id bs)

  length_zero : {A : Type 0} (xs : List A) → (length xs == 0) ≡ true → xs ≡ []
  length_zero [] e = refl
  length_zero (x ∷ xs) e = absurd (ground arith)

  mark_orders-Total :
      (user_id : ℕ)
      → Total
          (λ (w : World orm). Unit {0})
          (λ _. OrdersClear)
          (Orders.mark_settled orm [] hotel_id stay_id user_id)
  unfolding Orders.mark_settled
  mark_orders-Total user_id =
      Total-bind
        {Q = λ os w. Covered orm {key = λ o. o.id} (Orders.is_due hotel_id stay_id) w.orders os} _ _
        (Total-gets _
          (λ w h k r stored passed. orm.find-complete _ w.orders k r stored (ground arith)))
        λ os.
          Total-if (length os == 0) _ _
            (λ e. Total-pure [] (λ w h. subst (Covered orm _ w.orders) (length_zero os e) h))
            λ e.
              Total-bind _ _ (Total-gets _ (λ w h. h))
                λ now. Total-then _ _ (save_orders-Total now user_id os) (Total-pure _ (λ w h. h))

  abbrev pub Clear : World orm → Type 0
  Clear w = OrdersClear w × BookingsClear w

  mark_bookings-Total :
      (user_id : ℕ)
      → Total OrdersClear (λ _. Clear) (Bookings.mark_settled orm hotel_id stay_id user_id)
  unfolding Bookings.mark_settled
  mark_bookings-Total user_id =
      Total-bind
        {Q = λ bs w.
          OrdersClear w
          × Covered orm {key = λ b. b.id} (Bookings.is_due hotel_id stay_id) w.bookings bs}
        _ _
        (Total-gets _
          (λ w h. (h, λ k r stored passed. orm.find-complete _ w.bookings k r stored passed)))
        λ bs.
          Total-if (length bs == 0) _ _
            (λ e.
              Total-pure [] (λ w h. (h.0, subst (Covered orm _ w.bookings) (length_zero bs e) h.1)))
            λ e.
              Total-bind _ _ (Total-gets _ (λ w h. h))
                λ now. Total-then _ _ (save_bookings-Total now user_id bs) (Total-pure _ (λ w h. h))

  no_total :
      (key : String) (lines : List UnsettledLine) (rest : List (String × List UnsettledLine))
      → lines ≡ []
      → total_of orm rest ≡ 0
      → total_of orm ((key, lines) ∷ rest) ≡ 0
  unfolding total_of sum
  no_total key lines rest e h = rw (e, h)

  -- then both sources find nothing
  find_orders-Total :
      Total Clear (λ lines w. (lines ≡ []) × Clear w) (Orders.find_unsettled orm hotel_id stay_id)
  unfolding Orders.find_unsettled
  find_orders-Total = Total-gets _ λ w h. (
    ap (map Orders.to_line) (
        filter_nil Orders.is_eligible _ (
          find-All orm (λ r. Orders.is_eligible r ≡ false)
            (λ o. o.hotel_id == hotel_id && o.stay_id == stay_id) w.orders
            (λ k r stored own. elim (Bool-cases (Orders.is_eligible r)) [
              | inl due ↦ elim (h.0 k r stored (ground arith)) [ ]
              | inr not_due ↦ not_due
            ]))),
    h,
  )

  find_bookings-Total :
      Total Clear (λ lines w. (lines ≡ []) × Clear w) (Bookings.find_unsettled orm hotel_id stay_id)
  unfolding Bookings.find_unsettled
  find_bookings-Total = Total-gets _ λ w h. (
    ap (map Bookings.to_line) (
        filter_nil Bookings.is_eligible _ (
          find-All orm (λ r. Bookings.is_eligible r ≡ false)
            (λ b. b.hotel_id == hotel_id && b.stay_id == stay_id) w.bookings
            (λ k r stored own. elim (Bool-cases (Bookings.is_eligible r)) [
              | inl due ↦ elim (h.1 k r stored (ground arith)) [ ]
              | inr not_due ↦ not_due
            ]))),
    h,
  )

  -- the bookings' half, with the orders' lines at hand
  find_rest-Total :
      (os : List UnsettledLine)
      → Total
          (λ w. (os ≡ []) × Clear w)
          (λ rest w. (os ≡ []) × ((total_of orm rest ≡ 0) × Clear w))
          (find_all orm (event_source orm ∷ []) hotel_id stay_id)
  unfolding find_all total_of sum
  find_rest-Total os = Total-given (os ≡ []) _ (
      Total-bind _ _ find_bookings-Total λ bs.
        Total-bind {Q = λ rest w. (bs ≡ []) × ((total_of orm rest ≡ 0) × Clear w)} _ _
          (Total-pure [] (λ w h. (h.0, (refl, h.1))))
          λ rest. Total-pure _ (λ w h. (no_total "events" bs rest h.0 h.1.0, h.1.1)))

  find_all-Total :
      Total Clear
        (λ per w. (total_of orm per ≡ 0) × Clear w)
        (find_all orm (sources orm) hotel_id stay_id)
  unfolding find_all
  find_all-Total = Total-bind _ _ find_orders-Total λ os.
      Total-bind _ _ (find_rest-Total os)
        λ rest. Total-pure _ (λ w h. (no_total "fnb" os rest h.0 h.1.0, h.1.1))

  mark_all-Total :
      (user_id : ℕ)
      → Total
          (λ (w : World orm). Unit {0})
          (λ _. Clear)
          (mark_all orm (sources orm) hotel_id stay_id user_id)
  unfolding mark_all
  mark_all-Total user_id = Total-bind _ _ (mark_orders-Total user_id) λ os.
      Total-bind {Q = λ _. Clear} _ _
        (Total-bind {Q = λ _. Clear} _ _ (mark_bookings-Total user_id) λ bs.
          Total-bind {Q = λ _. Clear} _ _ (Total-pure [] (λ w h. h))
            λ rest. Total-pure _ (λ w h. h))
        λ rest. Total-pure _ (λ w h. h)

module _ (orm : TypeOrm) (user : TenantUser) (stay : Stay) where
  -- the stay is one of the user's hotel
  abbrev IsOwn : World orm → Type 0
  IsOwn w = (orm.get w.stays stay.id ≡ some stay) × (stay.hotel_id ≡ user.hotel_id)

  find_stay-Total : Total IsOwn (λ _ w. Unit {0}) (find_stay_in_hotel orm user.hotel_id stay.id)
  unfolding find_stay_in_hotel find_stay find_room
  find_stay-Total =
      Total-bind {Q = λ _ w. Unit {0}} _ _
        (Total-bind {Q = λ o w. (s : Stay) × (o ≡ some s)} _ _
          (Total-gets _ (λ w h. (
            stay,
            find_one-get orm _ w.stays stay.id stay (λ x e. ground arith) h.0 (ground arith),
          )))
          λ o. Total-from_option _ o (λ w h. (h.0, h.1, tt)))
        λ s.
          Total-bind {Q = λ _ w. Unit {0}} _ _ (Total-gets _ (λ w h. tt))
            λ r. Total-pure _ (λ w h. tt)

  audit-Total :
      (action : String) (m : Metadata)
      → Total
          (Clear orm user.hotel_id stay.id)
          (λ _. Clear orm user.hotel_id stay.id)
          (audit orm action stay.id user m)
  unfolding audit log
  audit-Total action m = Total-modify _ (λ w h. h)

  settle-Total :
      Total IsOwn
        (λ s w. (s.unsettled_total ≡ 0) × Clear orm user.hotel_id stay.id w)
        (settle orm user stay.id)
  unfolding settle
  settle-Total = Total-bind _ _ find_stay-Total λ _.
      Total-bind _ _ (mark_all-Total orm user.hotel_id stay.id user.id) λ per.
        Total-then _ _ (Total-when _ _ (audit-Total _ _) (λ w h. h)) (
          Total-bind _ _ (find_all-Total orm user.hotel_id stay.id)
            λ left. Total-pure _ (λ w h. (ap round2 h.0, h.1)))

-- Settling a stay of the user's hotel always succeeds and answers that nothing is left unsettled; then
-- no delivered room-charge order and no booked room-charge booking of the stay is unsettled.
pub settle_clears :
    (orm : TypeOrm) (user : TenantUser) (stay : Stay) (w : World orm)
    → orm.get w.stays stay.id ≡ some stay
    → stay.hotel_id ≡ user.hotel_id
    → (s : Settled) × (v : World orm) × (settle orm user stay.id w ≡ ok s v)
      × ((s.unsettled_total ≡ 0) × Clear orm user.hotel_id stay.id v)
settle_clears orm user stay w stored own =
    Returns-ok (λ s v. (s.unsettled_total ≡ 0) × Clear orm user.hotel_id stay.id v)
      (settle orm user stay.id w) ((settle-Total orm user stay).at w (stored, own))
