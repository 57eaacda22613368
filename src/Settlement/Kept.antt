-- ===== src/Settlement/Kept.antt =====
-- `settle` of src/modules/stay-settlement/stay-settlement.service.ts keeps what the changes of
-- `Fnb.Changes` keep: it settles only delivered room-charge orders that were not settled.
use hotello_backend.Common.{
  ℕ, String, ◌≡◌, ◌≢◌, sym, ap, ◌∙◌, true, some, List, [], ◌∷◌, All, length, ◌==◌, arith,
}
use hotello_backend.Store.{TypeOrm, Distinct, find-All, get-save_ne}
use hotello_backend.Model.People.{TenantUser}
use hotello_backend.Model.Effects.{Metadata}
use hotello_backend.Model.Charges.{FnbOrder, EventBooking}
use hotello_backend.Exec.{World}
use hotello_backend.Exec.Keeps.{
  Keeps, Any, Keeps-pure, Keeps-gets, Keeps-bind, Keeps-then, Keeps-when, Keeps-if,
  Keeps-from_option, Keeps-modify,
}
use hotello_backend.Exec.Safe.{
  Safe, Safe-pure, Safe-gets, Safe-if, Safe-modify, Safe-bind, Safe-then, Safe-Holds,
}
use hotello_backend.Shared.{log}
use hotello_backend.Stays.Shared.{find_stay, find_room, find_stay_in_hotel, audit}
use hotello_backend.Fnb.Changes.{OrderTable, IsKept, settled, settled_order}
use hotello_backend.Fnb.Handlers.{OnOrders}
use hotello_backend.Settlement.Orders
use hotello_backend.Settlement.Bookings
use hotello_backend.Settlement.FnbRoute.{settle_stay_orders}
use hotello_backend.Settlement.Service.{sources, find_all, mark_all, settle}

module _ (orm : TypeOrm) (J : OrderTable orm → Type 0) (kept : IsKept orm J) where
  -- the rows that the loop has still to save are stored and eligible
  abbrev AreDue : List FnbOrder → OrderTable orm → Type 0
  AreDue rows t = All (λ o. (orm.get t o.id ≡ some o) × (Orders.is_eligible o ≡ true)) rows

  AreDue-save :
      (t : OrderTable orm) (o : FnbOrder) (rows : List FnbOrder)
      → All (λ r. r.id ≢ o.id) rows
      → AreDue rows t
      → AreDue rows (orm.save o t)
  AreDue-save t o [] apart h = tt
  AreDue-save t o (r ∷ rows) (ne, apart) ((stored, due), rest) =
      ((get-save_ne orm o t r.id (λ e. ne (sym e)) ∙ stored, due), AreDue-save t o rows apart rest)

  save_settled-Safe :
      (now user_id : ℕ) (rows : List FnbOrder)
      → Distinct (λ (o : FnbOrder). o.id) rows
      → Safe
          (λ (w : World orm). J w.orders × AreDue rows w.orders)
          (OnOrders orm J)
          (λ _. OnOrders orm J)
          (Orders.save_settled orm now user_id rows)
  unfolding Orders.save_settled
  save_settled-Safe now user_id [] d = Safe-pure tt (λ w h. h.0)
  save_settled-Safe now user_id (o ∷ rows) (apart, d) =
      Safe-then _ _
        (Safe-modify {Q = λ (w : World orm). J w.orders × AreDue rows w.orders} _
          λ w (j, ((stored, due), rest)). (
            kept w.orders o (settled_order now user_id o) stored
                (settled now user_id (ground arith) (ground arith) (ground arith)) j,
            AreDue-save w.orders (settled_order now user_id o) rows apart rest,
          ))
        (save_settled-Safe now user_id rows d)

  pub mark_orders-Keeps :
      (ids : List ℕ) (hotel_id stay_id user_id : ℕ)
      → Keeps (OnOrders orm J) Any (Orders.mark_settled orm ids hotel_id stay_id user_id)
  unfolding Orders.mark_settled
  mark_orders-Keeps ids hotel_id stay_id user_id = record { at = λ w h. Safe-Holds _ run w h }
    where
      Found : List FnbOrder → World orm → Type 0
      Found rows w = (J w.orders × AreDue rows w.orders) × Distinct (λ (o : FnbOrder). o.id) rows

      run :
          Safe
            (OnOrders orm J)
            (OnOrders orm J)
            (λ _. OnOrders orm J)
            (Orders.mark_settled orm ids hotel_id stay_id user_id)
      run =
          Safe-bind {Q = Found} _ _
            (Safe-gets _ (λ w h. (
              (
                h,
                find-All orm _ _ w.orders (λ k r e passed.
                    (ap (orm.get w.orders) (orm.get-key w.orders k r e) ∙ e, ground arith)),
              ),
              orm.find-distinct _ w.orders,
            )))
            λ rows.
              Safe-if (length rows == 0) _ _ (λ _. Safe-pure [] (λ w h. h.0.0))
                λ _. Safe-bind {Q = λ _. Found rows} _ _ (Safe-gets _ (λ w h. h)) λ now.
                  Safe-then _ _
                    (record { at = λ w (o, d). (save_settled-Safe now user_id rows d).at w o })
                    (Safe-pure _ (λ w h. h))

module _ (orm : TypeOrm) (J : OrderTable orm → Type 0) where
  save_bookings-Keeps :
      (now user_id : ℕ) (bs : List EventBooking)
      → Keeps (OnOrders orm J) Any (Bookings.save_settled orm now user_id bs)
  unfolding Bookings.save_settled
  save_bookings-Keeps now user_id [] = Keeps-pure tt tt
  save_bookings-Keeps now user_id (b ∷ bs) =
      Keeps-then _ _ (Keeps-modify _ (λ w h. h)) (save_bookings-Keeps now user_id bs)

  mark_bookings-Keeps :
      (hotel_id stay_id user_id : ℕ)
      → Keeps (OnOrders orm J) Any (Bookings.mark_settled orm hotel_id stay_id user_id)
  unfolding Bookings.mark_settled
  mark_bookings-Keeps hotel_id stay_id user_id =
      Keeps-bind {P = Any} _ _ (Keeps-gets _ (λ w h. tt)) λ bs _.
        Keeps-if (length bs == 0) _ _ (λ _. Keeps-pure [] tt)
          λ _.
            Keeps-bind {P = Any} _ _ (Keeps-gets _ (λ w h. tt))
              λ now _. Keeps-then _ _ (save_bookings-Keeps now user_id bs) (Keeps-pure _ tt)

  find_all-Keeps :
      (hotel_id stay_id : ℕ)
      → Keeps (OnOrders orm J) Any (find_all orm (sources orm) hotel_id stay_id)
  unfolding find_all Orders.find_unsettled Bookings.find_unsettled
  find_all-Keeps hotel_id stay_id = Keeps-bind {P = Any} _ _ (Keeps-gets _ (λ w h. tt)) λ os _.
      Keeps-bind {P = Any} _ _
        (Keeps-bind {P = Any} _ _ (Keeps-gets _ (λ w h. tt))
          λ bs _. Keeps-bind {P = Any} _ _ (Keeps-pure [] tt) λ r _. Keeps-pure _ tt)
        λ r _. Keeps-pure _ tt

  find_stay-Keeps :
      (hotel_id id : ℕ) → Keeps (OnOrders orm J) Any (find_stay_in_hotel orm hotel_id id)
  unfolding find_stay_in_hotel find_stay find_room
  find_stay-Keeps hotel_id id =
      Keeps-bind {P = Any} _ _
        (Keeps-bind {P = Any} _ _ (Keeps-gets _ (λ w h. tt))
          λ o _. Keeps-from_option _ o (λ a e. tt))
        λ s _. Keeps-bind {P = Any} _ _ (Keeps-gets _ (λ w h. tt)) λ r _. Keeps-pure _ tt

  audit-Keeps :
      (action : String) (id : ℕ) (user : TenantUser) (m : Metadata)
      → Keeps (OnOrders orm J) Any (audit orm action id user m)
  unfolding audit log
  audit-Keeps action id user m = Keeps-modify _ (λ w h. h)

  pub settle-Keeps :
      (user : TenantUser) (stay_id : ℕ)
      → IsKept orm J
      → Keeps (OnOrders orm J) Any (settle orm user stay_id)
  unfolding settle mark_all
  settle-Keeps user stay_id kept = Keeps-bind {P = Any} _ _ (find_stay-Keeps _ _) λ _ _.
      Keeps-bind {P = Any} _ _
        (Keeps-bind {P = Any} _ _ (mark_orders-Keeps orm J kept [] _ _ _) λ os _.
          Keeps-bind {P = Any} _ _
            (Keeps-bind {P = Any} _ _ (mark_bookings-Keeps _ _ _)
              λ bs _. Keeps-bind {P = Any} _ _ (Keeps-pure [] tt) λ r _. Keeps-pure _ tt)
            λ r _. Keeps-pure _ tt)
        λ per _.
          Keeps-then _ _ (Keeps-when _ _ (audit-Keeps _ _ _ _))
            (Keeps-bind {P = Any} _ _ (find_all-Keeps _ _) λ left _. Keeps-pure _ tt)

  pub settle_stay_orders-Keeps :
      (user : TenantUser) (stay_id : ℕ) (ids : List ℕ)
      → IsKept orm J
      → Keeps (OnOrders orm J) Any (settle_stay_orders orm user stay_id ids)
  unfolding settle_stay_orders Orders.find_unsettled
  settle_stay_orders-Keeps user stay_id ids kept =
      Keeps-bind {P = Any} _ _ (find_stay-Keeps _ _) λ _ _.
        Keeps-bind {P = Any} _ _ (mark_orders-Keeps orm J kept ids _ _ _) λ lines _.
          Keeps-then _ _ (Keeps-when _ _ (audit-Keeps _ _ _ _))
            (Keeps-bind {P = Any} _ _ (Keeps-gets _ (λ w h. tt)) λ left _. Keeps-pure _ tt)
