-- ===== src/Stays/Handlers/Close.antt =====
-- `checkout` of src/modules/tenant-stays/tenant-stays.service.ts and `closeOverdueStays` of
-- src/modules/tenant-stays/auto-checkout.service.ts: the closing of active stays.
use hotello_backend.Common.{
  ℕ, ◌+◌, ◌≡◌, ◌≢◌, refl, ◌∙◌, sym, ap, Option, some, List, [], ◌∷◌, All, Text, arith,
}
use hotello_backend.Store.{TypeOrm, find-All, Distinct, get-save_ne}
use hotello_backend.Clock.{Intl, is_stay_overdue}
use hotello_backend.Model.People.{Hotel, TenantUser}
use hotello_backend.Model.Rooms.{Room}
use hotello_backend.Model.Stays.{Stay, StayStatus}
use hotello_backend.Exec.{World}
use hotello_backend.Exec.Keeps.{Keeps, Any, Keeps-gets, Keeps-bind, Keeps-then}
use hotello_backend.Exec.Safe.{
  Safe, Safe-err, Safe-pre, Safe-if, Safe-bind, Safe-then, Safe-pure, Safe-gets, Safe-modify,
  Safe-from_option, Safe-Holds, Keeps-before, Keeps-Safe,
}
use hotello_backend.Stays.Shared.{save_stay}
use hotello_backend.Stays.Moves.{checked_out_stay, checkout}
use hotello_backend.Stays.AutoCheckout.{
  closed_stay, candidate, close, close_all, close_overdue_stays,
}
use hotello_backend.Stays.Changes.{StayTable, IsKept, closed}
use hotello_backend.Stays.Frame.{OnStays, log-Keeps, audit-Keeps, on_room_vacated-Keeps}
use hotello_backend.Stays.Handlers.Base.{
  Before, Before-holds, find_stay_in_hotel-Keeps, assert_active-Keeps, save_stay-Safe,
  loaded_room-Keeps, from_each,
}

module _ (orm : TypeOrm) (intl : Intl) (J : StayTable orm → Type 0) where
  checkout-Safe :
      (actor : TenantUser) (id : ℕ)
      → IsKept orm actor.hotel_id J
      → (t : StayTable orm)
      → Safe
          (OnStays orm (Before orm J t))
          (OnStays orm J)
          (λ _. OnStays orm J)
          (checkout orm intl actor id)
  unfolding checkout
  checkout-Safe actor id kept t =
      Keeps-before _ _ (Before-holds orm J t) (find_stay_in_hotel-Keeps orm J t _ _)
        λ loaded stored.
          Keeps-before _ _ (Before-holds orm J t) (assert_active-Keeps orm J t _) λ _ live.
            Keeps-before {P = Any} _ _ (Before-holds orm J t) (Keeps-gets _ (λ w h. tt)) λ now _.
              Safe-then _ _
                (save_stay-Safe orm J t actor.hotel_id _ kept (
                  closed loaded.stay (checked_out_stay orm intl now actor.id loaded.stay)
                    (record {
                      stored = stored.0;
                      active = live;
                      own = stored.1;
                      same_id = refl;
                      same_hotel = refl;
                    })
                    refl refl refl))
                (Keeps-Safe _ (
                  Keeps-then _ _ (on_room_vacated-Keeps orm J _ _ _) (
                    Keeps-bind {P = Any} _ _ (loaded_room-Keeps orm J _) λ r _.
                      Keeps-then _ _ (audit-Keeps orm J _ _ _ _) (Keeps-gets _ (λ w h. tt)))))

  pub checkout-Keeps :
      (actor : TenantUser) (id : ℕ)
      → IsKept orm actor.hotel_id J
      → Keeps (OnStays orm J) Any (checkout orm intl actor id)
  checkout-Keeps actor id kept = from_each orm J _ (checkout-Safe actor id kept)

-- the rows that the loop has still to visit are stored and active
abbrev AreOpen : (orm : TypeOrm) → StayTable orm → List Stay → Type 0
AreOpen orm t rows = All (λ s. (orm.get t s.id ≡ some s) × (s.status ≡ StayStatus.active)) rows

AreOpen-save :
    (orm : TypeOrm) (t : StayTable orm) (s : Stay) (rows : List Stay)
    → All (λ r. r.id ≢ s.id) rows
    → AreOpen orm t rows
    → AreOpen orm (orm.save s t) rows
AreOpen-save orm t s [] apart live = tt
AreOpen-save orm t s (r ∷ rows) (ne, apart) ((stored, active), rest) = (
  (get-save_ne orm s t r.id (λ e. ne (sym e)) ∙ stored, active),
  AreOpen-save orm t s rows apart rest,
)

module _ (orm : TypeOrm) (intl : Intl) (J : StayTable orm → Type 0)
    (kept : (hotel_id : ℕ) → IsKept orm hotel_id J) where
  abbrev Open : List Stay → StayTable orm → Type 0
  Open rows t = J t × AreOpen orm t rows

  abbrev Visited : List Stay → World orm → Type 0
  Visited rows w = Open rows w.stays × Distinct (λ (s : Stay). s.id) rows

  close-Safe :
      (s : Stay) (rows : List Stay) (room : Option Room) (now : ℕ)
      → All (λ r. r.id ≢ s.id) rows
      → Safe
          (OnStays orm (Open (s ∷ rows)))
          (OnStays orm J)
          (λ _. OnStays orm (Open rows))
          (close orm intl s room now)
  unfolding close save_stay
  close-Safe s rows room now apart =
      Safe-then _ _
        (Safe-modify {Q = OnStays orm (Open rows)} _ λ w (j, ((stored, live), rest)). (
          kept s.hotel_id w.stays (closed_stay now s)
              (closed s (closed_stay now s)
                (record {
                  stored = stored;
                  active = live;
                  own = refl;
                  same_id = refl;
                  same_hotel = refl;
                })
                refl refl refl)
              j,
          AreOpen-save orm w.stays (closed_stay now s) rows apart rest,
        ))
        (Safe-err {E = OnStays orm (Open rows)} _ (λ w h. h.0)
          (Keeps-Safe _ (
            Keeps-then _ _ (on_room_vacated-Keeps orm (Open rows) _ _ _)
              (log-Keeps orm (Open rows) _))))

  close_all-Safe :
      (now : ℕ) (hotel_of : Stay → Option Hotel) (room_of : Stay → Option Room) (rows : List Stay)
      (n : ℕ)
      → Distinct (λ (s : Stay). s.id) rows
      → Safe
          (OnStays orm (Open rows))
          (OnStays orm J)
          (λ _. OnStays orm J)
          (close_all orm intl now hotel_of room_of rows n)
  unfolding close_all
  close_all-Safe now hotel_of room_of [] n d = Safe-pure _ (λ w h. h.0)
  close_all-Safe now hotel_of room_of (s ∷ rows) n (apart, d) =
      Safe-bind {Q = λ _. OnStays orm (Open (s ∷ rows))} _ _
        (Safe-from_option _ (hotel_of s) (λ w h. h.0) (λ a e w h. h))
        λ hotel.
          Safe-if (is_stay_overdue intl s.check_out_date hotel.checkout_time hotel.timezone now) _ _
            (λ _.
              Safe-then _ _ (close-Safe s rows (room_of s) now apart)
                (close_all-Safe now hotel_of room_of rows (n + 1) d))
            λ _.
              Safe-pre _ (λ w (j, (_, rest)). (j, rest))
                (close_all-Safe now hotel_of room_of rows n d)

  pub close_overdue_stays-Keeps : Keeps (OnStays orm J) Any (close_overdue_stays orm intl)
  unfolding close_overdue_stays
  close_overdue_stays-Keeps = record { at = λ w h. Safe-Holds _ run w h }
    where
      -- every candidate is stored, active, and met once
      candidates :
          (horizon : Text) (t : StayTable orm)
          → AreOpen orm t (orm.find (candidate orm intl horizon) t)
      candidates horizon t =
          find-All orm (λ s. (orm.get t s.id ≡ some s) × (s.status ≡ StayStatus.active))
            (candidate orm intl horizon) t
            (λ k r e passed. (ap (orm.get t) (orm.get-key t k r e) ∙ e, ground arith))

      run : Safe (OnStays orm J) (OnStays orm J) (λ _. OnStays orm J) (close_overdue_stays orm intl)
      run =
          Keeps-before {P = Any} _ _ (λ w h. h) (Keeps-gets _ (λ w h. tt))
            λ now _.
              Safe-bind {Q = Visited} _ _
                (Safe-gets _ (λ w h. ((h, candidates _ w.stays), orm.find-distinct _ w.stays)))
                λ rows. Safe-bind {Q = λ _. Visited rows} _ _ (Safe-gets _ (λ w h. h)) λ hotel_of.
                  Safe-bind {Q = λ _. Visited rows} _ _ (Safe-gets _ (λ w h. h)) λ room_of. record {
                    at = λ w (o, d). (close_all-Safe now hotel_of room_of rows 0 d).at w o;
                  }
