-- ===== src/Stays/Handlers/CheckIn.antt =====
-- `checkIn` of src/modules/tenant-stays/tenant-stays.service.ts makes one change: an arrival.
use hotello_backend.Common.{ℕ, ◌≡◌, refl, none, Text}
use hotello_backend.Store.{TypeOrm}
use hotello_backend.Clock.{Intl}
use hotello_backend.Model.People.{TenantUser}
use hotello_backend.Exec.Keeps.{
  Keeps, Any, Keeps-pure, Keeps-gets, Keeps-bind, Keeps-then, guard-Keeps,
}
use hotello_backend.Exec.Safe.{Safe, Safe-then, Keeps-before, Keeps-Safe}
use hotello_backend.Stays.Shared.{assert_dates_valid}
use hotello_backend.Stays.CheckIn.{CreateStayDto, new_stay, check_in}
use hotello_backend.Stays.Changes.{StayTable, IsKept, arrived}
use hotello_backend.Stays.Frame.{OnStays, audit-Keeps, emit_code-Keeps}
use hotello_backend.Stays.Handlers.Base.{
  Before, Before-holds, load_hotel-Keeps, lock_available_room-Keeps, issue_unique_code-Keeps,
  save_stay-Safe, from_each,
}

module _ (orm : TypeOrm) (J : StayTable orm → Type 0) where
  assert_dates_valid-Keeps : (a b : Text) → Keeps (OnStays orm J) Any (assert_dates_valid orm a b)
  unfolding assert_dates_valid
  assert_dates_valid-Keeps a b = guard-Keeps _ _

module _ (orm : TypeOrm) (intl : Intl) (hash : Text → ℕ) (J : StayTable orm → Type 0) where
  check_in-Safe :
      (actor : TenantUser) (dto : CreateStayDto)
      → IsKept orm actor.hotel_id J
      → (t : StayTable orm)
      → Safe
          (OnStays orm (Before orm J t))
          (OnStays orm J)
          (λ _. OnStays orm J)
          (check_in orm intl hash actor dto)
  unfolding check_in new_stay
  check_in-Safe actor dto kept t =
      Keeps-before _ _ (Before-holds orm J t) (assert_dates_valid-Keeps orm (Before orm J t) _ _)
        λ _ _. Keeps-before _ _ (Before-holds orm J t) (load_hotel-Keeps orm J t _) λ hotel _.
          Keeps-before _ _ (Before-holds orm J t) (lock_available_room-Keeps orm J t _ _)
            λ room free.
              Keeps-before _ _ (Before-holds orm J t) (issue_unique_code-Keeps orm J t hash _)
                λ issued unused.
                  Keeps-before {P = λ id. orm.get t id ≡ none} _ _ (Before-holds orm J t)
                    (Keeps-gets _ (λ w h. rw h.0 (orm.get-generate_id t)))
                    λ id fresh.
                      Safe-then _ _
                        (save_stay-Safe orm J t actor.hotel_id _ kept
                          (arrived _ fresh refl free unused))
                        (Keeps-Safe _ (
                          Keeps-then _ _ (audit-Keeps orm J _ _ _ _) (
                            Keeps-then _ _ (emit_code-Keeps orm J _ _ _ _) (
                              Keeps-bind {P = Any} _ _ (Keeps-gets _ (λ w h. tt))
                                λ view _. Keeps-pure _ tt))))

  pub check_in-Keeps :
      (actor : TenantUser) (dto : CreateStayDto)
      → IsKept orm actor.hotel_id J
      → Keeps (OnStays orm J) Any (check_in orm intl hash actor dto)
  check_in-Keeps actor dto kept = from_each orm J _ (check_in-Safe actor dto kept)
