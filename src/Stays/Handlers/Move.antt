-- ===== src/Stays/Handlers/Move.antt =====
-- `changeRoom` and `regenerateCode` of src/modules/tenant-stays/tenant-stays.service.ts make one change:
-- a move into a free room, or an unused code.
use hotello_backend.Common.{ℕ, ◌≡◌, refl, Option, none, some, Text, ◌==◌}
use hotello_backend.Store.{TypeOrm}
use hotello_backend.Clock.{Intl}
use hotello_backend.Model.People.{TenantUser}
use hotello_backend.Model.Rooms.{Room}
use hotello_backend.Model.Stays.{Stay, active}
use hotello_backend.Exec.Keeps.{
  Keeps, Any, Keeps-pure, Keeps-gets, Keeps-bind, Keeps-then, Keeps-when, Keeps-from_option,
}
use hotello_backend.Exec.Safe.{
  Safe, Safe-pre, Safe-if, Safe-bind, Safe-then, Safe-pure, Keeps-before, Keeps-Safe,
}
use hotello_backend.Stays.Shared.{find_room}
use hotello_backend.Stays.Moves.{move_stay, stay_put, vacate_from, change_room, regenerate_code}
use hotello_backend.Stays.Changes.{StayTable, IsKept, moved, recoded}
use hotello_backend.Stays.Frame.{
  OnStays, audit-Keeps, record_room_change-Keeps, on_room_vacated-Keeps,
}
use hotello_backend.Stays.Handlers.Base.{
  Before, Before-holds, IsStored, load_hotel-Keeps, find_stay-Keeps, find_stay_in_hotel-Keeps,
  assert_active-Keeps, lock_available_room-Keeps, issue_unique_code-Keeps, save_stay-Safe,
  load_hotel_after-Keeps, loaded_room-Keeps, from_each,
}

module _ (orm : TypeOrm) (intl : Intl) (J : StayTable orm → Type 0) where
  move_stay-Safe :
      (t : StayTable orm) (hotel_id : ℕ) (s : Stay) (from : Option Room) (room_id : ℕ)
      → IsKept orm hotel_id J
      → IsStored orm t hotel_id s
      → s.status ≡ active
      → Safe
          (OnStays orm (Before orm J t))
          (OnStays orm J)
          (λ _. OnStays orm J)
          (move_stay orm intl hotel_id s from room_id)
  unfolding move_stay
  move_stay-Safe t hotel_id s from room_id kept (stored, own) live =
      Keeps-before _ _ (Before-holds orm J t) (lock_available_room-Keeps orm J t _ _) λ room free.
        Safe-then _ _
          (save_stay-Safe orm J t hotel_id _ kept (
            moved s (record s { room_id = room.id })
              (record {
                stored = stored;
                active = live;
                own = own;
                same_id = refl;
                same_hotel = refl;
              })
              free refl refl))
          (Safe-pure _ (λ w h. h))

  stay_put-Keeps :
      (s : Stay) (from : Option Room) → Keeps (OnStays orm J) Any (stay_put orm intl s from)
  unfolding stay_put
  stay_put-Keeps s from =
      Keeps-bind {P = Any} _ _ (Keeps-from_option _ from (λ a e. tt)) λ r _. Keeps-pure _ tt

  vacate_from-Keeps :
      (actor : TenantUser) (from : Option Room)
      → Keeps (OnStays orm J) Any (vacate_from orm intl actor from)
  unfolding vacate_from
  vacate_from-Keeps actor none = Keeps-pure tt tt
  vacate_from-Keeps actor (some r) = on_room_vacated-Keeps orm J _ _ _

module _ (orm : TypeOrm) (intl : Intl) (J : StayTable orm → Type 0) where
  stay_put-Safe :
      (t : StayTable orm) (s : Stay) (from : Option Room)
      → Safe
          (OnStays orm (Before orm J t))
          (OnStays orm J)
          (λ _. OnStays orm J)
          (stay_put orm intl s from)
  stay_put-Safe t s from =
      Safe-pre _ (Before-holds orm J t) (Keeps-Safe _ (stay_put-Keeps orm intl J s from))

  change_room-Safe :
      (actor : TenantUser) (id room_id : ℕ)
      → IsKept orm actor.hotel_id J
      → (t : StayTable orm)
      → Safe
          (OnStays orm (Before orm J t))
          (OnStays orm J)
          (λ _. OnStays orm J)
          (change_room orm intl actor id room_id)
  unfolding change_room find_room
  change_room-Safe actor id room_id kept t =
      Keeps-before _ _ (Before-holds orm J t) (load_hotel-Keeps orm J t _) λ hotel _.
        Keeps-before _ _ (Before-holds orm J t) (find_stay-Keeps orm J t _ _) λ s stored.
          Keeps-before _ _ (Before-holds orm J t) (assert_active-Keeps orm J t _) λ _ live.
            Keeps-before {P = Any} _ _ (Before-holds orm J t) (Keeps-gets _ (λ w h. tt)) λ from _.
              Safe-bind _ _
                (Safe-if (s.room_id == room_id) _ _ (λ _. stay_put-Safe t s from)
                  λ _. move_stay-Safe orm intl J t actor.hotel_id s from room_id kept stored live)
                λ m. Keeps-Safe _ (
                  Keeps-then _ _
                    (Keeps-when _ _ (
                      Keeps-then _ _ (vacate_from-Keeps orm intl J actor m.from) (
                        Keeps-then _ _ (audit-Keeps orm J _ _ _ _)
                          (record_room_change-Keeps orm J _ _ _ _))))
                    (Keeps-bind {P = Any} _ _ (load_hotel_after-Keeps orm J _)
                      λ h _. Keeps-gets _ (λ w h. tt)))

  pub change_room-Keeps :
      (actor : TenantUser) (id room_id : ℕ)
      → IsKept orm actor.hotel_id J
      → Keeps (OnStays orm J) Any (change_room orm intl actor id room_id)
  change_room-Keeps actor id room_id kept =
      from_each orm J _ (change_room-Safe actor id room_id kept)

  regenerate_code-Safe :
      (hash : Text → ℕ) (actor : TenantUser) (id : ℕ)
      → IsKept orm actor.hotel_id J
      → (t : StayTable orm)
      → Safe
          (OnStays orm (Before orm J t))
          (OnStays orm J)
          (λ _. OnStays orm J)
          (regenerate_code orm intl hash actor id)
  unfolding regenerate_code
  regenerate_code-Safe hash actor id kept t =
      Keeps-before _ _ (Before-holds orm J t) (find_stay_in_hotel-Keeps orm J t _ _)
        λ loaded stored.
          Keeps-before _ _ (Before-holds orm J t) (assert_active-Keeps orm J t _) λ _ live.
            Keeps-before _ _ (Before-holds orm J t) (issue_unique_code-Keeps orm J t hash _)
              λ issued unused.
                Safe-then _ _
                  (save_stay-Safe orm J t actor.hotel_id _ kept (
                    recoded loaded.stay (record loaded.stay { code_hash = issued.code_hash })
                      (record {
                        stored = stored.0;
                        active = live;
                        own = stored.1;
                        same_id = refl;
                        same_hotel = refl;
                      })
                      refl unused refl))
                  (Keeps-Safe _ (
                    Keeps-then _ _ (audit-Keeps orm J _ _ _ _) (
                      Keeps-bind {P = Any} _ _ (load_hotel_after-Keeps orm J _) λ h _.
                        Keeps-bind {P = Any} _ _ (loaded_room-Keeps orm J _) λ r _.
                          Keeps-bind {P = Any} _ _ (Keeps-gets _ (λ w h. tt))
                            λ v _. Keeps-pure _ tt)))

  pub regenerate_code-Keeps :
      (hash : Text → ℕ) (actor : TenantUser) (id : ℕ)
      → IsKept orm actor.hotel_id J
      → Keeps (OnStays orm J) Any (regenerate_code orm intl hash actor id)
  regenerate_code-Keeps hash actor id kept =
      from_each orm J _ (regenerate_code-Safe hash actor id kept)
