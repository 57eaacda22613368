-- ===== src/Housekeeping/System.antt =====
-- The actions that no staff member takes: the vacate hook, the guest's toggle, bulk assignment and
-- the daily job. Each keeps every room sound.
use hotello_backend.Common.{
  ℕ, ◌≡◌, Bool, true, false, Option, none, some, List, [], ◌∷◌, All, arith,
}
use hotello_backend.Store.{TypeOrm, AllRows, AllRows-save, find-All}
use hotello_backend.Clock.{Intl}
use hotello_backend.Model.People.{TenantUser}
use hotello_backend.Model.Rooms.{Room}
use hotello_backend.Model.Stays.{Stay}
use hotello_backend.Exec.{World, pure}
use hotello_backend.Exec.Keeps.{
  Keeps, Any, Keeps-pure, Keeps-gets, Keeps-from_option, guard-Keeps, Keeps-when, Keeps-modify,
  Keeps-bind, Keeps-then,
}
use hotello_backend.Housekeeping.Transitions.{transition, vacate}
use hotello_backend.Housekeeping.Rooms.{state_of, save_room}
use hotello_backend.Housekeeping.Actions.{id_of}
use hotello_backend.Housekeeping.Hooks.{
  assign_all, bulk_assign, vacated, on_room_vacated, assert_housekeeping_available, toggle, stamp,
  toggled, set_dnd,
}
use hotello_backend.Housekeeping.Staff.{
  IsMoved, apply-IsMoved, RoomTable, log-Keeps, audit-Keeps, record_event-Keeps,
  notify_staff_available-Keeps, notify_staff_assigned-Keeps, resolve_assignee-Keeps,
}
use hotello_backend.Housekeeping.Sound.{IsSound, AllSound}

module _ (orm : TypeOrm) where
  abbrev pub J : RoomTable orm → Type 0
  J = AllRows orm IsSound

  pub save-Keeps : (r : Room) → IsSound r → Keeps (AllSound orm) Any (save_room orm r)
  unfolding save_room
  save-Keeps r p = Keeps-modify _ (λ w h. AllRows-save orm IsSound r w.rooms p h)

  -- a stored room that is looked up is sound
  looked_up :
      (test : Room → Bool) (w : World orm) (r : Room)
      → AllSound orm w
      → orm.find_one test w.rooms ≡ some r
      → IsSound r
  looked_up test w r h e = h r.id r (orm.find_one-some test w.rooms r e).0

  vacated-Keeps :
      (room : Room) (actor : Option ℕ)
      → Keeps (AllSound orm) Any (vacated orm room actor (transition (state_of room) vacate))
  unfolding vacated transition
  vacated-Keeps room actor = Keeps-then _ _ (save-Keeps _ (ground arith)) (
      Keeps-then _ _ (audit-Keeps orm J _ _ _ _) (
        Keeps-then _ _ (record_event-Keeps orm J _ _ _ _ _)
          (notify_staff_available-Keeps orm J _ _)))

  pub on_room_vacated-Keeps :
      (room_id hotel_id : ℕ) (actor : Option ℕ)
      → Keeps (AllSound orm) Any (on_room_vacated orm room_id hotel_id actor)
  unfolding on_room_vacated
  on_room_vacated-Keeps room_id hotel_id actor =
      Keeps-bind {P = Any} _ _ (Keeps-gets _ (λ w h. tt)) λ o _. go o
    where
      go :
          (o : Option Room)
          → Keeps (AllSound orm) Any (elim o [
            | none ↦ pure tt
            | some room ↦ vacated orm room actor (transition (state_of room) vacate)
          ])
      go none = Keeps-pure tt tt
      go (some room) = vacated-Keeps room actor

  -- the room that a toggle saves
  stamp-IsSound :
      (intl : Intl) (active : Bool) (stay : Stay) (room applied : Room) (w : World orm)
      → IsSound room
      → IsMoved orm J room (toggle orm active) applied
      → IsSound (stamp orm intl active stay applied w)
  unfolding transition
  stamp-IsSound intl true stay room applied w p (s, e, same) = ground arith
  stamp-IsSound intl false stay room applied w p (s, e, same) = ground arith

  toggled-Keeps :
      (active : Bool) (stay : Stay) (room : Room)
      → Keeps (AllSound orm) Any (toggled orm active stay room)
  unfolding toggled
  toggled-Keeps active stay room =
      Keeps-then _ _ (audit-Keeps orm J _ _ _ _) (record_event-Keeps orm J _ _ _ _ _)

  available-Keeps :
      (hotel_id : ℕ) → Keeps (AllSound orm) Any (assert_housekeeping_available orm hotel_id)
  unfolding assert_housekeeping_available
  available-Keeps hotel_id =
      Keeps-bind {P = Any} _ _ (Keeps-gets _ (λ w h. tt))
        λ state _. Keeps-then _ _ (guard-Keeps _ _) (guard-Keeps _ _)

  pub set_dnd-Keeps :
      (intl : Intl) (stay : Stay) (active : Bool)
      → Keeps (AllSound orm) Any (set_dnd orm intl stay active)
  unfolding set_dnd
  set_dnd-Keeps intl stay active = Keeps-then _ _ (available-Keeps _) (
      Keeps-bind {P = λ o. (r : Room) → o ≡ some r → IsSound r} _ _
        (Keeps-gets _ (λ w h r e. looked_up _ w r h e))
        λ o p. Keeps-bind {P = IsSound} _ _ (Keeps-from_option _ o p) λ room q.
          Keeps-bind _ _ (apply-IsMoved orm J room (toggle orm active)) λ applied m.
            Keeps-bind {P = IsSound} _ _
              (Keeps-gets _ (λ w h. stamp-IsSound intl active stay room applied w q m))
              λ saved r. Keeps-then _ _ (save-Keeps saved r) (
                Keeps-then _ _ (Keeps-when _ _ (toggled-Keeps active stay saved))
                  (Keeps-pure _ tt)))

  assign_all-Keeps :
      (assignee : Option ℕ) (rooms : List Room)
      → All IsSound rooms
      → Keeps (AllSound orm) Any (assign_all orm assignee rooms)
  unfolding assign_all
  assign_all-Keeps assignee [] h = Keeps-pure [] tt
  assign_all-Keeps assignee (room ∷ rooms) (p, h) =
      Keeps-then _ _
        (save-Keeps _
          (record { typed = p.typed; untyped = p.untyped; asked = p.asked; unasked = p.unasked }))
        (Keeps-bind {P = Any} _ _ (assign_all-Keeps assignee rooms h) λ rest _. Keeps-pure _ tt)

  pub bulk_assign-Keeps :
      (user : TenantUser) (room_ids : List ℕ) (assignee_id : Option ℕ)
      → Keeps (AllSound orm) Any (bulk_assign orm user room_ids assignee_id)
  unfolding bulk_assign
  bulk_assign-Keeps user room_ids assignee_id =
      Keeps-bind _ _ (resolve_assignee-Keeps orm J user.hotel_id assignee_id) λ assignee _.
        Keeps-bind {P = All IsSound} _ _
          (Keeps-gets _ (λ w h. find-All orm IsSound _ w.rooms (λ k r stored _. h k r stored)))
          λ rooms p. Keeps-bind {P = Any} _ _ (assign_all-Keeps (id_of assignee) rooms p) λ saved _.
            Keeps-then _ _ (log-Keeps orm J _) (
              Keeps-then _ _ (notify_staff_assigned-Keeps orm J _ _ _ _ _)
                (Keeps-gets _ (λ w h. tt)))
