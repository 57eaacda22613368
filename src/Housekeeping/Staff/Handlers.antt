-- ===== src/Housekeeping/Staff/Handlers.antt =====
-- Every staff action keeps an invariant of the rooms table that satisfies the rules.
use hotello_backend.Common.{if-holds, ℕ, Option, some, Text}
use hotello_backend.Store.{TypeOrm}
use hotello_backend.Model.People.{TenantUser}
use hotello_backend.Model.Rooms.{Room, CleaningType}
use hotello_backend.Exec.{World}
use hotello_backend.Exec.Keeps.{Keeps, Any, Keeps-bind, Keeps-then, Keeps-gets}
use hotello_backend.Shared.{is_null}
use hotello_backend.Housekeeping.Transitions.{flag, clear}
use hotello_backend.Housekeeping.Transitions
use hotello_backend.Housekeeping.Actions
use hotello_backend.Housekeeping.Actions.{
  flag_room, clear_room, complete, interrupt, assign, claim, id_of,
}
use hotello_backend.Housekeeping.Staff.{
  RoomTable, flags, clears, starts, completes, interrupts, StaffRules, audit-Keeps,
  record_event-Keeps, notify_staff_available-Keeps, notify_staff_assigned-Keeps, to_view-Keeps,
  resolve_assignee-Keeps, find_room-Keeps, apply-Keeps, save-Keeps,
}

module _ (orm : TypeOrm) (J : RoomTable orm → Type 0) {P : Room → Type 0} (user : TenantUser)
    (id : ℕ) (rules : StaffRules orm user.hotel_id id J P) where
  abbrev OnRooms : World orm → Type 0
  OnRooms w = J w.rooms

  pub flag_room-Keeps :
      (kind : CleaningType) (reason : Option Text)
      → Keeps OnRooms Any (flag_room orm user id kind reason)
  unfolding flag_room
  flag_room-Keeps kind reason = Keeps-bind _ _ (find_room-Keeps orm J rules) λ room p.
      Keeps-bind _ _ (apply-Keeps orm J rules room (flag kind) (flags kind) p) λ saved q.
        Keeps-then _ _ (save-Keeps orm J rules saved q) (
          Keeps-then _ _ (audit-Keeps orm J _ _ _ _) (
            Keeps-then _ _ (record_event-Keeps orm J _ _ _ _ _)
              (Keeps-then _ _ (notify_staff_available-Keeps orm J _ _) (to_view-Keeps orm J _))))

  pub clear_room-Keeps : (reason : Option Text) → Keeps OnRooms Any (clear_room orm user id reason)
  unfolding clear_room
  clear_room-Keeps reason = Keeps-bind _ _ (find_room-Keeps orm J rules) λ room p.
      Keeps-bind _ _ (apply-Keeps orm J rules room clear clears p) λ saved q.
        Keeps-then _ _ (save-Keeps orm J rules saved q) (
          Keeps-then _ _ (audit-Keeps orm J _ _ _ _)
            (Keeps-then _ _ (record_event-Keeps orm J _ _ _ _ _) (to_view-Keeps orm J _)))

  claim-holds : (room : Room) → P room → P (claim orm user.id room)
  claim-holds room p =
      if-holds P (is_null room.housekeeping_assigned_to_id) _ _
        (rules.assigns room (some user.id) p) p

  pub start-Keeps : Keeps OnRooms Any (Actions.start orm user id)
  unfolding Actions.start
  start-Keeps = Keeps-bind _ _ (find_room-Keeps orm J rules) λ room p.
      Keeps-bind _ _ (apply-Keeps orm J rules room Transitions.start starts p) λ applied q.
        Keeps-then _ _ (save-Keeps orm J rules (claim orm user.id applied) (claim-holds applied q))
          (Keeps-then _ _ (audit-Keeps orm J _ _ _ _)
            (Keeps-then _ _ (record_event-Keeps orm J _ _ _ _ _) (to_view-Keeps orm J _)))

  pub complete-Keeps : Keeps OnRooms Any (complete orm user id)
  unfolding complete
  complete-Keeps = Keeps-bind _ _ (find_room-Keeps orm J rules) λ room p.
      Keeps-bind _ _ (apply-Keeps orm J rules room Transitions.complete completes p) λ applied q.
        Keeps-bind {P = Any} _ _ (Keeps-gets _ (λ w h. tt)) λ now _.
          Keeps-then _ _
            (save-Keeps orm J rules _ (rules.cleans applied (some now) (some user.id) q))
            (Keeps-then _ _ (audit-Keeps orm J _ _ _ _)
              (Keeps-then _ _ (record_event-Keeps orm J _ _ _ _ _) (to_view-Keeps orm J _)))

  pub interrupt-Keeps : (reason : Text) → Keeps OnRooms Any (interrupt orm user id reason)
  unfolding interrupt
  interrupt-Keeps reason = Keeps-bind _ _ (find_room-Keeps orm J rules) λ room p.
      Keeps-bind _ _ (apply-Keeps orm J rules room Transitions.interrupt interrupts p) λ saved q.
        Keeps-then _ _ (save-Keeps orm J rules saved q) (
          Keeps-then _ _ (audit-Keeps orm J _ _ _ _)
            (Keeps-then _ _ (record_event-Keeps orm J _ _ _ _ _) (to_view-Keeps orm J _)))

  pub assign-Keeps : (assignee_id : Option ℕ) → Keeps OnRooms Any (assign orm user id assignee_id)
  unfolding assign
  assign-Keeps assignee_id = Keeps-bind _ _ (find_room-Keeps orm J rules) λ room p.
      Keeps-bind _ _ (resolve_assignee-Keeps orm J user.hotel_id assignee_id) λ assignee _.
        Keeps-then _ _ (save-Keeps orm J rules _ (rules.assigns room (id_of assignee) p)) (
          Keeps-then _ _ (audit-Keeps orm J _ _ _ _)
            (Keeps-then _ _ (notify_staff_assigned-Keeps orm J _ _ _ _ _) (to_view-Keeps orm J _)))
