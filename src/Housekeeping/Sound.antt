-- ===== src/Housekeeping/Sound.antt =====
-- What is true of every room at all times, and that the staff routes keep it.
use hotello_backend.Common.{ℕ, ◌≡◌, ◌≢◌, ◌⊎◌, none, arith}
use hotello_backend.Store.{TypeOrm, AllRows, AllRows-save}
use hotello_backend.Model.People.{TenantUser}
use hotello_backend.Model.Rooms.{Room, clean, needs_cleaning, in_progress, dnd}
use hotello_backend.Exec.{World, final}
use hotello_backend.Exec.Keeps.{Keeps, Any, Keeps-final}
use hotello_backend.Housekeeping.Transitions.{HkState, HkAction, moved, transition}
use hotello_backend.Housekeeping.Rooms.{state_of}
use hotello_backend.Housekeeping.Controller.{
  RoomRoute, flag, clear, start, complete, interrupt, assign, handle,
}
use hotello_backend.Housekeeping.Staff.{
  RoomTable, IsStaff, flags, clears, starts, completes, interrupts, moved_to, StaffRules,
}
use hotello_backend.Housekeeping.Staff.Handlers.{
  flag_room-Keeps, clear_room-Keeps, start-Keeps, complete-Keeps, interrupt-Keeps, assign-Keeps,
}

-- A room that is to be cleaned says how, a clean room says nothing, and exactly the rooms under
-- Do-Not-Disturb name the stay that asked for it.
pub record IsSound (r : Room) : Type 0 where
  pub typed :
      (r.housekeeping_status ≡ needs_cleaning) ⊎ (r.housekeeping_status ≡ in_progress)
      → r.cleaning_type ≢ none
  pub untyped : r.housekeeping_status ≡ clean → r.cleaning_type ≡ none
  pub asked : r.housekeeping_status ≡ dnd → r.dnd_set_by_stay_id ≢ none
  pub unasked : r.housekeeping_status ≢ dnd → r.dnd_set_by_stay_id ≡ none

module _ (orm : TypeOrm) where
  abbrev pub AllSound : World orm → Type 0
  AllSound w = AllRows orm IsSound w.rooms

  module _ (hotel_id id : ℕ) where
    moves-IsSound :
        (r : Room) (a : HkAction) (s : HkState)
        → IsStaff a
        → transition (state_of r) a ≡ moved s
        → IsSound r
        → IsSound (moved_to r s)
    unfolding transition
    moves-IsSound r _ s (flags kind) e p = ground arith
    moves-IsSound r _ s clears e p = ground arith
    moves-IsSound r _ s starts e p = ground arith
    moves-IsSound r _ s completes e p = ground arith
    moves-IsSound r _ s interrupts e p = ground arith

    pub IsSound-rules : StaffRules orm hotel_id id (AllRows orm IsSound) IsSound
    IsSound-rules = record {
      found = λ t r h stored _. h r.id r stored;
      moves = moves-IsSound;
      assigns = λ r o p. record {
        typed = p.typed;
        untyped = p.untyped;
        asked = p.asked;
        unasked = p.unasked;
      };
      cleans = λ r at by p. record {
        typed = p.typed;
        untyped = p.untyped;
        asked = p.asked;
        unasked = p.unasked;
      };
      saves = AllRows-save orm IsSound;
    }

-- Every invariant of the rules is kept by every route.
pub handle-Keeps :
    (orm : TypeOrm) (J : RoomTable orm → Type 0) {P : Room → Type 0} (user : TenantUser) (id : ℕ)
    → StaffRules orm user.hotel_id id J P
    → (route : RoomRoute) → Keeps (λ (w : World orm). J w.rooms) Any (handle orm user id route)
unfolding handle
handle-Keeps orm J user id rules (flag kind reason) =
    flag_room-Keeps orm J user id rules kind reason
handle-Keeps orm J user id rules (clear reason) = clear_room-Keeps orm J user id rules reason
handle-Keeps orm J user id rules start = start-Keeps orm J user id rules
handle-Keeps orm J user id rules complete = complete-Keeps orm J user id rules
handle-Keeps orm J user id rules (interrupt reason) = interrupt-Keeps orm J user id rules reason
handle-Keeps orm J user id rules (assign o) = assign-Keeps orm J user id rules o

-- one staff route, for the runs of `Housekeeping.Reach`
pub handle-AllSound :
    (orm : TypeOrm) (user : TenantUser) (id : ℕ) (route : RoomRoute) (w : World orm)
    → AllSound orm w
    → AllSound orm (final (handle orm user id route w))
handle-AllSound orm user id route w h =
    Keeps-final
      (handle-Keeps orm (AllRows orm IsSound) user id (IsSound-rules orm user.hotel_id id) route) w
      h
