-- ===== src/Housekeeping/Transitions.antt =====
-- src/modules/housekeeping/housekeeping-transitions.ts: the one transition function.
pub mod Matrix
use hotello_backend.Common.{Option, none, some}
use hotello_backend.Model.Rooms.{
  HousekeepingStatus, clean, needs_cleaning, in_progress, dnd, CleaningType, checkout,
}

pub record HkState : Type 0 where
  pub status : HousekeepingStatus
  pub cleaning_type : Option CleaningType

pub data HkAction : Type 0 where
  flag : CleaningType → HkAction
  clear start complete interrupt vacate dnd_on dnd_off : HkAction

pub data HkErrorCode : Type 0 where
  housekeeping_invalid_status housekeeping_room_dnd : HkErrorCode

pub data HkTransitionResult : Type 0 where
  moved : HkState → HkTransitionResult
  refused : HkErrorCode → HkTransitionResult

-- `ok` of the source
abbrev to : HousekeepingStatus → Option CleaningType → HkTransitionResult
to status cleaning_type = moved (record { status = status; cleaning_type = cleaning_type })

abbrev invalid : HkTransitionResult
invalid = refused housekeeping_invalid_status

-- the `switch`, on the action and then on the two fields of the state
dispatch : HkAction → HousekeepingStatus → Option CleaningType → HkTransitionResult
dispatch (flag kind) in_progress _ = invalid
dispatch (flag kind) dnd _ = to dnd (some kind)
dispatch (flag kind) _ _ = to needs_cleaning (some kind)
dispatch clear needs_cleaning _ = to clean none
dispatch clear dnd (some _) = to dnd none
dispatch clear _ _ = invalid
dispatch start dnd _ = refused housekeeping_room_dnd
dispatch start needs_cleaning kind = to in_progress kind
dispatch start _ _ = invalid
dispatch complete in_progress _ = to clean none
dispatch complete _ _ = invalid
dispatch interrupt in_progress kind = to needs_cleaning kind
dispatch interrupt _ _ = invalid
dispatch vacate _ _ = to needs_cleaning (some checkout)
dispatch dnd_on _ kind = to dnd kind
dispatch dnd_off dnd (some kind) = to needs_cleaning (some kind)
dispatch dnd_off dnd none = to clean none
dispatch dnd_off status kind = to status kind

unfoldable pub transition : HkState → HkAction → HkTransitionResult
unfolding dispatch
transition state action = dispatch action state.status state.cleaning_type
