-- ===== src/Housekeeping/Controller.antt =====
-- src/modules/housekeeping/tenant-housekeeping.controller.ts: the staff routes on one room.
use hotello_backend.Common.{ℕ, Option, Text}
use hotello_backend.Store.{TypeOrm}
use hotello_backend.Model.People.{TenantUser}
use hotello_backend.Model.Rooms.{CleaningType}
use hotello_backend.Exec.{Exec}
use hotello_backend.Housekeeping.Rooms.{HousekeepingRoomView}
use hotello_backend.Housekeeping.Actions

-- a route under `rooms/:id`, with the fields of its body
pub data RoomRoute : Type 0 where
  flag : CleaningType → Option Text → RoomRoute
  clear : Option Text → RoomRoute
  start complete : RoomRoute
  interrupt : Text → RoomRoute
  assign : Option ℕ → RoomRoute

unfoldable pub handle : (orm : TypeOrm) → TenantUser → ℕ → RoomRoute → Exec orm HousekeepingRoomView
handle orm user id (flag kind reason) = Actions.flag_room orm user id kind reason
handle orm user id (clear reason) = Actions.clear_room orm user id reason
handle orm user id start = Actions.start orm user id
handle orm user id complete = Actions.complete orm user id
handle orm user id (interrupt reason) = Actions.interrupt orm user id reason
handle orm user id (assign assignee_id) = Actions.assign orm user id assignee_id
