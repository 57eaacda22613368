-- ===== src/Housekeeping/Reach.antt =====
-- Housekeeping as a transition system: every call of the module in any order, with whatever the rest
-- of the program does to the other tables and to the clock in between.
use hotello_backend.Common.{ℕ, ◌≡◌, sym, Bool, Option, List, Text, text_eq}
use hotello_backend.Store.{TypeOrm, AllRows}
use hotello_backend.Clock.{Intl}
use hotello_backend.Model.People.{TenantUser}
use hotello_backend.Model.Stays.{Stay}
use hotello_backend.Exec.{World, final}
use hotello_backend.Exec.Keeps.{
  Keeps, Any, Keeps-final, Keeps-pure, Keeps-gets, Keeps-from_option, Keeps-if, Keeps-modify,
  Keeps-bind, Keeps-then,
}
use hotello_backend.Housekeeping.Controller.{RoomRoute, handle}
use hotello_backend.Housekeeping.Hooks.{
  find_hotel, update_settings, bulk_assign, on_room_vacated, set_dnd,
}
use hotello_backend.Housekeeping.Daily.{run_daily_service}
use hotello_backend.Housekeeping.Daily.Sound.{run_daily_service-Keeps}
use hotello_backend.Housekeeping.Staff.{log-Keeps}
use hotello_backend.Housekeeping.Sound.{IsSound, AllSound, handle-AllSound}
use hotello_backend.Housekeeping.System.{J, on_room_vacated-Keeps, set_dnd-Keeps, bulk_assign-Keeps}
use mathlib.Core.Path.{subst}

module _ (orm : TypeOrm) where
  find_hotel-Keeps : (hotel_id : ℕ) → Keeps (AllSound orm) Any (find_hotel orm hotel_id)
  unfolding find_hotel
  find_hotel-Keeps hotel_id =
      Keeps-bind {P = Any} _ _ (Keeps-gets _ (λ w h. tt)) λ o _. Keeps-from_option _ o (λ a e. tt)

  update_settings-Keeps :
      (user : TenantUser) (time : Text) → Keeps (AllSound orm) Any (update_settings orm user time)
  unfolding update_settings
  update_settings-Keeps user time =
      Keeps-bind {P = Any} _ _ (find_hotel-Keeps user.hotel_id) λ hotel _.
        Keeps-if (text_eq time hotel.daily_service_time) _ _ (λ _. Keeps-pure _ tt)
          λ _.
            Keeps-then _ _ (Keeps-modify _ (λ w h. h))
              (Keeps-then _ _ (log-Keeps orm (J orm) _) (Keeps-pure _ tt))

  -- one step from a state to the next
  pub data Step (intl : Intl) : World orm → World orm → Type 0 where
    staff :
        (user : TenantUser) (id : ℕ) (route : RoomRoute) (w : World orm)
        → Step intl w (final (handle orm user id route w))
    bulk :
        (user : TenantUser) (room_ids : List ℕ) (assignee_id : Option ℕ) (w : World orm)
        → Step intl w (final (bulk_assign orm user room_ids assignee_id w))
    settings :
        (user : TenantUser) (time : Text) (w : World orm)
        → Step intl w (final (update_settings orm user time w))
    vacate :
        (room_id hotel_id : ℕ) (actor_id : Option ℕ) (w : World orm)
        → Step intl w (final (on_room_vacated orm room_id hotel_id actor_id w))
    guest :
        (stay : Stay) (active : Bool) (w : World orm)
        → Step intl w (final (set_dnd orm intl stay active w))
    daily_job : (w : World orm) → Step intl w (final (run_daily_service orm intl w))
    elsewhere : {w w' : World orm} → w'.rooms ≡ w.rooms → Step intl w w'

  pub data Reach (intl : Intl) : World orm → World orm → Type 0 where
    here : {w : World orm} → Reach intl w w
    next : {w v u : World orm} → Reach intl w v → Step intl v u → Reach intl w u

  Step-AllSound : (intl : Intl) {w v : World orm} → Step intl w v → AllSound orm w → AllSound orm v
  Step-AllSound intl (staff user id route w) h = handle-AllSound orm user id route w h
  Step-AllSound intl (bulk user ids o w) h = Keeps-final (bulk_assign-Keeps orm user ids o) w h
  Step-AllSound intl (settings user time w) h = Keeps-final (update_settings-Keeps user time) w h
  Step-AllSound intl (vacate r t a w) h = Keeps-final (on_room_vacated-Keeps orm r t a) w h
  Step-AllSound intl (guest stay active w) h = Keeps-final (set_dnd-Keeps orm intl stay active) w h
  Step-AllSound intl (daily_job w) h = Keeps-final (run_daily_service-Keeps orm intl) w h
  Step-AllSound intl (elsewhere e) h = subst (λ t. AllRows orm IsSound t) (sym e) h

  -- From sound rooms, no order of staff actions, bulk assignments, settings changes, vacated rooms,
  -- guest toggles and daily jobs, refused or not and mixed with any changes to the other tables,
  -- reaches a room that waits for cleaning without a cleaning type, a clean room with one, or a
  -- Do-Not-Disturb room that names no stay.
  pub Reach-AllSound :
      (intl : Intl) (w v : World orm) → Reach intl w v → AllSound orm w → AllSound orm v
  Reach-AllSound intl w _ here h = h
  Reach-AllSound intl w v (next {v = u} r s) h = Step-AllSound intl s (Reach-AllSound intl w u r h)
