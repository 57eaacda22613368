-- ===== src/Stays/Frame.antt =====
-- The calls that write no stay: audit entries, events, push calls and the housekeeping hook.
use hotello_backend.Common.{ℕ, String, Option, none, some, Text}
use hotello_backend.Store.{TypeOrm}
use hotello_backend.Model.People.{TenantUser}
use hotello_backend.Model.Rooms.{Room}
use hotello_backend.Model.Stays.{Stay}
use hotello_backend.Model.Effects.{AuditEntry, Metadata, PushTarget}
use hotello_backend.Exec.{World, pure}
use hotello_backend.Exec.Keeps.{
  Keeps, Any, Keeps-pure, Keeps-gets, Keeps-modify, Keeps-when, Keeps-bind, Keeps-then,
}
use hotello_backend.Housekeeping.Transitions.{
  HkTransitionResult, moved, refused, transition, vacate,
}
use hotello_backend.Housekeeping.Rooms.{state_of}
use hotello_backend.Housekeeping.Rooms as Rooms
use hotello_backend.Housekeeping.Actions.{notify_staff_available}
use hotello_backend.Housekeeping.Hooks.{vacated, on_room_vacated}
use hotello_backend.Shared.{log, notify_once, notify}
use hotello_backend.Stays.Changes.{StayTable}
use hotello_backend.Stays.Shared.{audit, record_room_change}
use hotello_backend.Stays.CheckIn.{emit_code}

module _ (orm : TypeOrm) (J : StayTable orm → Type 0) where
  abbrev pub OnStays : World orm → Type 0
  OnStays w = J w.stays

  pub log-Keeps : (e : AuditEntry) → Keeps OnStays Any (log orm e)
  unfolding log
  log-Keeps e = Keeps-modify _ (λ w h. h)

  pub audit-Keeps :
      (action : String) (id : ℕ) (actor : TenantUser) (m : Metadata)
      → Keeps OnStays Any (audit orm action id actor m)
  unfolding audit
  audit-Keeps action id actor m = log-Keeps _

  notify-Keeps :
      (hotel_id : ℕ) (target : PushTarget) (type : String) (ref_id : Option ℕ) (vars : Metadata)
      → Keeps OnStays Any (notify orm hotel_id target type ref_id vars)
  unfolding notify notify_once
  notify-Keeps hotel_id target type ref_id vars = Keeps-modify _ (λ w h. h)

  pub record_room_change-Keeps :
      (hotel_id id : ℕ) (from : Option ℕ) (to : ℕ)
      → Keeps OnStays Any (record_room_change orm hotel_id id from to)
  unfolding record_room_change
  record_room_change-Keeps hotel_id id from to = Keeps-modify _ (λ w h. h)

  pub emit_code-Keeps :
      (email : Option Text) (stay : Stay) (room : Room) (code : Text)
      → Keeps OnStays Any (emit_code orm email stay room code)
  unfolding emit_code
  emit_code-Keeps none stay room code = Keeps-pure tt tt
  emit_code-Keeps (some email) stay room code = Keeps-modify _ (λ w h. h)

  vacated-Keeps :
      (room : Room) (actor : Option ℕ) (t : HkTransitionResult)
      → Keeps OnStays Any (vacated orm room actor t)
  unfolding vacated Rooms.save_room Rooms.audit Rooms.record_event notify_staff_available
  vacated-Keeps room actor (refused _) = Keeps-pure tt tt
  vacated-Keeps room actor (moved s) = Keeps-then _ _ (Keeps-modify _ (λ w h. h)) (
      Keeps-then _ _ (log-Keeps _)
        (Keeps-then _ _ (Keeps-modify _ (λ w h. h)) (Keeps-when _ _ (notify-Keeps _ _ _ _ _))))

  pub on_room_vacated-Keeps :
      (room_id hotel_id : ℕ) (actor : Option ℕ)
      → Keeps OnStays Any (on_room_vacated orm room_id hotel_id actor)
  unfolding on_room_vacated
  on_room_vacated-Keeps room_id hotel_id actor =
      Keeps-bind {P = Any} _ _ (Keeps-gets _ (λ w h. tt)) λ o _. go o
    where
      go :
          (o : Option Room)
          → Keeps OnStays Any (elim o [
            | none ↦ pure tt
            | some room ↦ vacated orm room actor (transition (state_of room) vacate)
          ])
      go none = Keeps-pure tt tt
      go (some room) = vacated-Keeps room actor _
