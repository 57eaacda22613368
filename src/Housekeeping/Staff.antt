-- ===== src/Housekeeping/Staff.antt =====
-- The staff actions, read as one family: what an invariant of the rooms table has to satisfy for
-- every action to keep it.
pub mod Handlers
use hotello_backend.Common.{List, ℕ, String, ◌≡◌, refl, true, ◌&&◌, Option, none, some, ◌==◌}
use hotello_backend.Store.{TypeOrm}
use hotello_backend.Model.People.{TenantUser}
use hotello_backend.Model.Rooms.{Room, CleaningType, HousekeepingEventType}
use hotello_backend.Model.Effects.{Detail, Metadata, PushTarget, AuditEntry}
use hotello_backend.Exec.{World, pure, throw, gets}
use hotello_backend.Exec.Keeps.{
  Keeps, Any, Keeps-pure, Keeps-throw, Keeps-from_option, Keeps-gets, Keeps-modify, Keeps-guard,
  Keeps-when, Keeps-bind,
}
use hotello_backend.Shared.{log, notify, notify_once}
use hotello_backend.Housekeeping.Transitions.{
  HkState, HkAction, HkTransitionResult, moved, refused, transition, flag, clear, start, complete,
  interrupt,
}
use hotello_backend.Housekeeping.Rooms.{
  state_of, code_of, find_room_in_hotel, apply, resolve_assignee, save_room, audit, record_event,
  to_view,
}
use hotello_backend.Housekeeping.Actions.{notify_staff_assigned, notify_staff_available}

abbrev pub RoomTable : TypeOrm → Type 0
RoomTable orm = orm.Table Room (λ r. r.id)

-- the actions that staff take; the others come from guests and from the system
pub data IsStaff : HkAction → Type 0 where
  flags : (kind : CleaningType) → IsStaff (flag kind)
  clears : IsStaff clear
  starts : IsStaff start
  completes : IsStaff complete
  interrupts : IsStaff interrupt

abbrev pub moved_to : Room → HkState → Room
moved_to room s = record room { housekeeping_status = s.status; cleaning_type = s.cleaning_type }

-- `J` is kept where the rows that are found satisfy `P`, the row changes keep `P`, and a row
-- that satisfies `P` may be saved.
pub record StaffRules (orm : TypeOrm) (hotel_id id : ℕ) (J : RoomTable orm → Type 0)
    (P : Room → Type 0) : Type 0 where
  pub found :
      (t : RoomTable orm) (r : Room)
      → J t
      → orm.get t r.id ≡ some r
      → (r.id == id && r.hotel_id == hotel_id) ≡ true
      → P r
  pub moves :
      (r : Room) (a : HkAction) (s : HkState)
      → IsStaff a
      → transition (state_of r) a ≡ moved s
      → P r
      → P (moved_to r s)
  pub assigns : (r : Room) (o : Option ℕ) → P r → P (record r { housekeeping_assigned_to_id = o })
  pub cleans :
      (r : Room) (at by : Option ℕ)
      → P r
      → P (record r {
        last_cleaned_at = at;
        last_cleaned_by_id = by;
        housekeeping_assigned_to_id = none;
      })
  pub saves : (r : Room) (t : RoomTable orm) → P r → J t → J (orm.save r t)

module _ (orm : TypeOrm) (J : RoomTable orm → Type 0) where
  abbrev OnRooms : World orm → Type 0
  OnRooms w = J w.rooms

  pub log-Keeps : (entry : AuditEntry) → Keeps OnRooms Any (log orm entry)
  unfolding log
  log-Keeps entry = Keeps-modify _ (λ w h. h)

  pub audit-Keeps :
      (action : String) (room : Room) (actor : Option ℕ) (extra : Metadata)
      → Keeps OnRooms Any (audit orm action room actor extra)
  unfolding audit log
  audit-Keeps action room actor extra = Keeps-modify _ (λ w h. h)

  pub record_event-Keeps :
      (room : Room) (e : HousekeepingEventType) (kind : Option CleaningType) (a b : Option ℕ)
      → Keeps OnRooms Any (record_event orm room e kind a b)
  unfolding record_event
  record_event-Keeps room e kind a b = Keeps-modify _ (λ w h. h)

  pub notify_once-Keeps :
      (prefix : List Detail) (hotel_id : ℕ) (target : PushTarget) (type : String) (ref : Option ℕ)
      (vars : Metadata)
      → Keeps OnRooms Any (notify_once orm prefix hotel_id target type ref vars)
  unfolding notify_once
  notify_once-Keeps prefix hotel_id target type ref vars = Keeps-modify _ (λ w h. h)

  pub notify-Keeps :
      (hotel_id : ℕ) (target : PushTarget) (type : String) (ref : Option ℕ) (vars : Metadata)
      → Keeps OnRooms Any (notify orm hotel_id target type ref vars)
  unfolding notify
  notify-Keeps hotel_id target type ref vars = Keeps-modify _ (λ w h. h)

  pub notify_staff_available-Keeps :
      (room : Room) (who : Option ℕ) → Keeps OnRooms Any (notify_staff_available orm room who)
  unfolding notify_staff_available
  notify_staff_available-Keeps room who = Keeps-when _ _ (notify-Keeps _ _ _ _ _)

  pub notify_staff_assigned-Keeps :
      (hotel_id user_id : ℕ) (o : Option TenantUser) (vars : Metadata) (ref : Option ℕ)
      → Keeps OnRooms Any (notify_staff_assigned orm hotel_id user_id o vars ref)
  unfolding notify_staff_assigned
  notify_staff_assigned-Keeps hotel_id user_id none vars ref = Keeps-pure tt tt
  notify_staff_assigned-Keeps hotel_id user_id (some u) vars ref =
      Keeps-when _ _ (notify-Keeps _ _ _ _ _)

  pub to_view-Keeps : (room : Room) → Keeps OnRooms Any (gets (to_view orm room))
  to_view-Keeps room = Keeps-gets _ (λ w h. tt)

  pub resolve_assignee-Keeps :
      (hotel_id : ℕ) (o : Option ℕ) → Keeps OnRooms Any (resolve_assignee orm hotel_id o)
  unfolding resolve_assignee
  resolve_assignee-Keeps hotel_id none = Keeps-pure none tt
  resolve_assignee-Keeps hotel_id (some a) =
      Keeps-bind {P = Any} _ _ (Keeps-gets _ (λ w h. tt)) λ o _.
        Keeps-bind {P = Any} _ _ (Keeps-from_option _ o (λ u e. tt))
          λ u _. Keeps-bind _ _ (Keeps-guard _ _) λ _ _. Keeps-pure (some u) tt

  pub ruleset effect_rules = (
    audit-Keeps, record_event-Keeps, notify_staff_available-Keeps, notify_staff_assigned-Keeps,
    to_view-Keeps,
  )

  -- a room that `apply` returns has the state that the matrix gives
  abbrev pub IsMoved : Room → HkAction → Room → Type 0
  IsMoved r a r' = (s : HkState) × (transition (state_of r) a ≡ moved s) × (r' ≡ moved_to r s)

  pub apply-IsMoved : (r : Room) (a : HkAction) → Keeps OnRooms (IsMoved r a) (apply orm r a)
  unfolding apply
  apply-IsMoved r a = go (transition (state_of r) a) refl
    where
      go :
          (t : HkTransitionResult)
          → transition (state_of r) a ≡ t
          → Keeps OnRooms
              (IsMoved r a)
              (elim t [ moved s ↦ pure (moved_to r s) | refused code ↦ throw (code_of code) ])
      go (moved s) e = Keeps-pure _ (s, e, refl)
      go (refused code) e = Keeps-throw _

  module _ {hotel_id id : ℕ} {P : Room → Type 0} (rules : StaffRules orm hotel_id id J P) where
    pub find_room-Keeps : Keeps OnRooms P (find_room_in_hotel orm hotel_id id)
    unfolding find_room_in_hotel
    find_room-Keeps =
        Keeps-bind {P = λ o. (r : Room) → o ≡ some r → P r} _ _
          (Keeps-gets _ λ w h r e.
            let (stored, passed) = orm.find_one-some _ w.rooms r e in
            rules.found w.rooms r h stored passed)
          λ o p.
            Keeps-bind {P = P} _ _ (Keeps-from_option _ o p)
              λ r q. Keeps-bind _ _ (Keeps-guard _ _) λ _ _. Keeps-pure r q

    pub apply-Keeps : (r : Room) (a : HkAction) → IsStaff a → P r → Keeps OnRooms P (apply orm r a)
    unfolding apply
    apply-Keeps r a staff p = go (transition (state_of r) a) refl
      where
        go :
            (t : HkTransitionResult)
            → transition (state_of r) a ≡ t
            → Keeps OnRooms P
                (elim t [ moved s ↦ pure (moved_to r s) | refused code ↦ throw (code_of code) ])
        go (moved s) e = Keeps-pure _ (rules.moves r a s staff e p)
        go (refused code) e = Keeps-throw _

    pub save-Keeps : (r : Room) → P r → Keeps OnRooms Any (save_room orm r)
    unfolding save_room
    save-Keeps r p = Keeps-modify _ (λ w h. rules.saves r w.rooms p h)
