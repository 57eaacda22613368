-- ===== src/Requests/Service.antt =====
-- src/modules/requests/tenant-requests.service.ts: the actions of the staff on a request, and `cancelOwn`
-- of src/modules/requests/guest-requests.service.ts. An action returns the saved request, of which the
-- source's view is a projection.
use hotello_backend.Common.{
  ℕ, String, Bool, true, false, not, ◌&&◌, Option, none, some, List, [], ◌∷◌, any, Text, ◌==◌,
  trim_or_null,
}
use hotello_backend.Store.{TypeOrm}
use hotello_backend.Model.People.{TenantUser}
use hotello_backend.Model.Stays.{Stay}
use hotello_backend.Model.Requests.{
  GuestRequest, RequestStatus, new, in_progress, done, cancelled, RequestCancelReason, guest,
  guest_request, not_available, duplicate, other,
}
use hotello_backend.Model.Effects.{Detail, number, word, flag, number_or_null, Metadata, spread}
use hotello_backend.Exec.{
  request_not_found, request_invalid_status, request_assignee_invalid, Exec, pure, gets, guard,
  from_option, when, modify, ◌>>=◌, ◌>>◌,
}
use hotello_backend.Shared.{is_id, grants, log, notify}

abbrev pub status_key : RequestStatus → String
status_key new = "new"
status_key in_progress = "in_progress"
status_key done = "done"
status_key cancelled = "cancelled"

abbrev pub same_status : RequestStatus → RequestStatus → Bool
same_status new new = true
same_status in_progress in_progress = true
same_status done done = true
same_status cancelled cancelled = true
same_status _ _ = false

-- `allowed.includes(status)`
unfoldable pub is_allowed : List RequestStatus → RequestStatus → Bool
unfolding any
is_allowed allowed status = any (λ s. same_status s status) allowed

-- OPEN_REQUEST_STATUSES
abbrev pub open_statuses : List RequestStatus
open_statuses = new ∷ in_progress ∷ []

abbrev pub reason_key : RequestCancelReason → String
reason_key guest = "guest"
reason_key guest_request = "guest_request"
reason_key not_available = "not_available"
reason_key duplicate = "duplicate"
reason_key other = "other"

-- the rows that the actions save
abbrev pub started_request : ℕ → ℕ → GuestRequest → GuestRequest
started_request now user_id r = record r {
  status = in_progress;
  started_at = some now;
  started_by_id = some user_id;
  assigned_to_id = elim r.assigned_to_id [ none ↦ some user_id | some id ↦ some id ];
}

abbrev pub completed_request : ℕ → ℕ → GuestRequest → GuestRequest
completed_request now user_id r = record r {
  status = done;
  completed_at = some now;
  completed_by_id = some user_id;
}

abbrev pub cancelled_request :
    ℕ → ℕ → RequestCancelReason → Option Text → GuestRequest → GuestRequest
cancelled_request now user_id reason memo r = record r {
  status = cancelled;
  cancelled_at = some now;
  cancelled_by_id = some user_id;
  cancelled_reason = some reason;
  cancel_note = memo;
}

abbrev pub withdrawn_request : ℕ → GuestRequest → GuestRequest
withdrawn_request now r = record r {
  status = cancelled;
  cancelled_at = some now;
  cancelled_by_id = none;
  cancelled_reason = some guest;
}

module _ (orm : TypeOrm) where
  unfoldable pub find_in_hotel : ℕ → ℕ → Exec orm GuestRequest
  find_in_hotel hotel_id id = do
    r ← gets (λ w. orm.find_one (λ r. r.id == id && r.hotel_id == hotel_id) w.requests)
    from_option request_not_found r

  unfoldable pub assert_status : GuestRequest → List RequestStatus → Exec orm (Unit {0})
  assert_status r allowed = guard (is_allowed allowed r.status) request_invalid_status

  unfoldable pub save_request : GuestRequest → Exec orm (Unit {0})
  save_request r = modify (λ w. record w { requests = orm.save r w.requests })

  unfoldable pub audit : String → GuestRequest → TenantUser → Metadata → Exec orm (Unit {0})
  unfolding spread
  audit action r actor extra = log orm (record {
    action = action;
    entity_type = "request";
    entity_id = r.id;
    actor_id = some actor.id;
    metadata =
        spread
          (("actorType", word "tenant_user")
            ∷ ("hotelId", number r.hotel_id)
            ∷ ("status", word (status_key r.status))
            ∷ [])
          extra;
  })

  unfoldable pub notify_request_push : GuestRequest → Exec orm (Unit {0})
  notify_request_push r =
      notify orm r.hotel_id
        (record {
          stay_ids = r.stay_id ∷ [];
          tenant_user_ids = [];
          tenant_permission = none;
          exclude_user_id = none;
          muted_hint_key = none;
        })
        "request_status" (some r.id)
        (("id", number r.id)
          ∷ ("names", Detail.names r.item_names)
          ∷ ("status", word (status_key r.status))
          ∷ [])

  unfoldable pub start : TenantUser → ℕ → Exec orm GuestRequest
  start user id = do
    r ← find_in_hotel user.hotel_id id
    assert_status r (new ∷ [])
    now ← gets (λ w. w.now)
    let saved = started_request now user.id r
    save_request saved
    audit "request.started" saved user
        (("autoAssigned", flag (is_id saved.assigned_to_id user.id)) ∷ [])
    notify_request_push saved
    pure saved

  unfoldable pub complete : TenantUser → ℕ → Exec orm GuestRequest
  complete user id = do
    r ← find_in_hotel user.hotel_id id
    assert_status r (in_progress ∷ [])
    now ← gets (λ w. w.now)
    let saved = completed_request now user.id r
    save_request saved
    audit "request.completed" saved user []
    notify_request_push saved
    pure saved

  unfoldable pub cancel : TenantUser → ℕ → RequestCancelReason → Option Text → Exec orm GuestRequest
  unfolding trim_or_null
  cancel user id reason memo = do
    r ← find_in_hotel user.hotel_id id
    assert_status r open_statuses
    now ← gets (λ w. w.now)
    let saved = cancelled_request now user.id reason (trim_or_null memo) r
    save_request saved
    audit "request.cancelled" saved user (("reason", word (reason_key reason)) ∷ [])
    notify_request_push saved
    pure saved

  unfoldable pub resolve_assignee : ℕ → Option ℕ → Exec orm (Option TenantUser)
  resolve_assignee hotel_id none = pure none
  resolve_assignee hotel_id (some assignee_id) = do
    assignee ← gets (λ w. orm.find_one (λ u. u.id == assignee_id && u.hotel_id == hotel_id) w.users)
    assignee ← from_option request_assignee_invalid assignee
    guard (grants "requests.update" assignee) request_assignee_invalid
    pure (some assignee)

  abbrev pub id_of : Option TenantUser → Option ℕ
  id_of none = none
  id_of (some u) = some u.id

  unfoldable pub notify_assignee :
      TenantUser → GuestRequest → Option TenantUser → Exec orm (Unit {0})
  notify_assignee user r none = pure tt
  notify_assignee user r (some assignee) = when (not (assignee.id == user.id)) (
      notify orm r.hotel_id
        (record {
          stay_ids = [];
          tenant_user_ids = assignee.id ∷ [];
          tenant_permission = none;
          exclude_user_id = none;
          muted_hint_key = none;
        })
        "staff_assigned" (some r.id)
        (("feed", word "requests")
          ∷ ("id", number r.id)
          ∷ ("roomNumber", Detail.text r.room_number)
          ∷ ("names", Detail.names r.item_names)
          ∷ []))

  unfoldable pub assign : TenantUser → ℕ → Option ℕ → Exec orm GuestRequest
  assign user id assignee_id = do
    r ← find_in_hotel user.hotel_id id
    assert_status r open_statuses
    assignee ← resolve_assignee user.hotel_id assignee_id
    let saved = record r { assigned_to_id = id_of assignee }
    save_request saved
    audit "request.assigned" saved user (("assigneeId", number_or_null (id_of assignee)) ∷ [])
    notify_assignee user saved assignee
    pure saved

  -- the guest cancels a request of the stay while it is new
  unfoldable pub cancel_own : Stay → ℕ → Exec orm GuestRequest
  cancel_own stay id = do
    r ← gets (λ w. orm.find_one (λ r. r.id == id && r.stay_id == stay.id) w.requests)
    r ← from_option request_not_found r
    guard (same_status r.status new) request_invalid_status
    now ← gets (λ w. w.now)
    let saved = withdrawn_request now r
    save_request saved
    log orm (record {
      action = "request.cancelled";
      entity_type = "request";
      entity_id = saved.id;
      actor_id = none;
      metadata =
          ("actorType", word "guest")
          ∷ ("hotelId", number stay.hotel_id)
          ∷ ("stayId", number stay.id)
          ∷ ("reason", word "guest")
          ∷ [];
    })
    pure saved
