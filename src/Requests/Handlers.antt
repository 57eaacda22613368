-- ===== src/Requests/Handlers.antt =====
-- Every action on a request keeps what the changes of `Requests.Changes` keep.
use mathlib.Core.Path.{subst}
use hotello_backend.Common.{ℕ, String, ◌≡◌, refl, sym, true, Option, none, some, List, Text, arith}
use hotello_backend.Store.{TypeOrm}
use hotello_backend.Model.People.{TenantUser}
use hotello_backend.Model.Stays.{Stay}
use hotello_backend.Model.Requests.{GuestRequest, RequestStatus, new, RequestCancelReason}
use hotello_backend.Model.Effects.{AuditEntry, Metadata}
use hotello_backend.Exec.{World, Outcome, pure, gets, ◌>>=◌, ◌>>◌}
use hotello_backend.Exec.Keeps.{
  Keeps, Any, Keeps-pure, Keeps-gets, Keeps-bind, Keeps-then, Keeps-when, Keeps-from_option,
  Keeps-modify, Keeps-guard, guard-Keeps,
}
use hotello_backend.Exec.Safe.{Safe, Safe-then, Safe-modify, Safe-Holds, Keeps-before, Keeps-Safe}
use hotello_backend.Shared.{log, notify, notify_once}
use hotello_backend.Requests.Service
use hotello_backend.Requests.Service.{
  is_allowed, open_statuses, same_status, find_in_hotel, assert_status, save_request,
  notify_request_push, audit, resolve_assignee, notify_assignee,
}
use hotello_backend.Requests.Changes.{
  RequestTable, IsKept, Change, started, completed, cancelled_by, withdrawn, assigned,
}

module _ (orm : TypeOrm) (J : RequestTable orm → Type 0) where
  abbrev pub OnRequests : World orm → Type 0
  OnRequests w = J w.requests

  pub log-Keeps : (e : AuditEntry) → Keeps OnRequests Any (log orm e)
  unfolding log
  log-Keeps e = Keeps-modify _ (λ w h. h)

  audit-Keeps :
      (action : String) (o : GuestRequest) (actor : TenantUser) (m : Metadata)
      → Keeps OnRequests Any (audit orm action o actor m)
  unfolding audit
  audit-Keeps action o actor m = log-Keeps _

  notify_request_push-Keeps : (r : GuestRequest) → Keeps OnRequests Any (notify_request_push orm r)
  unfolding notify_request_push notify notify_once
  notify_request_push-Keeps r = Keeps-modify _ (λ w h. h)

  notify_assignee-Keeps :
      (user : TenantUser) (o : GuestRequest) (a : Option TenantUser)
      → Keeps OnRequests Any (notify_assignee orm user o a)
  unfolding notify_assignee notify notify_once
  notify_assignee-Keeps user o none = Keeps-pure tt tt
  notify_assignee-Keeps user o (some a) = Keeps-when _ _ (Keeps-modify _ (λ w h. h))

  resolve_assignee-Keeps :
      (hotel_id : ℕ) (id : Option ℕ) → Keeps OnRequests Any (resolve_assignee orm hotel_id id)
  unfolding resolve_assignee
  resolve_assignee-Keeps hotel_id none = Keeps-pure none tt
  resolve_assignee-Keeps hotel_id (some id) =
      Keeps-bind {P = Any} _ _ (Keeps-gets _ (λ w h. tt)) λ o _.
        Keeps-bind {P = Any} _ _ (Keeps-from_option _ o (λ a e. tt))
          λ u _. Keeps-then _ _ (guard-Keeps _ _) (Keeps-pure _ tt)

  -- what follows a save
  pub told :
      (action : String) (o : GuestRequest) (actor : TenantUser) (m : Metadata)
      → Keeps OnRequests Any (audit orm action o actor m >> (notify_request_push orm o >> pure o))
  told action o actor m =
      Keeps-then _ _ (audit-Keeps action o actor m)
        (Keeps-then _ _ (notify_request_push-Keeps o) (Keeps-pure o tt))

module _ (orm : TypeOrm) (J : RequestTable orm → Type 0) (kept : IsKept orm J) where
  abbrev Before : RequestTable orm → RequestTable orm → Type 0
  Before t x = (x ≡ t) × J t

  abbrev Handles : {A : Type 0} → (World orm → Outcome (World orm) A) → RequestTable orm → Type 0
  Handles m t = Safe (OnRequests orm (Before t)) (OnRequests orm J) (λ _. OnRequests orm J) m

  Before-holds :
      (t : RequestTable orm) (w : World orm) → OnRequests orm (Before t) w → OnRequests orm J w
  Before-holds t w h = subst J (sym h.0) h.1

  find_in_hotel-Keeps :
      (t : RequestTable orm) (hotel_id id : ℕ)
      → Keeps
          (OnRequests orm (Before t))
          (λ o. orm.get t o.id ≡ some o)
          (find_in_hotel orm hotel_id id)
  unfolding find_in_hotel
  find_in_hotel-Keeps t hotel_id id =
      Keeps-bind {P = λ o. (s : GuestRequest) → o ≡ some s → orm.get t s.id ≡ some s} _ _
        (Keeps-gets _ (λ w h s e. (orm.find_one-some _ t s (rw h.0 at e)).0))
        λ o p. Keeps-from_option _ o p

  save_request-Safe :
      (t : RequestTable orm) (old next : GuestRequest)
      → orm.get t old.id ≡ some old
      → Change old next
      → Handles (save_request orm next) t
  unfolding save_request
  save_request-Safe t old next stored c =
      Safe-modify _
        (λ w h. subst (λ x. J (orm.save next x)) (sym h.0) (kept t old next stored c h.1))

  -- an action that moves the request on and tells the guest
  transition-Safe :
      (t : RequestTable orm) (old : GuestRequest) (target : List RequestStatus)
      (row : ℕ → GuestRequest) (action : String) (user : TenantUser) (m : ℕ → Metadata)
      → orm.get t old.id ≡ some old
      → ((now : ℕ) → is_allowed target old.status ≡ true → Change old (row now))
      → Handles
          (assert_status orm old target
            >> (gets (λ (w : World orm). w.now) >>= λ now.
                save_request orm (row now)
                >> (audit orm action (row now) user (m now)
                    >> (notify_request_push orm (row now) >> pure (row now)))))
          t
  unfolding assert_status
  transition-Safe t old target row action user m stored change =
      Keeps-before _ _ (Before-holds t) (Keeps-guard (is_allowed target old.status) _) λ _ ok.
        Keeps-before {P = Any} _ _ (Before-holds t) (Keeps-gets _ (λ w h. tt)) λ now _.
          Safe-then _ _ (save_request-Safe t old (row now) stored (change now ok))
            (Keeps-Safe _ (told orm J action (row now) user _))

  from_each :
      {A : Type 0} (m : World orm → Outcome (World orm) A)
      → ((t : RequestTable orm) → Handles m t)
      → Keeps (OnRequests orm J) Any m
  from_each m k = record { at = λ w h. Safe-Holds m (k w.requests) w (refl, h) }

  pub start-Keeps :
      (user : TenantUser) (id : ℕ) → Keeps (OnRequests orm J) Any (Service.start orm user id)
  unfolding Service.start
  start-Keeps user id = from_each _ λ t.
      Keeps-before _ _ (Before-holds t) (find_in_hotel-Keeps t _ _) λ r stored.
        transition-Safe t r _ (λ now. Service.started_request now user.id r) _ user _ stored
          (λ now ok. started now user.id ok)

  pub complete-Keeps :
      (user : TenantUser) (id : ℕ) → Keeps (OnRequests orm J) Any (Service.complete orm user id)
  unfolding Service.complete
  complete-Keeps user id = from_each _ λ t.
      Keeps-before _ _ (Before-holds t) (find_in_hotel-Keeps t _ _) λ r stored.
        transition-Safe t r _ (λ now. Service.completed_request now user.id r) _ user _ stored
          (λ now ok. completed now user.id ok)

  pub cancel-Keeps :
      (user : TenantUser) (id : ℕ) (reason : RequestCancelReason) (memo : Option Text)
      → Keeps (OnRequests orm J) Any (Service.cancel orm user id reason memo)
  unfolding Service.cancel
  cancel-Keeps user id reason memo = from_each _ λ t.
      Keeps-before _ _ (Before-holds t) (find_in_hotel-Keeps t _ _) λ r stored.
        transition-Safe t r _ (λ now. Service.cancelled_request now user.id reason _ r) _ user _
          stored (λ now ok. cancelled_by now user.id reason _ ok)

  pub assign-Keeps :
      (user : TenantUser) (id : ℕ) (assignee_id : Option ℕ)
      → Keeps (OnRequests orm J) Any (Service.assign orm user id assignee_id)
  unfolding Service.assign assert_status
  assign-Keeps user id assignee_id = from_each _ λ t.
      Keeps-before _ _ (Before-holds t) (find_in_hotel-Keeps t _ _) λ r stored.
        Keeps-before _ _ (Before-holds t) (Keeps-guard (is_allowed open_statuses r.status) _)
          λ _ ok.
            Keeps-before _ _ (Before-holds t) (resolve_assignee-Keeps orm (Before t) _ _) λ a _.
              Safe-then _ _ (save_request-Safe t r _ stored (assigned _ ok)) (
                Keeps-Safe _ (
                  Keeps-then _ _ (audit-Keeps orm J _ _ _ _)
                    (Keeps-then _ _ (notify_assignee-Keeps orm J _ _ _) (Keeps-pure _ tt))))

  pub cancel_own-Keeps :
      (stay : Stay) (id : ℕ) → Keeps (OnRequests orm J) Any (Service.cancel_own orm stay id)
  unfolding Service.cancel_own
  cancel_own-Keeps stay id = from_each _ λ t.
      Keeps-before {P = λ o. (s : GuestRequest) → o ≡ some s → orm.get t s.id ≡ some s} _ _
        (Before-holds t) (Keeps-gets _ (λ w h s e. (orm.find_one-some _ t s (rw h.0 at e)).0))
        λ o p. Keeps-before _ _ (Before-holds t) (Keeps-from_option _ o p) λ r stored.
          Keeps-before _ _ (Before-holds t) (Keeps-guard (same_status r.status new) _) λ _ ok.
            Keeps-before {P = Any} _ _ (Before-holds t) (Keeps-gets _ (λ w h. tt)) λ now _.
              Safe-then _ _ (save_request-Safe t r _ stored (withdrawn now (ground arith)))
                (Keeps-Safe _ (Keeps-then _ _ (log-Keeps orm J _) (Keeps-pure _ tt)))
