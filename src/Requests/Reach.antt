-- ===== src/Requests/Reach.antt =====
-- The requests as a transition system: every call of src/modules/requests on a stored request, in any
-- order. The time stamps follow the status, and a final request is never written again.
use mathlib.Core.Path.{subst}
use native.Mathlib.Decide.{ℕ_discrete}
use hotello_backend.Common.{
  ℕ, ◌≡◌, ◌≢◌, ◌⊎◌, ◌↔◌, none, refl, sym, ◌∙◌, ap, Option, some, Text, arith,
}
use hotello_backend.Store.{TypeOrm, AllRows, AllRows-save, get-save_ne}
use hotello_backend.Model.People.{TenantUser}
use hotello_backend.Model.Stays.{Stay}
use hotello_backend.Model.Requests.{
  GuestRequest, new, in_progress, done, cancelled, RequestCancelReason,
}
use hotello_backend.Exec.{World, final}
use hotello_backend.Exec.Keeps.{Keeps-final}
use hotello_backend.Requests.Service
use hotello_backend.Requests.Service.{is_allowed}
use hotello_backend.Requests.Changes.{
  RequestTable, IsKept, Change, started, completed, cancelled_by, withdrawn, assigned,
}
use hotello_backend.Requests.Handlers.{
  start-Keeps, complete-Keeps, cancel-Keeps, assign-Keeps, cancel_own-Keeps,
}

-- The stamps that a status asks for, and no others.
pub record IsStamped (r : GuestRequest) : Type 0 where
  pub fresh : r.status ≡ new → r.started_at ≡ none
  pub begun : (r.status ≡ in_progress) ⊎ (r.status ≡ done) → r.started_at ≢ none
  pub finished : (r.status ≡ done) ↔ (r.completed_at ≢ none)
  pub ended : (r.status ≡ cancelled) ↔ (r.cancelled_at ≢ none)
  pub explained : r.status ≡ cancelled → r.cancelled_reason ≢ none

Change-IsStamped : (old next : GuestRequest) → Change old next → IsStamped old → IsStamped next
unfolding is_allowed
Change-IsStamped old _ (started now user_id ok) h = ground arith
Change-IsStamped old _ (completed now user_id ok) h = ground arith
Change-IsStamped old _ (cancelled_by now user_id reason memo ok) h = ground arith
Change-IsStamped old _ (withdrawn now ok) h = ground arith
Change-IsStamped old _ (assigned id ok) h = record {
  fresh = h.fresh;
  begun = h.begun;
  finished = h.finished;
  ended = h.ended;
  explained = h.explained;
}

-- a change keeps the id, and is made to an open request
Change-id : (old next : GuestRequest) → Change old next → next.id ≡ old.id
Change-id old _ (started now user_id ok) = refl
Change-id old _ (completed now user_id ok) = refl
Change-id old _ (cancelled_by now user_id reason memo ok) = refl
Change-id old _ (withdrawn now ok) = refl
Change-id old _ (assigned id ok) = refl

Change-open :
    (old next : GuestRequest) → Change old next → (old.status ≢ done) × (old.status ≢ cancelled)
unfolding is_allowed
Change-open old _ (started now user_id ok) = ground arith
Change-open old _ (completed now user_id ok) = ground arith
Change-open old _ (cancelled_by now user_id reason memo ok) = ground arith
Change-open old _ (withdrawn now ok) = ground arith
Change-open old _ (assigned id ok) = ground arith

-- a call on the requests, with its body
pub data RequestCall : Type 0 where
  start_call complete_call : TenantUser → ℕ → RequestCall
  cancel_call : TenantUser → ℕ → RequestCancelReason → Option Text → RequestCall
  assign_call : TenantUser → ℕ → Option ℕ → RequestCall
  own_cancel_call : Stay → ℕ → RequestCall

module _ (orm : TypeOrm) where
  -- the state that a call leaves
  unfoldable pub perform : RequestCall → World orm → World orm
  perform (start_call user id) w = final (Service.start orm user id w)
  perform (complete_call user id) w = final (Service.complete orm user id w)
  perform (cancel_call user id reason memo) w = final (Service.cancel orm user id reason memo w)
  perform (assign_call user id to) w = final (Service.assign orm user id to w)
  perform (own_cancel_call stay id) w = final (Service.cancel_own orm stay id w)

  perform_keeps :
      (J : RequestTable orm → Type 0) (c : RequestCall) (w : World orm)
      → IsKept orm J
      → J w.requests
      → J (perform c w).requests
  unfolding perform
  perform_keeps J (start_call user id) w kept h = Keeps-final (start-Keeps orm J kept user id) w h
  perform_keeps J (complete_call user id) w kept h =
      Keeps-final (complete-Keeps orm J kept user id) w h
  perform_keeps J (cancel_call user id reason memo) w kept h =
      Keeps-final (cancel-Keeps orm J kept user id reason memo) w h
  perform_keeps J (assign_call user id to) w kept h =
      Keeps-final (assign-Keeps orm J kept user id to) w h
  perform_keeps J (own_cancel_call stay id) w kept h =
      Keeps-final (cancel_own-Keeps orm J kept stay id) w h

  -- the states after some calls, with changes to the other tables in between
  pub data Reach : World orm → World orm → Type 0 where
    here : {w : World orm} → Reach w w
    after : {w v : World orm} (c : RequestCall) → Reach w v → Reach w (perform c v)
    elsewhere : {w v u : World orm} → Reach w v → u.requests ≡ v.requests → Reach w u

  reach_keeps :
      (J : RequestTable orm → Type 0)
      → IsKept orm J
      → {w v : World orm} → Reach w v
      → J w.requests
      → J v.requests
  reach_keeps J kept here h = h
  reach_keeps J kept (after {v} c r) h = perform_keeps J c v kept (reach_keeps J kept r h)
  reach_keeps J kept (elsewhere r e) h = subst J (sym e) (reach_keeps J kept r h)

  -- From stamped requests no order of these calls, refused or not, reaches a request whose time stamps
  -- disagree with its status: work is stamped from `in_progress` on, completion and cancellation
  -- exactly in their own status, and a cancelled request has a reason.
  pub Reach-IsStamped :
      (w v : World orm)
      → Reach w v
      → AllRows orm {key = λ r. r.id} IsStamped w.requests
      → AllRows orm {key = λ r. r.id} IsStamped v.requests
  Reach-IsStamped w v r h =
      reach_keeps (AllRows orm {key = λ r. r.id} IsStamped)
        (λ t old next stored c all.
          AllRows-save orm IsStamped next t (Change-IsStamped old next c (all old.id old stored))
            all)
        r h

  abbrev pub Stores : ℕ → GuestRequest → RequestTable orm → Type 0
  Stores k s t = orm.get t k ≡ some s

  Stores-IsKept :
      (k : ℕ) (s : GuestRequest)
      → (s.status ≡ done) ⊎ (s.status ≡ cancelled)
      → IsKept orm (Stores k s)
  Stores-IsKept k s ended t old next stored c row = elim (ℕ_discrete old.id k) [
    | no other ↦ get-save_ne orm next t k (λ e. other (sym (Change-id old next c) ∙ e)) ∙ row
    | yes e ↦
        let hit : some old ≡ some s = sym stored ∙ ap (orm.get t) e ∙ row in
        let p : old ≡ s = cc in
        let live =
          subst (λ x. (x.status ≢ done) × (x.status ≢ cancelled)) p (Change-open old next c) in
        absurd (ground arith)
  ]

  -- A request that is done or cancelled is never written again: whatever of these calls follows, its
  -- row is exactly what it was.
  pub Reach-Stores :
      (w v : World orm) (k : ℕ) (s : GuestRequest)
      → Reach w v
      → orm.get w.requests k ≡ some s
      → (s.status ≡ done) ⊎ (s.status ≡ cancelled)
      → orm.get v.requests k ≡ some s
  Reach-Stores w v k s r stored ended = reach_keeps (Stores k s) (Stores-IsKept k s ended) r stored
