-- ===== src/Requests/Changes.antt =====
-- The changes that the services make to a stored request: src/modules/requests. Every action keeps what
-- these changes keep.
use hotello_backend.Common.{ℕ, ◌≡◌, true, [], ◌∷◌, Option, some, Text}
use hotello_backend.Store.{TypeOrm}
use hotello_backend.Model.Requests.{GuestRequest, new, in_progress, RequestCancelReason}
use hotello_backend.Requests.Service.{
  is_allowed, open_statuses, started_request, completed_request, cancelled_request,
  withdrawn_request,
}

-- the row that replaces `old`
pub data Change (old : GuestRequest) : GuestRequest → Type 0 where
  started :
      (now user_id : ℕ)
      → is_allowed (new ∷ []) old.status ≡ true
      → Change old (started_request now user_id old)
  completed :
      (now user_id : ℕ)
      → is_allowed (in_progress ∷ []) old.status ≡ true
      → Change old (completed_request now user_id old)
  cancelled_by :
      (now user_id : ℕ) (reason : RequestCancelReason) (memo : Option Text)
      → is_allowed open_statuses old.status ≡ true
      → Change old (cancelled_request now user_id reason memo old)
  withdrawn : (now : ℕ) → old.status ≡ new → Change old (withdrawn_request now old)
  assigned :
      (id : Option ℕ)
      → is_allowed open_statuses old.status ≡ true
      → Change old (record old { assigned_to_id = id })

module _ (orm : TypeOrm) where
  abbrev pub RequestTable : Type 0
  RequestTable = orm.Table GuestRequest (λ r. r.id)

  -- `J` survives every change of a stored request
  abbrev pub IsKept : (RequestTable → Type 0) → Type 0
  IsKept J =
      (t : RequestTable) (old next : GuestRequest)
      → orm.get t old.id ≡ some old
      → Change old next
      → J t
      → J (orm.save next t)
