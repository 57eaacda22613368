-- ===== src/Model/Effects.antt =====
-- What a handler leaves behind besides its rows: audit entries
-- (src/modules/audit-logs/audit-logs.service.ts) and calls of `PushService.notify`.
use package.text.Mathlib.Text.{◌==◌ as str_eq}
use hotello_backend.Common.{ℕ, String, Bool, Option, none, some, List, [], ◌∷◌, Text, if◌then◌else◌}

-- a value of a metadata object
pub data Detail : Type 0 where
  null : Detail
  number : ℕ → Detail
  word : String → Detail
  text : Text → Detail
  flag : Bool → Detail
  numbers : List ℕ → Detail
  words : List String → Detail
  change : Detail → Detail → Detail
  -- a count and a total by key
  totals : List (String × ℕ × ℕ) → Detail
  -- a translation by language key
  names : List (String × Text) → Detail

abbrev pub Metadata : Type 0
Metadata = List (String × Detail)

pub record AuditEntry : Type 0 where
  pub action : String
  pub entity_type : String
  pub entity_id : ℕ
  pub actor_id : Option ℕ
  pub metadata : Metadata

pub record PushTarget : Type 0 where
  pub stay_ids : List ℕ
  pub tenant_user_ids : List ℕ
  pub tenant_permission : Option String
  pub exclude_user_id : Option ℕ
  pub muted_hint_key : Option String

pub record PushCall : Type 0 where
  pub hotel_id : ℕ
  pub target : PushTarget
  pub type : String
  pub ref_id : Option ℕ
  pub vars : Metadata
  -- the parts of the dedupe key, none if the call gives none
  pub dedupe_prefix : List Detail

-- A call of `TenantAnnouncementsService.create` for an event: the event's own text is composed from it.
pub record EventNotice : Type 0 where
  pub hotel_id : ℕ
  pub author_id : ℕ
  pub event_id : ℕ
  pub source : String
  -- the targeted stays, none for all current guests
  pub stay_ids : List ℕ
  pub priority : Bool

-- `a ?? null` as a metadata value
abbrev pub number_or_null : Option ℕ → Detail
number_or_null none = null
number_or_null (some n) = number n

abbrev pub text_or_null : Option Text → Detail
text_or_null none = null
text_or_null (some t) = text t

-- `object[key] = value`
put : String → Detail → Metadata → Metadata
put k v [] = (k, v) ∷ []
put k v ((j, w) ∷ m) = if str_eq j k then (k, v) ∷ m else (j, w) ∷ put k v m

-- `{ ...base, ...extra }`
unfoldable pub spread : Metadata → Metadata → Metadata
unfolding put
spread base [] = base
spread base ((k, v) ∷ extra) = spread (put k v base) extra
