-- ===== src/Shared.antt =====
-- What every service shares: `AuditLogsService.log` (src/modules/audit-logs/audit-logs.service.ts), the
-- call of `PushService.notify`, and the tests on users, stays and null values.
use text.Mathlib.Text.{◌==◌ as str_eq}
use hotello_backend.Common.{
  ℕ, String, Bool, true, false, ◌&&◌, ◌||◌, Option, none, some, List, [], ◌∷◌, ◌++◌, any, ◌==◌,
}
use hotello_backend.Store.{TypeOrm}
use hotello_backend.Model.People.{TenantUser, UserStatus}
use hotello_backend.Model.Stays.{Stay, StayStatus}
use hotello_backend.Model.Effects.{Detail, Metadata, AuditEntry, PushTarget}
use hotello_backend.Exec.{Exec, modify}

abbrev pub is_null {ℓ} : {A : Type ℓ} → Option A → Bool
is_null none = true
is_null (some _) = false

abbrev pub is_active_stay : Stay → Bool
is_active_stay s = elim s.status [ StayStatus.active ↦ true | StayStatus.checked_out ↦ false ]

abbrev pub is_active_user : TenantUser → Bool
is_active_user u = elim u.status [ UserStatus.active ↦ true | _ ↦ false ]

-- `permissions.includes(WILDCARD) || permissions.includes(key)`
unfoldable pub grants : String → TenantUser → Bool
unfolding any
grants key u =
    is_active_user u
    && (any (λ p. str_eq p "*") u.role.permissions || any (λ p. str_eq p key) u.role.permissions)

-- `ids.includes(id)` for an id that may be null
abbrev pub is_id : Option ℕ → ℕ → Bool
is_id none id = false
is_id (some a) id = a == id

module _ (orm : TypeOrm) where
  -- `auditLogs.log`
  unfoldable pub log : AuditEntry → Exec orm (Unit {0})
  log entry = modify (λ w. record w { audit_logs = w.audit_logs ++ entry ∷ [] })

  -- `push.notify`, which never throws
  unfoldable pub notify_once :
      List Detail → ℕ → PushTarget → String → Option ℕ → Metadata → Exec orm (Unit {0})
  notify_once dedupe_prefix hotel_id target type ref_id vars = modify (λ w. record w {
    pushes =
        w.pushes
        ++ record {
          hotel_id = hotel_id;
          target = target;
          type = type;
          ref_id = ref_id;
          vars = vars;
          dedupe_prefix = dedupe_prefix;
        }
          ∷ [];
  })

  unfoldable pub notify : ℕ → PushTarget → String → Option ℕ → Metadata → Exec orm (Unit {0})
  unfolding notify_once
  notify hotel_id target type ref_id vars = notify_once [] hotel_id target type ref_id vars
