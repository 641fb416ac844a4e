-- ===== src/Access/Audit.antt =====
-- services/audit.py: the trail in memory and the best-effort write. The clock and the uuid are
-- arguments; a store that raises is a write that gives `none`.
pub mod Trail
use onegov2_spatial_assistan.Prelude.{
  ℕ, String, Bool, true, false, ◌&&◌, Option, none, some, List, [], ◌∷◌, ◌++◌, ◌==◌, keep, take,
  if◌then◌else◌,
}
use onegov2_spatial_assistan.Access.Auth.{CurrentUser, AuthMode}

pub record AuditEntry : Type 0 where
  pub id : String
  pub ts : String
  pub user_oid : String
  pub user_name : String
  pub auth_mode : AuthMode
  pub action : String
  pub target : String
  pub detail : String
  pub params_hash : String

abbrev pub Store : Type 0
Store = List AuditEntry

unfoldable pub record_entry : AuditEntry → Store → Store
record_entry e entries = entries ++ e ∷ []

unfoldable pub newest_first : Store → Store
newest_first [] = []
newest_first (e ∷ entries) = newest_first entries ++ e ∷ []

-- `if wanted: items = [e for e in items if field(e) == wanted]`
abbrev pub matches : Option String → String → Bool
matches none value = true
matches (some wanted) value = if wanted == "" then true else value == wanted

unfoldable pub list_recent : ℕ → Option String → Option String → Store → List AuditEntry
unfolding newest_first
list_recent limit action user_oid entries = take limit (
    keep (λ e. matches user_oid e.user_oid)
      (keep (λ e. matches action e.action) (newest_first entries)))

abbrev oid_of : Option CurrentUser → String
oid_of none = "unknown"
oid_of (some u) = u.oid

abbrev name_of : Option CurrentUser → String
name_of none = "unknown"
name_of (some u) = u.name

abbrev mode_of : Option CurrentUser → AuthMode
mode_of none = AuthMode.dev
mode_of (some u) = u.auth_mode

abbrev pub entry_of :
    String → String → Option CurrentUser → String → String → String → String → AuditEntry
entry_of new_id now user action target detail params_hash = record {
  id = new_id;
  ts = now;
  user_oid = oid_of user;
  user_name = name_of user;
  auth_mode = mode_of user;
  action = action;
  target = target;
  detail = detail;
  params_hash = params_hash;
}

-- The write of a store: the store after it, and whether it succeeded.
unfoldable pub record_audit :
    (AuditEntry → Store → Option Store) → AuditEntry → Store → Store × Option AuditEntry
record_audit write e entries = elim (write e entries) [
  | none ↦ (entries, none)
  | some after ↦ (after, some e)
]
