-- ===== src/Access/Tests.antt =====
-- Access on small examples: a token service that knows one token, and one session.
use onegov2_spatial_assistan.Prelude.{
  String, ◌≡◌, ◌≢◌, ◌↔◌, ◌⊎◌, refl, Bool, true, false, Option, none, some, [], ◌∷◌, ◌==◌, Dict,
  lookup, values, In, In.here, one_of, if◌then◌else◌, sort_by,
}
use onegov2_spatial_assistan.Access.Auth.{
  Settings, AuthMode, CurrentUser, RoleValue, Claims, Headers, Checked, dev_user, from_claims,
  get_current_user, require_role, login_jwt, roles_from,
}
use onegov2_spatial_assistan.Access.Auth.Identity.{IsVerified, require_role-IsVerified}
use onegov2_spatial_assistan.Access.Sessions.{
  Session, require_session_access, list_sessions, deleted, delete_session,
}
use onegov2_spatial_assistan.Access.Sessions.Deletion.{
  IsOwn, delete_session_lem, delete_session-IsOwn, list_sessions-IsOwn,
}
use onegov2_spatial_assistan.Access.Audit.{AuditEntry}

abbrev jwt_settings : Bool → Settings
jwt_settings required = record {
  auth_mode = "jwt";
  auth_required = required;
  auth_header_name = "X-Auth-User";
  auth_header_display_name = "X-Auth-Name";
  auth_header_roles = "X-Auth-Roles";
  auth_roles_claim = "roles";
  auth_admin_role = "admin";
}

abbrev anna_claims : Claims
anna_claims = record {
  text_claim = λ name. if name == "sub" then some "anna" else none;
  role_claim =
      λ name. if name == "roles" then RoleValue.listed ("admin" ∷ []) else RoleValue.missing;
}

abbrev knows_one : String → Option Claims
knows_one token = if token == "t1" then some anna_claims else none

abbrev with_token : String → Headers
with_token authorization name = if name == "authorization" then some authorization else none

abbrev anna : CurrentUser
anna = from_claims (jwt_settings true) anna_claims

anna_allowed :
    require_role "admin" (get_current_user (jwt_settings true) knows_one (with_token "Bearer t1"))
    ≡ Checked.allowed anna
unfolding require_role get_current_user login_jwt from_claims roles_from
anna_allowed = refl

require_role-IsVerified_example :
    (one_of "admin" anna.roles ≡ true)
    × IsVerified (jwt_settings true) knows_one (with_token "Bearer t1") anna
require_role-IsVerified_example =
    require_role-IsVerified (jwt_settings true) knows_one "admin" (with_token "Bearer t1") anna refl
      refl anna_allowed

abbrev tap_session : Session
tap_session = record {
  id = "s1";
  user_id = "local-user";
  title = some "kraanwater";
  messages = "";
  created_at = "2026-01-01";
  updated_at = "2026-01-02";
  deleted_at = none;
}

abbrev one_session : Dict Session
one_session = ("s1", tap_session) ∷ []

abbrev local : CurrentUser
local = dev_user (jwt_settings false)

abbrev no_session : Dict Session
no_session = ("s1", deleted "2026-01-03" tap_session) ∷ []

tap_deleted : delete_session "2026-01-03" "s1" local one_session ≡ (no_session, true)
unfolding delete_session require_session_access
tap_deleted = refl

delete_session_lem_example :
    ((s : Session) × (lookup "s1" one_session ≡ some s) × IsOwn local s)
    × ((anyone : CurrentUser) → require_session_access (lookup "s1" no_session) anyone ≡ none)
    × ((other : String) → "s1" ≢ other → lookup other no_session ≡ lookup other one_session)
delete_session_lem_example =
    delete_session_lem "2026-01-03" "s1" local one_session no_session tap_deleted

abbrev stranger : CurrentUser
stranger = record {
  oid = "anna";
  name = "Anna";
  email = none;
  roles = [];
  auth_mode = AuthMode.header;
}

delete_session-IsOwn_example :
    let r = delete_session "2026-01-03" "s1" stranger one_session in
    (r.1 ≡ true ↔ (s : Session) × (lookup "s1" one_session ≡ some s) × IsOwn stranger s)
    × ((r.1 ≡ true) ⊎ (r.0 ≡ one_session))
delete_session-IsOwn_example = delete_session-IsOwn "2026-01-03" "s1" stranger one_session

tap_listed : In tap_session (list_sessions local one_session)
unfolding list_sessions sort_by
tap_listed = here refl

list_sessions-IsOwn_example : IsOwn local tap_session × In tap_session (values one_session)
list_sessions-IsOwn_example = list_sessions-IsOwn local one_session tap_session tap_listed

abbrev ran : AuditEntry
ran = record {
  id = "a1";
  ts = "2026-01-01";
  user_oid = "anna";
  user_name = "Anna";
  auth_mode = AuthMode.jwt;
  action = "scenario.run";
  target = "s1";
  detail = "";
  params_hash = "";
}
