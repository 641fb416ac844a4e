-- ===== src/Access/Auth.antt =====
-- auth.py. The settings, the headers of a request and the token library are parameters: `decode`
-- is `jwt.decode` with the keys, algorithms and audience of the settings, `none` when it raises.
pub mod Identity
use onegov2_spatial_assistan.Prelude.{
  String, Bool, true, false, not, ◌&&◌, ◌||◌, Option, none, some, List, [], ◌∷◌, ◌==◌, lower, strip,
  split, keep, map, one_of, replace_letter, has_prefix, text_drop, if◌then◌else◌,
}

pub record Settings : Type 0 where
  pub auth_mode : String
  pub auth_required : Bool
  pub auth_header_name : String
  pub auth_header_display_name : String
  pub auth_header_roles : String
  pub auth_roles_claim : String
  pub auth_admin_role : String

pub data AuthMode : Type 0 where
  dev jwt header : AuthMode

pub record CurrentUser : Type 0 where
  pub oid : String
  pub name : String
  pub email : Option String
  pub roles : List String
  pub auth_mode : AuthMode

-- A claim or header with roles: missing, one text, or a list.
pub data RoleValue : Type 0 where
  missing : RoleValue
  text : String → RoleValue
  listed : List String → RoleValue

pub record Claims : Type 0 where
  pub text_claim : String → Option String
  pub role_claim : String → RoleValue

abbrev pub Headers : Type 0
Headers = String → Option String

-- A user, or the response 401.
pub data Login : Type 0 where
  user : CurrentUser → Login
  unauthorized : String → Login

-- `a or b` on texts
abbrev pub or_text : Option String → String → String
or_text none b = b
or_text (some a) b = if a == "" then b else a

abbrev pub or_role : RoleValue → RoleValue → RoleValue
or_role RoleValue.missing b = b
or_role (RoleValue.text t) b = if t == "" then b else RoleValue.text t
or_role (RoleValue.listed []) b = b
or_role (RoleValue.listed (r ∷ rs)) b = RoleValue.listed (r ∷ rs)

unfoldable pub roles_from : RoleValue → List String
roles_from RoleValue.missing = []
roles_from (RoleValue.text t) =
    keep (λ r. not (strip r == "")) (map strip (split (replace_letter "," " " t)))
roles_from (RoleValue.listed rs) = rs

module _ (s : Settings) where
  abbrev pub dev_user : CurrentUser
  dev_user = record {
    oid = "local-user";
    name = "Local User";
    email = none;
    roles = s.auth_admin_role ∷ [];
    auth_mode = AuthMode.dev;
  }

  unfoldable pub from_claims : Claims → CurrentUser
  unfolding roles_from
  from_claims claims =
      let oid =
        or_text (claims.text_claim "sub")
          (or_text (claims.text_claim "oid") (or_text (claims.text_claim "email") "unknown")) in
      record {
        oid = oid;
        name =
            or_text (claims.text_claim "name")
              (or_text (claims.text_claim "preferred_username") oid);
        email = claims.text_claim "email";
        roles =
            roles_from (or_role (claims.role_claim s.auth_roles_claim) (claims.role_claim "roles"));
        auth_mode = AuthMode.jwt;
      }

  abbrev pub header_roles : Option String → RoleValue
  header_roles none = RoleValue.missing
  header_roles (some t) = RoleValue.text t

  abbrev pub header_user : Headers → String → CurrentUser
  header_user headers oid = record {
    oid = oid;
    name = or_text (headers s.auth_header_display_name) oid;
    email = none;
    roles = roles_from (header_roles (headers s.auth_header_roles));
    auth_mode = AuthMode.header;
  }

  -- `none` stands for the exception.
  unfoldable pub from_header : Headers → Option CurrentUser
  from_header headers = elim (headers s.auth_header_name) [
    | none ↦ none
    | some oid ↦ if oid == "" then none else some (header_user headers oid)
  ]

  abbrev pub bearer : Headers → Option String
  bearer headers =
      let authz = or_text (headers "authorization") "" in
      if has_prefix (lower authz) "bearer " then some (strip (text_drop 7 authz)) else none

  -- A credential that was presented and refused.
  abbrev pub refused : Login
  refused =
      if s.auth_required then Login.unauthorized "Ongeldige authenticatie." else Login.user dev_user

  -- No credential at all.
  abbrev pub nobody : Bool → Login
  nobody is_dev =
      if not is_dev && s.auth_required
      then Login.unauthorized "Authenticatie vereist."
      else Login.user dev_user

  module _ (decode : String → Option Claims) where
    unfoldable pub login_jwt : Headers → Login
    unfolding from_claims
    login_jwt headers = elim (bearer headers) [
      | none ↦ nobody false
      | some token ↦ elim (decode token) [
        | none ↦ refused
        | some claims ↦ Login.user (from_claims claims)
      ]
    ]

    unfoldable pub login_header : Headers → Login
    login_header headers = elim (from_header headers) [ none ↦ refused | some u ↦ Login.user u ]

    unfoldable pub get_current_user : Headers → Login
    unfolding login_jwt login_header
    get_current_user headers =
        let mode = lower (if s.auth_mode == "" then "dev" else s.auth_mode) in
        if mode == "jwt"
        then login_jwt headers
        else if mode == "header"
        then login_header headers
        else nobody (mode == "dev")

-- The user of a route that needs a role, or the status of the refusal.
pub data Checked : Type 0 where
  allowed : CurrentUser → Checked
  denied : String → Checked
  anonymous : String → Checked

unfoldable pub require_role : String → Login → Checked
require_role role (Login.user u) =
    if one_of role u.roles then Checked.allowed u else Checked.denied role
require_role role (Login.unauthorized detail) = Checked.anonymous detail
