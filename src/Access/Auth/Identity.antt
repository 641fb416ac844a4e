-- ===== src/Access/Auth/Identity.antt =====
-- Whose identity a request has.
use onegov2_spatial_assistan.Prelude.{
  String, ◌≡◌, ◌≢◌, subst, ap, sym, ◌⊎◌, inl, inr, true, false, Option, some, ◌==◌, lower, one_of,
  Bool-cases, Option-cases, if◌then◌else◌,
}
use onegov2_spatial_assistan.Access.Auth.{
  Settings, CurrentUser, Claims, Headers, Login, Checked, from_claims, from_header, header_user,
  bearer, login_jwt, login_header, get_current_user, require_role,
}

no_user : {u : CurrentUser} {t : String} → Login.unauthorized t ≢ Login.user u
no_user q = cc

allowed-inj : {u v : CurrentUser} → Checked.allowed u ≡ Checked.allowed v → u ≡ v
allowed-inj q = cc

not_allowed : {u : CurrentUser} {r : String} → Checked.denied r ≢ Checked.allowed u
not_allowed q = cc

allowed_user :
    (role : String) (u : CurrentUser) (login : Login)
    → require_role role login ≡ Checked.allowed u
    → (one_of role u.roles ≡ true) × (login ≡ Login.user u)
unfolding require_role
allowed_user role u (Login.unauthorized t) h = absurd (cc)
allowed_user role u (Login.user v) h = elim (Bool-cases (one_of role v.roles)) [
  | inl e ↦
      let q : v ≡ u = allowed-inj (rw e at h) in
      (subst (λ w. one_of role w.roles ≡ true) q e, ap Login.user q)
  | inr e ↦ absurd (not_allowed (rw e at h))
]

module _ (s : Settings) (decode : String → Option Claims) where
  -- The token library accepted the request's bearer token and the user is that of its claims, or the
  -- identity header is set and the user is its.
  abbrev pub IsVerified : Headers → CurrentUser → Type 0
  IsVerified headers u =
      ((token : String) × (claims : Claims) × (bearer s headers ≡ some token)
        × (decode token ≡ some claims)
        × (u ≡ from_claims s claims))
      ⊎ ((oid : String) × (headers s.auth_header_name ≡ some oid)
          × ((oid == "") ≡ false)
          × (u ≡ header_user s headers oid))

  user-inj : {u v : CurrentUser} → Login.user u ≡ Login.user v → u ≡ v
  user-inj q = cc

  login_jwt-IsVerified :
      (headers : Headers) (u : CurrentUser)
      → s.auth_required ≡ true
      → login_jwt s decode headers ≡ Login.user u
      → IsVerified headers u
  unfolding login_jwt
  login_jwt-IsVerified headers u r h = elim (Option-cases (bearer s headers)) [
    | inl e ↦ absurd (no_user (rw (login_jwt, e, r) at h))
    | inr (token, e) ↦ elim (Option-cases (decode token)) [
      | inl d ↦ absurd (no_user (rw (login_jwt, e, d, r) at h))
      | inr (claims, d) ↦ inl (token, claims, e, d, sym (user-inj (rw (login_jwt, e, d) at h)))
    ]
  ]

  login_header-IsVerified :
      (headers : Headers) (u : CurrentUser)
      → s.auth_required ≡ true
      → login_header s decode headers ≡ Login.user u
      → IsVerified headers u
  unfolding login_header from_header
  login_header-IsVerified headers u r h = elim (Option-cases (headers s.auth_header_name)) [
    | inl e ↦ absurd (no_user (rw (login_header, from_header, e, r) at h))
    | inr (oid, e) ↦ elim (Bool-cases (oid == "")) [
      | inl d ↦ absurd (no_user (rw (login_header, from_header, e, d, r) at h))
      | inr d ↦ inr (oid, e, d, sym (user-inj (rw (login_header, from_header, e, d) at h)))
    ]
  ]

  abbrev pub mode : String
  mode = lower (if s.auth_mode == "" then "dev" else s.auth_mode)

  get_current_user-IsVerified :
      (headers : Headers) (u : CurrentUser)
      → s.auth_required ≡ true
      → (mode == "dev") ≡ false
      → get_current_user s decode headers ≡ Login.user u
      → IsVerified headers u
  unfolding get_current_user
  get_current_user-IsVerified headers u r d h = elim (Bool-cases (mode == "jwt")) [
    | inl j ↦ login_jwt-IsVerified headers u r (rw j at h)
    | inr j ↦ elim (Bool-cases (mode == "header")) [
      | inl k ↦ login_header-IsVerified headers u r (rw (j, k) at h)
      | inr k ↦ absurd (no_user (rw (j, k, d, r) at h))
    ]
  ]

  -- When authentication is required and the mode is not dev, a route that needs a role is reached
  -- only by a user who has it, and whose identity comes from an accepted token or the identity header.
  pub require_role-IsVerified :
      (role : String) (headers : Headers) (u : CurrentUser)
      → s.auth_required ≡ true
      → (mode == "dev") ≡ false
      → require_role role (get_current_user s decode headers) ≡ Checked.allowed u
      → (one_of role u.roles ≡ true) × IsVerified headers u
  require_role-IsVerified role headers u r d h =
      let (has, login) = allowed_user role u (get_current_user s decode headers) h in
      (has, get_current_user-IsVerified headers u r d login)
