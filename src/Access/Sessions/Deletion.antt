-- ===== src/Access/Sessions/Deletion.antt =====
-- What a deletion does to the sessions, and who sees what.
use onegov2_spatial_assistan.Prelude.{
  String, ◌≡◌, ◌≢◌, ◌↔◌, ◌⊎◌, subst, ◌&&◌, &&-true, false≢true, refl, ap, ◌∙◌, sym, inl, inr, Bool,
  true, Option, none, some, ◌==◌, Dict, lookup, insert, values, keep, In, In-keep, sort_by_inv,
  text_le, arith, eq_iff, Bool-cases, Option-cases, lookup-insert_self, lookup-insert_ne,
}
use onegov2_spatial_assistan.Access.Auth.{CurrentUser}
use onegov2_spatial_assistan.Access.Sessions.{
  Session, is_live, require_session_access, list_sessions, deleted, delete_session,
}

-- A session is given to a user exactly when it exists, is theirs and is not deleted.
abbrev pub IsOwn : CurrentUser → Session → Type 0
IsOwn user s = (s.user_id ≡ user.oid) × (is_live s ≡ true)

none_not_some : {s : Session} → none ≢ some s
none_not_some q = cc

some-inj : {s t : Session} → some s ≡ some t → s ≡ t
some-inj q = cc

access-IsOwn :
    (o : Option Session) (user : CurrentUser) (s : Session)
    → require_session_access o user ≡ some s
    → (o ≡ some s) × IsOwn user s
unfolding require_session_access
access-IsOwn none user s h = absurd (cc)
access-IsOwn (some t) user s h = elim (Bool-cases (t.user_id == user.oid)) [
  | inl e ↦ elim (Bool-cases (is_live t)) [
    | inl l ↦
        let q : t ≡ s = some-inj (rw (e, l) at h) in
        (
          ap (λ x. some x) q,
          (subst (λ x. IsOwn user x) q (ground (arith, eq_iff t.user_id user.oid, e), l)),
        )
    | inr l ↦ absurd (none_not_some (rw (e, l) at h))
  ]
  | inr e ↦ absurd (none_not_some (rw e at h))
]

deleted_is_gone :
    (now session_id : String) (s : Session) (db after : Dict Session)
    → insert session_id (deleted now s) db ≡ after
    → (anyone : CurrentUser) → require_session_access (lookup session_id after) anyone ≡ none
unfolding require_session_access
deleted_is_gone now session_id s db after q anyone =
    let found : lookup session_id after ≡ some (deleted now s) =
      ap (lookup session_id) (sym q) ∙ lookup-insert_self session_id (deleted now s) db in
    rw found (elim (Bool-cases (s.user_id == anyone.oid)) [ inl e ↦ rw e refl | inr e ↦ rw e refl ])

-- A successful deletion is of the user's own live session; afterwards nobody gets that session, and
-- every other one is as before.
pub delete_session_lem :
    (now session_id : String) (user : CurrentUser) (db after : Dict Session)
    → delete_session now session_id user db ≡ (after, true)
    → ((s : Session) × (lookup session_id db ≡ some s) × IsOwn user s)
      × ((anyone : CurrentUser) → require_session_access (lookup session_id after) anyone ≡ none)
      × ((other : String) → session_id ≢ other → lookup other after ≡ lookup other db)
unfolding delete_session require_session_access
delete_session_lem now session_id user db after h =
    elim (Option-cases (require_session_access (lookup session_id db) user)) [
      | inl e ↦ absurd (false≢true (ap (λ p. p.1) (rw (delete_session, e) at h)))
      | inr (s, e) ↦
          let q : insert session_id (deleted now s) db ≡ after =
            ap (λ p. p.0) (rw (delete_session, e) at h) in
          let (found, own) = access-IsOwn (lookup session_id db) user s e in
          (
            (s, found, own),
            deleted_is_gone now session_id s db after q,
            λ other n.
                ap (lookup other) (sym q) ∙ lookup-insert_ne session_id other (deleted now s) db n,
          )
    ]

own-access :
    (user : CurrentUser) (s : Session)
    → IsOwn user s
    → require_session_access (some s) user ≡ some s
unfolding require_session_access
own-access user s (same, live) =
    let e : (s.user_id == user.oid) ≡ true = (eq_iff s.user_id user.oid).1 same in rw (e, live) refl

-- A deletion succeeds exactly when the session exists, is the user's own and is not deleted yet; one
-- that does not succeed leaves all sessions as they are.
pub delete_session-IsOwn :
    (now session_id : String) (user : CurrentUser) (db : Dict Session)
    → let r = delete_session now session_id user db in
      (r.1 ≡ true ↔ (s : Session) × (lookup session_id db ≡ some s) × IsOwn user s)
      × ((r.1 ≡ true) ⊎ (r.0 ≡ db))
unfolding delete_session
delete_session-IsOwn now session_id user db =
    elim (Option-cases (require_session_access (lookup session_id db) user)) [
      | inl e ↦
          rw (delete_session, e)
            (
              (
                λ h. absurd (false≢true h),
                λ (s, found, own).
                    let given =
                      ap (λ o. require_session_access o user) found ∙ own-access user s own in
                    absurd (none_not_some (sym e ∙ given)),
              ),
              inr refl,
            )
      | inr (s, e) ↦
          let (found, own) = access-IsOwn (lookup session_id db) user s e in
          rw (delete_session, e) ((λ h. (s, found, own), λ h. refl), inl refl)
    ]

-- The list of a user holds only sessions of that user that are not deleted.
pub list_sessions-IsOwn :
    (user : CurrentUser) (db : Dict Session) (s : Session)
    → In s (list_sessions user db)
    → IsOwn user s × In s (values db)
unfolding list_sessions
list_sessions-IsOwn user db s m =
    let own : Session → Bool = λ t. (t.user_id == user.oid) && is_live t in
    let (found, ok) =
      In-keep own (values db)
        (sort_by_inv (λ a b. text_le b.updated_at a.updated_at) (keep own (values db)) m) in
    let both = &&-true (s.user_id == user.oid) (is_live s) ok in
    ((ground (arith, eq_iff s.user_id user.oid, both.0), both.1), found)
