-- ===== src/Access/Audit/Trail.antt =====
-- The trail is read newest first.
use onegov2_spatial_assistan.Prelude.{
  ℕ, String, ◌≡◌, refl, ap, inl, inr, suc, ◌&&◌, Option, [], ◌∷◌, ◌++◌, Bool-cases, if◌then◌else◌,
}
use onegov2_spatial_assistan.Access.Audit.{
  AuditEntry, Store, record_entry, newest_first, matches, list_recent,
}

newest_first-record_entry :
    (e : AuditEntry) (entries : Store)
    → newest_first (record_entry e entries) ≡ e ∷ newest_first entries
unfolding newest_first record_entry
newest_first-record_entry e [] = refl
newest_first-record_entry e (f ∷ entries) =
    ap (λ r. r ++ f ∷ []) (newest_first-record_entry e entries)

-- After a record, the recent entries are the new one, when it passes the given action and user,
-- before one entry fewer of what was recent; otherwise they are as before.
pub list_recent-record_entry :
    (limit : ℕ) (action user_oid : Option String) (e : AuditEntry) (entries : Store)
    → list_recent (suc limit) action user_oid (record_entry e entries) ≡ (
        if matches action e.action && matches user_oid e.user_oid
        then e ∷ list_recent limit action user_oid entries
        else list_recent (suc limit) action user_oid entries)
unfolding list_recent
list_recent-record_entry limit action user_oid e entries =
    rw (newest_first-record_entry e entries) (elim (Bool-cases (matches action e.action)) [
      | inr a ↦ rw a refl
      | inl a ↦ rw a (elim (Bool-cases (matches user_oid e.user_oid)) [
        | inl u ↦ rw u refl
        | inr u ↦ rw u refl
      ])
    ])
