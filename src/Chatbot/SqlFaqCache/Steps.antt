-- ===== src/Chatbot/SqlFaqCache/Steps.antt =====
-- One call on a table that holds the entries of a store: both end alike and answer alike.
use onegov2_spatial_assistan.Prelude.{
  String, ◌≡◌, true, refl, ap, sym, subst, ◌∙◌, inl, inr, false, none, some, List, [], ◌∷◌, arith,
  ◌==◌, eq_iff, lookup, insert, IsDict, insert-IsDict, Bool-cases, Option-cases,
}
use onegov2_spatial_assistan.Chatbot.FaqCache.{
  FaqCache, Suggestion, published, rejected, is_rejected, is_grounded, known_entry,
  record_suggestion, promote, reject, Status,
}
use onegov2_spatial_assistan.Chatbot.FaqCache.Invariant.{
  Call, suggest, promote_entry, reject_entry, IsFresh, IsConsistent, update-IsConsistent,
  known_entry-some, update-IsConsistent,
}
use onegov2_spatial_assistan.Chatbot.SqlFaqCache.{
  FaqRow, Library, save_row, row_of_key, row_of_id, to_entry, repeat_row, recorded_row, parsed_row,
  sql_promote, sql_reject, fits,
}
use onegov2_spatial_assistan.Chatbot.SqlFaqCache.Rows.{
  IsJson, entries, to_entry-new_row, to_entry-repeat_row, entries-save_row, lookup-entries,
  row_of_key-some, row_of_key-none, row_of_id-some, lookup-In, IsSelect, In-lookup, own_key_of,
}

module _ (lib : Library) where
  -- A call with sources that JSON gives back, one clock reading and values that fit their columns, or
  -- with an identifier in the form in which it is stored.
  abbrev pub IsPlain : Call → Type 0
  IsPlain (suggest g) = IsJson lib g.sources × (g.created_at ≡ g.now) × (fits g ≡ true)
  IsPlain (promote_entry i) = lib.parse_uuid i ≡ some i
  IsPlain (reject_entry i) = lib.parse_uuid i ≡ some i

  abbrev pub ArePlain : List Call → Type 0
  ArePlain [] = Unit
  ArePlain (c ∷ cs) = IsPlain c × ArePlain cs

  -- The table holds the entries of the store, in its order, and no identifier twice.
  pub record Represents (rows : List FaqRow) (s : FaqCache) : Type 0 where
    pub same_entries : s.by_id ≡ entries lib rows
    pub no_repeat : IsDict (entries lib rows)
    pub consistent : IsConsistent s

  module _ (select : IsSelect lib) (rows : List FaqRow) (s : FaqCache) (h : Represents rows s) where
    -- Saving a row is the insertion of its entry.
    pub saved-Represents :
        (row : FaqRow) (t : FaqCache)
        → t.by_id ≡ insert row.id (to_entry lib row) s.by_id
        → IsConsistent t
        → Represents (save_row row rows) t
    saved-Represents row t e c = record {
      same_entries =
          e
          ∙ ap (insert row.id (to_entry lib row)) h.same_entries
          ∙ sym (entries-save_row lib row rows);
      no_repeat =
          rw (entries-save_row lib row rows)
            (insert-IsDict row.id (to_entry lib row) (entries lib rows) h.no_repeat);
      consistent = c;
    }

    known_row :
        (key : String) (r : FaqRow)
        → row_of_key key (lib.unordered rows) ≡ some r
        → known_entry s key ≡ some (r.id, to_entry lib r)
    unfolding to_entry
    known_row key r e =
        let (k, m) = row_of_key-some lib key (lib.unordered rows) r e in
        let found : lookup r.id s.by_id ≡ some (to_entry lib r) =
          rw h.same_entries (lookup-In lib r rows h.no_repeat ((select r rows).0 m)) in
        let named = h.consistent.own_id r.id (to_entry lib r) found in
        let led : lookup key s.key_to_id ≡ some r.id =
          subst (λ x. lookup x s.key_to_id ≡ some r.id) k
            (h.consistent.own_key r.id (to_entry lib r) found) in
        let open_id : (r.id == "") ≡ false = ground (arith, named.1, eq_iff r.id "") in
        rw (known_entry, led, open_id, found) refl

    known_none :
        (key : String) → row_of_key key (lib.unordered rows) ≡ none → known_entry s key ≡ none
    known_none key e = elim (Option-cases (known_entry s key)) [
      | inl q ↦ q
      | inr ((i, f), q) ↦
          let led = known_entry-some s key i f q in
          let (x, found, same) = h.consistent.known key i led.0 in
          let (r, m, q) =
            In-lookup lib i rows x (subst (λ d. lookup i d ≡ some x) h.same_entries found) in
          absurd (
            row_of_key-none lib key (lib.unordered rows) r e ((select r rows).1 m)
              (own_key_of lib r x q same))
    ]

    repeat_row_id : (g : Suggestion) (r : FaqRow) → (repeat_row lib g r).id ≡ r.id
    repeat_row_id g r = elim (Bool-cases (is_rejected r.status)) [
      | inl e ↦ rw e refl
      | inr e ↦ rw e refl
    ]

    pub record_suggestion-refined :
        (g : Suggestion)
        → IsJson lib g.sources
        → g.created_at ≡ g.now
        → IsFresh (suggest g) s
        → ((record_suggestion g s).0.by_id
            ≡ insert (recorded_row lib g rows).id (to_entry lib (recorded_row lib g rows)) s.by_id)
          × ((record_suggestion g s).1 ≡ to_entry lib (recorded_row lib g rows))
    unfolding record_suggestion
    record_suggestion-refined g j clock fresh =
        elim (Option-cases (row_of_key g.key (lib.unordered rows))) [
          | inl e ↦
              let unknown = known_none g.key e in
              let same = sym (to_entry-new_row lib g j clock) in
              rw (recorded_row, e, record_suggestion, unknown)
                (ap (λ x. insert g.fresh_id x s.by_id) same, same)
          | inr (r, e) ↦
              let known = known_row g.key r e in
              let same = sym (to_entry-repeat_row lib g r j) in
              rw (recorded_row, e, record_suggestion, known, repeat_row_id g r)
                (ap (λ x. insert r.id x s.by_id) same, same)
        ]

    pub lookup-missing : (i : String) → row_of_id i rows ≡ none → lookup i s.by_id ≡ none
    lookup-missing i e = rw h.same_entries (lookup-entries lib i rows ∙ rw e refl)

    pub lookup-row :
        (i : String) (r : FaqRow)
        → row_of_id i rows ≡ some r
        → lookup i s.by_id ≡ some (to_entry lib r)
    lookup-row i r e = rw h.same_entries (lookup-entries lib i rows ∙ rw e refl)

    -- A new status in the row is a new status in the entry.
    moderated-Represents :
        (i : String) (r : FaqRow) (t : Status)
        → row_of_id i rows ≡ some r
        → Represents
            (save_row (record r { status = t }) rows)
            (record s { by_id = insert i (record (to_entry lib r) { status = t }) s.by_id })
    unfolding to_entry
    moderated-Represents i r t e =
        saved-Represents (record r { status = t }) _
          (ap (λ x. insert x (record (to_entry lib r) { status = t }) s.by_id)
            (sym (row_of_id-some lib i rows r e)))
          (update-IsConsistent i (to_entry lib r) (record (to_entry lib r) { status = t }) s
            (lookup-row i r e) refl refl h.consistent)

    pub promote-refined :
        (i : String)
        → lib.parse_uuid i ≡ some i
        → Represents (sql_promote lib i rows).0 (promote i s).0
          × ((sql_promote lib i rows).1 ≡ (promote i s).1)
    unfolding sql_promote promote parsed_row
    promote-refined i parsed = elim (Option-cases (row_of_id i rows)) [
      | inl e ↦ rw (sql_promote, promote, parsed_row, parsed, e, lookup-missing i e) (h, refl)
      | inr (r, e) ↦
          let found = lookup-row i r e in
          elim (Bool-cases (is_rejected r.status)) [
            | inl f ↦ rw (sql_promote, promote, parsed_row, parsed, e, found, f) (h, refl)
            | inr f ↦ elim (Bool-cases (is_grounded (to_entry lib r))) [
              | inr k ↦ rw (sql_promote, promote, parsed_row, parsed, e, found, f, k) (h, refl)
              | inl k ↦
                  rw (sql_promote, promote, parsed_row, parsed, e, found, f, k)
                    (moderated-Represents i r published e, refl)
            ]
          ]
    ]

    pub reject-refined :
        (i : String)
        → lib.parse_uuid i ≡ some i
        → Represents (sql_reject lib i rows).0 (reject i s).0
          × ((sql_reject lib i rows).1 ≡ (reject i s).1)
    unfolding sql_reject reject parsed_row
    reject-refined i parsed = elim (Option-cases (row_of_id i rows)) [
      | inl e ↦ rw (sql_reject, reject, parsed_row, parsed, e, lookup-missing i e) (h, refl)
      | inr (r, e) ↦
          let found = lookup-row i r e in
          rw (sql_reject, reject, parsed_row, parsed, e, found)
            (moderated-Represents i r rejected e, refl)
    ]
