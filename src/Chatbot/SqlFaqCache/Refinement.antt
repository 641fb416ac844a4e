-- ===== src/Chatbot/SqlFaqCache/Refinement.antt =====
-- The table of the database refines the store in memory.
use onegov2_spatial_assistan.Prelude.{
  String, ◌≡◌, ◌↔◌, true, In, In.here, In.there, In-inv, map, &&-true, refl, ap, sym, ◌∙◌, inl, inr,
  some, List, [], ◌∷◌, values, Option-cases,
}
use onegov2_spatial_assistan.Chatbot.FaqCache.{
  FaqCache, FaqCacheEntry, get, Suggestion, record_suggestion, all_entries, empty,
}
use onegov2_spatial_assistan.Chatbot.FaqCache.Invariant.{
  Call, suggest, promote_entry, reject_entry, step, run, IsFresh, AreFresh, empty-IsConsistent,
  step-IsConsistent,
}
use onegov2_spatial_assistan.Chatbot.SqlFaqCache.{
  captured, moderated, reply, replies, FaqRow, Library, row_of_key, row_of_id, to_entry,
  recorded_row, sql_record_suggestion, parsed_row, sql_all, sql_reply, sql_replies, sql_step,
  sql_run, sql_get, fits, stamp_fits, is_stored,
}
use onegov2_spatial_assistan.Chatbot.SqlFaqCache.Rows.{entries, IsSelect}
use onegov2_spatial_assistan.Chatbot.SqlFaqCache.Steps.{
  IsPlain, ArePlain, Represents, saved-Represents, record_suggestion-refined, lookup-missing,
  lookup-row, promote-refined, reject-refined,
}

module _ (lib : Library) where
  stored_if_fits :
      (g : Suggestion) (rows : List FaqRow) → fits g ≡ true → is_stored lib g rows ≡ true
  stored_if_fits g rows h = elim (Option-cases (row_of_key g.key (lib.unordered rows))) [
    | inl e ↦ rw (is_stored, e) h
    | inr (r, e) ↦ rw (is_stored, e) (&&-true (stamp_fits g) _ h).0
  ]

  module _ (select : IsSelect lib) where
    sql_step-Represents :
        (c : Call) (rows : List FaqRow) (s : FaqCache)
        → Represents lib rows s
        → IsPlain lib c
        → IsFresh c s
        → Represents lib (sql_step lib c rows) (step c s)
    unfolding sql_step step sql_record_suggestion
    sql_step-Represents (suggest g) rows s h plain fresh =
        rw (sql_step, sql_record_suggestion, stored_if_fits g rows plain.2)
          (saved-Represents lib select rows s h (recorded_row lib g rows) (record_suggestion g s).0
            (record_suggestion-refined lib select rows s h g plain.0 plain.1 fresh).0
            (step-IsConsistent (suggest g) s h.consistent fresh))
    sql_step-Represents (promote_entry i) rows s h plain fresh =
        (promote-refined lib select rows s h i plain).0
    sql_step-Represents (reject_entry i) rows s h plain fresh =
        (reject-refined lib select rows s h i plain).0

    sql_run-Represents :
        (calls : List Call) (rows : List FaqRow) (s : FaqCache)
        → Represents lib rows s
        → ArePlain lib calls
        → AreFresh calls s
        → Represents lib (sql_run lib calls rows) (run calls s)
    unfolding sql_run run
    sql_run-Represents [] rows s h plain fresh = h
    sql_run-Represents (c ∷ cs) rows s h plain fresh =
        sql_run-Represents cs (sql_step lib c rows) (step c s)
          (sql_step-Represents c rows s h plain.0 fresh.0) plain.1 fresh.1

    entries-In :
        (rows : List FaqRow) (e : FaqCacheEntry)
        → In e (map (to_entry lib) rows) ↔ In e (values (entries lib rows))
    entries-In [] e = (λ m. m, λ m. m)
    entries-In (r ∷ rows) e = (
      λ m. elim (In-inv m) [ inl q ↦ here q | inr t ↦ there ((entries-In rows e).0 t) ],
      λ m. elim (In-inv m) [ inl q ↦ here q | inr t ↦ there ((entries-In rows e).1 t) ],
    )

    map-In :
        (xs ys : List FaqRow) (e : FaqCacheEntry)
        → ((r : FaqRow) → In r xs → In r ys)
        → In e (map (to_entry lib) xs)
        → In e (map (to_entry lib) ys)
    map-In [] ys e h m = elim m [ ]
    map-In (x ∷ xs) ys e h m = elim (In-inv m) [
      | inl q ↦ entry-In ys x q (h x (here refl))
      | inr t ↦ map-In xs ys e (λ r n. h r (there n)) t
    ]
      where
        entry-In :
            (zs : List FaqRow) (r : FaqRow)
            → e ≡ to_entry lib r
            → In r zs
            → In e (map (to_entry lib) zs)
        entry-In [] r q n = elim n [ ]
        entry-In (z ∷ zs) r q n = elim (In-inv n) [
          | inl same ↦ here (q ∙ ap (to_entry lib) same)
          | inr t ↦ there (entry-In zs r q t)
        ]

    sql_all-In :
        (rows : List FaqRow) (s : FaqCache) (e : FaqCacheEntry)
        → Represents lib rows s
        → In e (sql_all lib rows) ↔ In e (all_entries s)
    unfolding sql_all all_entries
    sql_all-In rows s e h = rw h.same_entries (
      λ m. (entries-In rows e).0 (map-In _ rows e (λ r n. (select r rows).0 n) m),
      λ m. map-In rows _ e (λ r n. (select r rows).1 n) ((entries-In rows e).1 m),
    )

    sql_get-refined :
        (i : String) (rows : List FaqRow) (s : FaqCache)
        → lib.parse_uuid i ≡ some i
        → Represents lib rows s
        → sql_get lib i rows ≡ get i s
    unfolding sql_get get parsed_row
    sql_get-refined i rows s parsed h = elim (Option-cases (row_of_id i rows)) [
      | inl e ↦
          rw (sql_get, get, parsed_row, parsed, e, lookup-missing lib select rows s h i e) refl
      | inr (r, e) ↦
          rw (sql_get, get, parsed_row, parsed, e, lookup-row lib select rows s h i r e) refl
    ]

    sql_reply-refined :
        (c : Call) (rows : List FaqRow) (s : FaqCache)
        → Represents lib rows s
        → IsPlain lib c
        → IsFresh c s
        → sql_reply lib c rows ≡ reply c s
    unfolding sql_reply reply sql_record_suggestion
    sql_reply-refined (suggest g) rows s h plain fresh = rw (stored_if_fits g rows plain.2) (
        ap captured (sym (record_suggestion-refined lib select rows s h g plain.0 plain.1 fresh).1))
    sql_reply-refined (promote_entry i) rows s h plain fresh =
        ap moderated (promote-refined lib select rows s h i plain).1
    sql_reply-refined (reject_entry i) rows s h plain fresh =
        ap moderated (reject-refined lib select rows s h i plain).1

    sql_replies-refined :
        (calls : List Call) (rows : List FaqRow) (s : FaqCache)
        → Represents lib rows s
        → ArePlain lib calls
        → AreFresh calls s
        → sql_replies lib calls rows ≡ replies calls s
    unfolding sql_replies replies
    sql_replies-refined [] rows s h plain fresh = refl
    sql_replies-refined (c ∷ cs) rows s h plain fresh = λ i.
        sql_reply-refined c rows s h plain.0 fresh.0 i
        ∷ sql_replies-refined cs (sql_step lib c rows) (step c s)
            (sql_step-Represents c rows s h plain.0 fresh.0) plain.1 fresh.1 i

    empty-Represents : Represents lib [] empty
    empty-Represents = record {
      same_entries = refl;
      no_repeat = tt;
      consistent = empty-IsConsistent;
    }

    -- Where a SELECT without an order yields the rows of the table: captures, promotions and rejections
    -- from empty stores on, where every call has sources that
    -- JSON gives back, one clock reading, values that fit their columns and a fresh identifier, and
    -- names identifiers as they are stored: each call has the same reply from the table as from the
    -- store in memory, after them both hold the same entries, in whatever order, and an identifier in
    -- its stored form gives the same entry. The lists of the two stores, which break ties between equal
    -- hits in different ways, are not compared.
    pub sql_run-refined :
        (calls : List Call) (e : FaqCacheEntry) (i : String)
        → ArePlain lib calls
        → AreFresh calls empty
        → lib.parse_uuid i ≡ some i
        → (sql_replies lib calls [] ≡ replies calls empty)
          × (In e (sql_all lib (sql_run lib calls [])) ↔ In e (all_entries (run calls empty)))
          × (sql_get lib i (sql_run lib calls []) ≡ get i (run calls empty))
    sql_run-refined calls e i plain fresh parsed =
        let h = sql_run-Represents calls [] empty empty-Represents plain fresh in
        (
          sql_replies-refined calls [] empty empty-Represents plain fresh,
          sql_all-In (sql_run lib calls []) (run calls empty) e h,
          sql_get-refined i (sql_run lib calls []) (run calls empty) parsed h,
        )
