-- ===== src/Chatbot/SqlFaqCache/Rows.antt =====
-- Rows as entries: what saving and finding a row is on the dict of the store in memory.
use onegov2_spatial_assistan.Prelude.{
  String, ◌≡◌, ◌≢◌, ◌↔◌, In-inv, refl, ap, sym, ◌∙◌, inl, inr, false, Option, none, some, List, [],
  ◌∷◌, ◌==◌, eq_iff, eq_refl, Dict, In, In.here, In.there, lookup, insert, map, is_empty, IsDict,
  Bool-cases, if◌then◌else◌,
}
use onegov2_spatial_assistan.Chatbot.Models.{Citation}
use onegov2_spatial_assistan.Chatbot.FaqCache.{
  FaqCacheEntry, Suggestion, suggested, is_rejected, repeat_entry, new_entry, text_or, sources_or,
}
use onegov2_spatial_assistan.Chatbot.SqlFaqCache.{
  FaqRow, Library, save_row, row_of_key, row_of_id, to_entry, repeat_row, new_row,
}

some-inj {ℓ} : {A : Type ℓ} {a b : A} → some a ≡ some b → a ≡ b
some-inj q = cc

module _ (lib : Library) where
  -- What the documentation of `json` says of a value: loading what was dumped gives it back, and the
  -- text is not empty.
  pub record IsJson (sources : List Citation) : Type 0 where
    pub loads-dumps : lib.loads (lib.dumps sources) ≡ sources
    pub not_empty : (lib.dumps sources == "") ≡ false

  -- What SQL says of a SELECT without an order: it yields the rows of the table.
  abbrev pub IsSelect : Type 0
  IsSelect = (r : FaqRow) (rows : List FaqRow) → In r (lib.unordered rows) ↔ In r rows

  -- The rows as the store in memory holds them.
  abbrev pub entries : List FaqRow → Dict FaqCacheEntry
  entries rows = map (λ r. (r.id, to_entry lib r)) rows

  pub loads_dumped : (cs : List Citation) → IsJson cs → lib.loads (text_or (lib.dumps cs) "[]") ≡ cs
  loads_dumped cs j = rw j.not_empty j.loads-dumps

  pub loads_updated :
      (cs : List Citation) (old : String)
      → IsJson cs
      → lib.loads (text_or (if is_empty cs then old else lib.dumps cs) "[]")
        ≡ sources_or cs (lib.loads (text_or old "[]"))
  loads_updated [] old j = refl
  loads_updated (c ∷ cs) old j = loads_dumped (c ∷ cs) j

  pub to_entry-new_row :
      (g : Suggestion)
      → IsJson g.sources
      → g.created_at ≡ g.now
      → to_entry lib (new_row lib g) ≡ new_entry g
  unfolding to_entry
  to_entry-new_row g j same = λ i. record {
    id = g.fresh_id;
    cache_key = g.key;
    question_norm = g.question_norm;
    question_display = g.question_display;
    answer_nl = g.answer_nl;
    sources = loads_dumped g.sources j i;
    intent = g.intent;
    hits = 1;
    status = suggested;
    version_stamp = g.version_stamp;
    created_at = sym same i;
    last_used_at = g.now;
  }

  pub to_entry-repeat_row :
      (g : Suggestion) (r : FaqRow)
      → IsJson g.sources
      → to_entry lib (repeat_row lib g r) ≡ repeat_entry g (to_entry lib r)
  unfolding to_entry
  to_entry-repeat_row g r j = elim (Bool-cases (is_rejected r.status)) [
    | inl e ↦ rw e refl
    | inr e ↦ rw (e, loads_updated g.sources r.sources_json j) refl
  ]

  pub entries-save_row :
      (row : FaqRow) (rows : List FaqRow)
      → entries (save_row row rows) ≡ insert row.id (to_entry lib row) (entries rows)
  unfolding save_row
  entries-save_row row [] = refl
  entries-save_row row (r ∷ rows) = elim (Bool-cases (r.id == row.id)) [
    | inl e ↦ rw e (ap (λ i. (i, to_entry lib row) ∷ entries rows) (sym ((eq_iff r.id row.id).0 e)))
    | inr e ↦ rw e (ap (λ d. (r.id, to_entry lib r) ∷ d) (entries-save_row row rows))
  ]

  pub lookup-entries :
      (i : String) (rows : List FaqRow)
      → lookup i (entries rows) ≡ elim (row_of_id i rows) as (λ o. Option FaqCacheEntry) [
        | none ↦ none
        | some r ↦ some (to_entry lib r)
      ]
  unfolding row_of_id
  lookup-entries i [] = refl
  lookup-entries i (r ∷ rows) = elim (Bool-cases (r.id == i)) [
    | inl e ↦ rw e refl
    | inr e ↦ rw e (lookup-entries i rows)
  ]

  pub row_of_key-some :
      (key : String) (rows : List FaqRow) (r : FaqRow)
      → row_of_key key rows ≡ some r
      → (r.cache_key ≡ key) × In r rows
  unfolding row_of_key
  row_of_key-some key [] r h = cc
  row_of_key-some key (q ∷ rows) r h = elim (Bool-cases (q.cache_key == key)) [
    | inl e ↦
        let same : q ≡ r = some-inj (rw (e, row_of_key) at h) in
        (rw (← same) ((eq_iff q.cache_key key).0 e), here (sym same))
    | inr e ↦ let (k, m) = row_of_key-some key rows r (rw (e, row_of_key) at h) in (k, there m)
  ]

  pub row_of_key-none :
      (key : String) (rows : List FaqRow) (r : FaqRow)
      → row_of_key key rows ≡ none
      → In r rows
      → r.cache_key ≢ key
  unfolding row_of_key
  row_of_key-none key [] r h m = elim m [ ]
  row_of_key-none key (q ∷ rows) r h m = elim (Bool-cases (q.cache_key == key)) [
    | inl f ↦ absurd (cc (rw (f, row_of_key) at h))
    | inr f ↦ elim (In-inv m) [
      | inl same ↦ λ p. cc (f, (eq_iff q.cache_key key).1 (ap (λ x. x.cache_key) (sym same) ∙ p))
      | inr t ↦ row_of_key-none key rows r (rw (f, row_of_key) at h) t
    ]
  ]

  -- What is found under an identifier is the entry of a row of the table.
  pub In-lookup :
      (i : String) (rows : List FaqRow) (e : FaqCacheEntry)
      → lookup i (entries rows) ≡ some e
      → (r : FaqRow) × In r rows × (to_entry lib r ≡ e)
  In-lookup i [] e h = cc
  In-lookup i (q ∷ rows) e h = elim (Bool-cases (q.id == i)) [
    | inl k ↦ (q, here refl, some-inj (rw k at h))
    | inr k ↦ let (r, m, p) = In-lookup i rows e (rw k at h) in (r, there m, p)
  ]

  pub own_key_of :
      (r : FaqRow) (e : FaqCacheEntry) {key : String}
      → to_entry lib r ≡ e
      → e.cache_key ≡ key
      → r.cache_key ≡ key
  unfolding to_entry
  own_key_of r e q same = ap (λ x. x.cache_key) q ∙ same

  pub row_of_id-some :
      (i : String) (rows : List FaqRow) (r : FaqRow) → row_of_id i rows ≡ some r → r.id ≡ i
  unfolding row_of_id
  row_of_id-some i [] r h = cc
  row_of_id-some i (q ∷ rows) r h = elim (Bool-cases (q.id == i)) [
    | inl e ↦
        let same : q ≡ r = some-inj (rw (e, row_of_id) at h) in rw (← same) ((eq_iff q.id i).0 e)
    | inr e ↦ row_of_id-some i rows r (rw (e, row_of_id) at h)
  ]

  -- A row of a table without a repeated identifier is found under its own.
  pub lookup-In :
      (r : FaqRow) (rows : List FaqRow)
      → IsDict (entries rows)
      → In r rows
      → lookup r.id (entries rows) ≡ some (to_entry lib r)
  lookup-In r [] d m = elim m [ ]
  lookup-In r (q ∷ rows) d (here e) = rw (e, eq_refl q.id) refl
  lookup-In r (q ∷ rows) d (there m) =
      let later = lookup-In r rows d.1 m in
      elim (Bool-cases (q.id == r.id)) [
        | inl e ↦ absurd (cc (d.0, later, (eq_iff q.id r.id).0 e))
        | inr e ↦ rw e later
      ]
