-- ===== src/Chatbot/FaqCache/Hits.antt =====
-- The counter `hits` counts the captures of a key.
use onegov2_spatial_assistan.Prelude.{
  ℕ, ◌+◌, String, ◌≡◌, refl, sym, ap, inl, inr, none, some, List, [], ◌∷◌, arith, ◌==◌, eq_iff,
  lookup, insert, lookup-insert, Bool-cases, Option-cases, if◌then◌else◌, ◌∙◌,
}
use onegov2_spatial_assistan.Chatbot.FaqCache.{
  FaqCacheEntry, FaqCache, empty, Suggestion, known_entry, is_rejected, is_grounded, published,
  rejected, repeat_entry, new_entry, record_suggestion, promote, reject,
}
use onegov2_spatial_assistan.Chatbot.FaqCache.Invariant.{
  Call, suggest, promote_entry, reject_entry, step, run, IsFresh, AreFresh, IsConsistent,
  step-IsConsistent, empty-IsConsistent, run-IsConsistent, known_entry-some, known_entry-none,
}

-- The captures of a key among the calls.
abbrev pub captures : String → List Call → ℕ
captures k [] = 0
captures k (suggest g ∷ cs) = if g.key == k then captures k cs + 1 else captures k cs
captures k (_ ∷ cs) = captures k cs

-- The hits of the entry under a key; 0 where there is none.
abbrev pub hits_of : FaqCache → String → ℕ
hits_of s k = elim (lookup k s.key_to_id) [
  | none ↦ 0
  | some i ↦ elim (lookup i s.by_id) [ none ↦ 0 | some e ↦ e.hits ]
]

-- What `hits_of` reads of an entry.
abbrev hits_at : FaqCache → String → ℕ
hits_at s i = elim (lookup i s.by_id) [ none ↦ 0 | some e ↦ e.hits ]

hits_of-some :
    (s : FaqCache) (k i : String) → lookup k s.key_to_id ≡ some i → hits_of s k ≡ hits_at s i
hits_of-some s k i h = ground arith

hits_of-none : (s : FaqCache) (k : String) → lookup k s.key_to_id ≡ none → hits_of s k ≡ 0
hits_of-none s k h = ground arith

same_hits :
    (s t : FaqCache) (k : String)
    → lookup k t.key_to_id ≡ lookup k s.key_to_id
    → ((i : String) → lookup k s.key_to_id ≡ some i → hits_at t i ≡ hits_at s i)
    → hits_of t k ≡ hits_of s k
same_hits s t k same_key same = elim (Option-cases (lookup k s.key_to_id)) [
  | inl e ↦ hits_of-none t k (same_key ∙ e) ∙ sym (hits_of-none s k e)
  | inr (i, e) ↦ hits_of-some t k i (same_key ∙ e) ∙ same i e ∙ sym (hits_of-some s k i e)
]

-- An update of one entry that keeps its hits.
update_hits :
    (s : FaqCache) (j : String) (f f' : FaqCacheEntry) (k : String)
    → lookup j s.by_id ≡ some f
    → f'.hits ≡ f.hits
    → hits_of (record s { by_id = insert j f' s.by_id }) k ≡ hits_of s k
update_hits s j f f' k found same =
    same_hits s (record s { by_id = insert j f' s.by_id }) k refl
      (λ i e. ground (arith, lookup-insert j i f' s.by_id, eq_iff j i))

promote_hits : (i : String) (s : FaqCache) (k : String) → hits_of (promote i s).0 k ≡ hits_of s k
unfolding promote
promote_hits i s k = elim (Option-cases (lookup i s.by_id)) [
  | inl e ↦ rw (e, promote)
  | inr (f, e) ↦ elim (Bool-cases (is_rejected f.status)) [
    | inl r ↦ rw (e, r, promote)
    | inr r ↦ elim (Bool-cases (is_grounded f)) [
      | inl q ↦ rw (e, r, q, promote) (update_hits s i f (record f { status = published }) k e refl)
      | inr q ↦ rw (e, r, q, promote)
    ]
  ]
]

reject_hits : (i : String) (s : FaqCache) (k : String) → hits_of (reject i s).0 k ≡ hits_of s k
unfolding reject
reject_hits i s k = elim (Option-cases (lookup i s.by_id)) [
  | inl e ↦ rw (e, reject)
  | inr (f, e) ↦ rw (e, reject) (update_hits s i f (record f { status = rejected }) k e refl)
]

abbrev counted : Suggestion → String → ℕ
counted g k = if g.key == k then 1 else 0

new_hits :
    (g : Suggestion) (s : FaqCache) (k : String)
    → IsConsistent s
    → lookup g.fresh_id s.by_id ≡ none
    → lookup g.key s.key_to_id ≡ none
    → hits_of
        (record {
          by_id = insert g.fresh_id (new_entry g) s.by_id;
          key_to_id = insert g.key g.fresh_id s.key_to_id;
        })
        k
      ≡ hits_of s k + counted g k
new_hits g s k h unused new_key = elim (Bool-cases (g.key == k)) [
  | inl e ↦ ground (
    arith,
    lookup-insert g.key k g.fresh_id s.key_to_id,
    lookup-insert g.fresh_id g.fresh_id (new_entry g) s.by_id,
    eq_iff g.fresh_id g.fresh_id,
    eq_iff g.key k,
  )
  | inr e ↦ elim (Option-cases (lookup k s.key_to_id)) [
    | inl q ↦ ground (arith, lookup-insert g.key k g.fresh_id s.key_to_id)
    | inr (i, q) ↦
        let (f, found, r) = h.known k i q in
        ground (
          arith,
          lookup-insert g.key k g.fresh_id s.key_to_id,
          lookup-insert g.fresh_id i (new_entry g) s.by_id,
          eq_iff g.fresh_id i,
        )
  ]
]

hits-repeat_entry : (g : Suggestion) (f : FaqCacheEntry) → (repeat_entry g f).hits ≡ f.hits + 1
hits-repeat_entry g f = ground arith

repeat_hits :
    (g : Suggestion) (s : FaqCache) (k j : String) (f : FaqCacheEntry)
    → IsConsistent s
    → lookup g.key s.key_to_id ≡ some j
    → lookup j s.by_id ≡ some f
    → hits_of (record s { by_id = insert j (repeat_entry g f) s.by_id }) k
      ≡ hits_of s k + counted g k
repeat_hits g s k j f h known found = elim (Bool-cases (g.key == k)) [
  | inl e ↦ ground (
    arith,
    lookup-insert j j (repeat_entry g f) s.by_id,
    eq_iff j j,
    eq_iff g.key k,
    hits-repeat_entry g f,
  )
  | inr e ↦ elim (Option-cases (lookup k s.key_to_id)) [
    | inl q ↦ ground arith
    | inr (i, q) ↦
        let (f1, found1, key1) = h.known k i q in
        let (f2, found2, key2) = h.known g.key j known in
        ground (arith, lookup-insert j i (repeat_entry g f) s.by_id, eq_iff j i, eq_iff g.key k)
  ]
]

step_hits :
    (c : Call) (s : FaqCache) (k : String)
    → IsConsistent s
    → IsFresh c s
    → hits_of (step c s) k ≡ hits_of s k + captures k (c ∷ [])
unfolding step record_suggestion
step_hits (suggest g) s k h fresh = elim (Option-cases (known_entry s g.key)) [
  | inl e ↦
      let out : (record_suggestion g s).0 ≡ record {
        by_id = insert g.fresh_id (new_entry g) s.by_id;
        key_to_id = insert g.key g.fresh_id s.key_to_id;
      } =
        rw (e, record_suggestion) refl in
      ap (λ (t : FaqCache). hits_of t k) out
      ∙ new_hits g s k h fresh.1 (known_entry-none s g.key h e)
      ∙ ground arith
  | inr ((j, f), e) ↦
      let found = known_entry-some s g.key j f e in
      let out : (record_suggestion g s).0
          ≡ record s { by_id = insert j (repeat_entry g f) s.by_id } =
        rw (e, record_suggestion) refl in
      ap (λ (t : FaqCache). hits_of t k) out
      ∙ repeat_hits g s k j f h found.0 found.1
      ∙ ground arith
]
step_hits (promote_entry i) s k h fresh = promote_hits i s k ∙ omega arith
step_hits (reject_entry i) s k h fresh = reject_hits i s k ∙ omega arith

captures-cons :
    (k : String) (c : Call) (cs : List Call)
    → captures k (c ∷ cs) ≡ captures k (c ∷ []) + captures k cs
captures-cons k (suggest g) cs = ground arith
captures-cons k (promote_entry i) cs = omega arith
captures-cons k (reject_entry i) cs = omega arith

run_hits :
    (calls : List Call) (s : FaqCache) (k : String)
    → IsConsistent s
    → AreFresh calls s
    → hits_of (run calls s) k ≡ hits_of s k + captures k calls
unfolding run
run_hits [] s k h fresh = omega arith
run_hits (c ∷ cs) s k h fresh = omega (
  arith,
  run_hits cs (step c s) k (step-IsConsistent c s h fresh.0) fresh.1,
  step_hits c s k h fresh.0,
  captures-cons k c cs,
)

-- After any calls with fresh identifiers on the empty store, the hits of an entry are the number of
-- captures of its key.
pub hits_count :
    (calls : List Call) (i : String) (e : FaqCacheEntry)
    → AreFresh calls empty
    → lookup i (run calls empty).by_id ≡ some e
    → e.hits ≡ captures e.cache_key calls
hits_count calls i e fresh found =
    let h = run-IsConsistent calls empty empty-IsConsistent fresh in
    let total = run_hits calls empty e.cache_key empty-IsConsistent fresh in
    let at_key = hits_of-some (run calls empty) e.cache_key i (h.own_key i e found) in
    let read : hits_at (run calls empty) i ≡ e.hits = ground arith in
    sym read ∙ sym at_key ∙ total ∙ omega arith
