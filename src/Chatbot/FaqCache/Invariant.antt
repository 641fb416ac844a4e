-- ===== src/Chatbot/FaqCache/Invariant.antt =====
-- One entry to a cache key: the two dicts of the store agree, whatever is called on it.
use onegov2_spatial_assistan.Prelude.{
  String, ◌≡◌, ◌≢◌, refl, inl, inr, none, some, List, [], ◌∷◌, arith, ◌==◌, eq_iff, lookup, insert,
  lookup-insert, Bool-cases, Option-cases,
}
use onegov2_spatial_assistan.Chatbot.FaqCache.{
  FaqCacheEntry, FaqCache, empty, Suggestion, record_suggestion, promote, reject, known_entry,
  repeat_entry, new_entry, is_rejected, is_grounded, published, rejected,
}

-- The calls that change a store.
pub data Call : Type 0 where
  suggest : Suggestion → Call
  promote_entry reject_entry : String → Call

unfoldable pub step : Call → FaqCache → FaqCache
step (suggest g) s = (record_suggestion g s).0
step (promote_entry i) s = (promote i s).0
step (reject_entry i) s = (reject i s).0

unfoldable pub run : List Call → FaqCache → FaqCache
unfolding step
run [] s = s
run (c ∷ cs) s = run cs (step c s)

-- What `uuid.uuid4()` promises: the identifier is not empty and not in use.
abbrev pub IsFresh : Call → FaqCache → Type 0
IsFresh (suggest g) s = (g.fresh_id ≢ "") × (lookup g.fresh_id s.by_id ≡ none)
IsFresh _ s = Unit

abbrev pub AreFresh : List Call → FaqCache → Type 0
AreFresh [] s = Unit
AreFresh (c ∷ cs) s = IsFresh c s × AreFresh cs (step c s)

pub record IsConsistent (s : FaqCache) : Type 0 where
  pub own_id : (i : String) (e : FaqCacheEntry) → lookup i s.by_id ≡ some e → (e.id ≡ i) × (i ≢ "")
  pub own_key :
      (i : String) (e : FaqCacheEntry)
      → lookup i s.by_id ≡ some e
      → lookup e.cache_key s.key_to_id ≡ some i
  pub known :
      (k i : String)
      → lookup k s.key_to_id ≡ some i
      → (e : FaqCacheEntry) × (lookup i s.by_id ≡ some e) × (e.cache_key ≡ k)

-- An update of one entry that keeps its identifier and its key.
pub update-IsConsistent :
    (i : String) (e e' : FaqCacheEntry) (s : FaqCache)
    → lookup i s.by_id ≡ some e
    → e'.id ≡ e.id
    → e'.cache_key ≡ e.cache_key
    → IsConsistent s
    → IsConsistent (record s { by_id = insert i e' s.by_id })
update-IsConsistent i e e' s found same_id same_key h = record {
  own_id = λ j f p.
      grind (arith, lookup-insert i j e' s.by_id, h.own_id i e found, h.own_id j f, eq_iff i j);
  own_key = λ j f p.
      ground (arith, lookup-insert i j e' s.by_id, h.own_key i e found, h.own_key j f, eq_iff i j);
  known = λ k j p.
      let (f, q, r) = h.known k j p in
      elim (Bool-cases (i == j)) [
        | inl same ↦ (e', ground (arith, lookup-insert i j e' s.by_id), ground (arith, eq_iff i j))
        | inr other ↦ (f, ground (arith, lookup-insert i j e' s.by_id), r)
      ];
}

pub known_entry-some :
    (s : FaqCache) (k i : String) (e : FaqCacheEntry)
    → known_entry s k ≡ some (i, e)
    → (lookup k s.key_to_id ≡ some i) × (lookup i s.by_id ≡ some e)
known_entry-some s k i e h = ground arith

pub known_entry-none :
    (s : FaqCache) (k : String)
    → IsConsistent s
    → known_entry s k ≡ none
    → lookup k s.key_to_id ≡ none
known_entry-none s k h e = elim (Option-cases (lookup k s.key_to_id)) [
  | inl q ↦ q
  | inr (i, q) ↦
      let (f, found, r) = h.known k i q in
      let named = h.own_id i f found in absurd (ground (arith, eq_iff i ""))
]

new-IsConsistent :
    (g : Suggestion) (s : FaqCache)
    → IsConsistent s
    → g.fresh_id ≢ ""
    → lookup g.fresh_id s.by_id ≡ none
    → lookup g.key s.key_to_id ≡ none
    → IsConsistent (record {
      by_id = insert g.fresh_id (new_entry g) s.by_id;
      key_to_id = insert g.key g.fresh_id s.key_to_id;
    })
new-IsConsistent g s h named unused new_key = record {
  own_id = λ j f p.
      ground (
        arith,
        lookup-insert g.fresh_id j (new_entry g) s.by_id,
        h.own_id j f,
        eq_iff g.fresh_id j,
      );
  own_key = λ j f p. ground (
    arith,
    lookup-insert g.fresh_id j (new_entry g) s.by_id,
    lookup-insert g.key f.cache_key g.fresh_id s.key_to_id,
    h.own_key j f,
    eq_iff g.fresh_id j,
    eq_iff g.key f.cache_key,
  );
  known = λ k j p. elim (Bool-cases (g.key == k)) [
    | inl same ↦ (
      new_entry g,
      ground (
        arith,
        lookup-insert g.fresh_id j (new_entry g) s.by_id,
        lookup-insert g.key k g.fresh_id s.key_to_id,
        eq_iff g.fresh_id j,
      ),
      ground (arith, eq_iff g.key k),
    )
    | inr other ↦
        let old : lookup k s.key_to_id ≡ some j =
          ground (arith, lookup-insert g.key k g.fresh_id s.key_to_id) in
        let (f, q, r) = h.known k j old in
        (
          f,
          ground (arith, lookup-insert g.fresh_id j (new_entry g) s.by_id, eq_iff g.fresh_id j),
          r,
        )
  ];
}

record_suggestion-IsConsistent :
    (g : Suggestion) (s : FaqCache)
    → IsConsistent s
    → IsFresh (suggest g) s
    → IsConsistent (record_suggestion g s).0
unfolding record_suggestion
record_suggestion-IsConsistent g s h fresh = elim (Option-cases (known_entry s g.key)) [
  | inl e ↦
      rw (e, record_suggestion)
        (new-IsConsistent g s h fresh.0 fresh.1 (known_entry-none s g.key h e))
  | inr ((i, f), e) ↦
      let found = known_entry-some s g.key i f e in
      rw (e, record_suggestion)
        (update-IsConsistent i f (repeat_entry g f) s found.1 (ground arith) (ground arith) h)
]

promote-IsConsistent : (i : String) (s : FaqCache) → IsConsistent s → IsConsistent (promote i s).0
unfolding promote
promote-IsConsistent i s h = elim (Option-cases (lookup i s.by_id)) [
  | inl e ↦ rw (e, promote) h
  | inr (f, e) ↦
      rw (e, promote)
        (elim (Bool-cases (is_rejected f.status)) [
          | inl r ↦ rw r h
          | inr r ↦ rw r (elim (Bool-cases (is_grounded f)) [
            | inl q ↦
                rw q (update-IsConsistent i f (record f { status = published }) s e refl refl h)
            | inr q ↦ rw q h
          ])
        ])
]

reject-IsConsistent : (i : String) (s : FaqCache) → IsConsistent s → IsConsistent (reject i s).0
unfolding reject
reject-IsConsistent i s h = elim (Option-cases (lookup i s.by_id)) [
  | inl e ↦ rw (e, reject) h
  | inr (f, e) ↦
      rw (e, reject) (update-IsConsistent i f (record f { status = rejected }) s e refl refl h)
]

pub step-IsConsistent :
    (c : Call) (s : FaqCache) → IsConsistent s → IsFresh c s → IsConsistent (step c s)
unfolding step
step-IsConsistent (suggest g) s h fresh = record_suggestion-IsConsistent g s h fresh
step-IsConsistent (promote_entry i) s h fresh = promote-IsConsistent i s h
step-IsConsistent (reject_entry i) s h fresh = reject-IsConsistent i s h

-- Any calls, in any order, with fresh identifiers keep the two dicts in agreement: an entry is found
-- under its own identifier, its key leads to it, and each key leads to an entry of that key.
pub run-IsConsistent :
    (calls : List Call) (s : FaqCache)
    → IsConsistent s
    → AreFresh calls s
    → IsConsistent (run calls s)
unfolding run
run-IsConsistent [] s h fresh = h
run-IsConsistent (c ∷ cs) s h fresh =
    run-IsConsistent cs (step c s) (step-IsConsistent c s h fresh.0) fresh.1

pub empty-IsConsistent : IsConsistent empty
empty-IsConsistent = record {
  own_id = λ i e p. cc;
  own_key = λ i e p. cc;
  known = λ k i p. absurd (cc p);
}

-- Two entries of a consistent store with one cache key are one entry.
pub one_entry_per_key :
    (s : FaqCache) (i j : String) (e f : FaqCacheEntry)
    → IsConsistent s
    → lookup i s.by_id ≡ some e
    → lookup j s.by_id ≡ some f
    → e.cache_key ≡ f.cache_key
    → i ≡ j
one_entry_per_key s i j e f h found found' same =
    cc (h.own_key i e found, h.own_key j f found', same)
