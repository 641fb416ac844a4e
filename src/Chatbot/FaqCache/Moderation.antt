-- ===== src/Chatbot/FaqCache/Moderation.antt =====
-- What moderation guarantees: `promote`, `reject`, and what later captures do to their results.
use onegov2_spatial_assistan.Prelude.{
  String, ◌≡◌, ◌≢◌, refl, sym, ap, ◌⊎◌, inl, inr, true, false, some, List, [], ◌∷◌, arith, ◌==◌,
  eq_iff, lookup, lookup-insert, lookup-insert_self, ◌∙◌, Bool-cases, Option-cases, In, In.here,
  In.there, if◌then◌else◌,
}
use onegov2_spatial_assistan.Chatbot.FaqCache.{
  FaqCacheEntry, FaqCache, empty, Suggestion, record_suggestion, promote, reject, known_entry,
  repeat_entry, new_entry, is_rejected, is_grounded, published, rejected, Outcome, done,
}
use onegov2_spatial_assistan.Chatbot.FaqCache.Invariant.{
  Call, suggest, promote_entry, reject_entry, step, run, IsFresh, AreFresh, known_entry-some,
}

-- The specification of `promote` on a store: what has changed, or why nothing has.
abbrev pub IsPromotion : String → FaqCache → FaqCache × Outcome → Type 0
IsPromotion i s (s', result) =
    ((result ≡ done)
      × ((e : FaqCacheEntry) × (lookup i s.by_id ≡ some e)
          × (is_rejected e.status ≡ false)
          × (is_grounded e ≡ true)
          × ((j : String)
              → lookup j s'.by_id
                ≡ (if i == j then some (record e { status = published }) else lookup j s.by_id))))
    ⊎ ((result ≢ done)
        × (s' ≡ s)
        × ((e : FaqCacheEntry)
            → lookup i s.by_id ≡ some e
            → (is_rejected e.status ≡ true) ⊎ (is_grounded e ≡ false)))

-- A promotion succeeds exactly for a stored entry that is not rejected and is grounded. Then that
-- entry is published, with nothing else of it or of another entry changed; else nothing changes.
pub promote_lem : (i : String) (s : FaqCache) → IsPromotion i s (promote i s)
unfolding promote
promote_lem i s = elim (Option-cases (lookup i s.by_id)) [
  | inl e ↦ rw (e, promote) (inr ((λ q. cc), refl, λ f q. absurd (cc q)))
  | inr (f, e) ↦ elim (Bool-cases (is_rejected f.status)) [
    | inl r ↦
        rw (e, r, promote)
          (inr ((λ q. cc), refl, λ g q. let same : f ≡ g = cc in inl (rw (← same) r)))
    | inr r ↦ elim (Bool-cases (is_grounded f)) [
      | inl q ↦
          rw (e, r, q, promote)
            (inl (
              refl,
              (f, refl, r, q, λ j. lookup-insert i j (record f { status = published }) s.by_id),
            ))
      | inr q ↦
          rw (e, r, q, promote)
            (inr ((λ d. cc), refl, λ g d. let same : f ≡ g = cc in inr (rw (← same) q)))
    ]
  ]
]

-- What is found after a capture.
pub after_suggest :
    (g : Suggestion) (s : FaqCache)
    → ((j : String) × (f : FaqCacheEntry) × (lookup j s.by_id ≡ some f)
        × ((i : String)
            → lookup i (record_suggestion g s).0.by_id
              ≡ (if j == i then some (repeat_entry g f) else lookup i s.by_id)))
      ⊎ ((i : String)
          → lookup i (record_suggestion g s).0.by_id
            ≡ (if g.fresh_id == i then some (new_entry g) else lookup i s.by_id))
unfolding record_suggestion
after_suggest g s = elim (Option-cases (known_entry s g.key)) [
  | inl e ↦ inr (λ i. rw (e, record_suggestion) (lookup-insert g.fresh_id i (new_entry g) s.by_id))
  | inr ((j, f), e) ↦ inl (
    j,
    f,
    (known_entry-some s g.key j f e).1,
    λ i. rw (e, record_suggestion) (lookup-insert j i (repeat_entry g f) s.by_id),
  )
]

status-repeat_entry : (g : Suggestion) (f : FaqCacheEntry) → (repeat_entry g f).status ≡ f.status
status-repeat_entry g f = ground arith

is_grounded_status :
    (f : FaqCacheEntry) → is_grounded (record f { status = published }) ≡ is_grounded f
unfolding is_grounded
is_grounded_status f = refl

-- The part of an entry that a rejection settles.
abbrev pub StaysRejected : FaqCacheEntry → FaqCacheEntry → Type 0
StaysRejected e f = (f.status ≡ rejected) × (f.answer_nl ≡ e.answer_nl) × (f.sources ≡ e.sources)

rejected_repeat :
    (g : Suggestion) (e : FaqCacheEntry) → e.status ≡ rejected → StaysRejected e (repeat_entry g e)
rejected_repeat g e r = ground arith

after_reject :
    (j : String) (s : FaqCache)
    → ((f : FaqCacheEntry) × (lookup j s.by_id ≡ some f)
        × ((i : String)
            → lookup i (reject j s).0.by_id
              ≡ (if j == i then some (record f { status = rejected }) else lookup i s.by_id)))
      ⊎ ((reject j s).0 ≡ s)
unfolding reject
after_reject j s = elim (Option-cases (lookup j s.by_id)) [
  | inl e ↦ inr (rw (e, reject))
  | inr (f, e) ↦
      inl (f, e, λ i. rw (e, reject) (lookup-insert j i (record f { status = rejected }) s.by_id))
]

-- An entry that one call leaves published was published before it, or the call is its promotion and
-- the entry is grounded.
step_published :
    (c : Call) (s : FaqCache) (i : String) (e : FaqCacheEntry)
    → lookup i (step c s).by_id ≡ some e
    → e.status ≡ published
    → ((f : FaqCacheEntry) × (lookup i s.by_id ≡ some f) × (f.status ≡ published))
      ⊎ ((c ≡ promote_entry i) × (is_grounded e ≡ true))
unfolding step
step_published (suggest g) s i e h p = elim (after_suggest g s) [
  | inl (j, f, found, after) ↦ elim (Bool-cases (j == i)) [
    | inl same ↦
        inl (f, rw (← (eq_iff j i).0 same) found, cc (h, after i, same, status-repeat_entry g f, p))
    | inr other ↦ inl (e, ground (arith, after i), p)
  ]
  | inr after ↦ elim (Bool-cases (g.fresh_id == i)) [
    | inl same ↦
        let made : some (new_entry g) ≡ some e = ground (arith, after i) in
        let is_new : new_entry g ≡ e = cc in
        absurd (cc (ap (λ (x : FaqCacheEntry). x.status) is_new, p))
    | inr other ↦ inl (e, ground (arith, after i), p)
  ]
]
step_published (promote_entry j) s i e h p = elim (promote_lem j s) [
  | inl (d, (f, found, r, grounded, after)) ↦ elim (Bool-cases (j == i)) [
    | inl same ↦
        let is_done : record f { status = published } ≡ e = ground (arith, after i) in
        inr (
          ap promote_entry ((eq_iff j i).0 same),
          cc (ap is_grounded is_done, is_grounded_status f, grounded),
        )
    | inr other ↦ inl (e, ground (arith, after i), p)
  ]
  | inr (d, same, r) ↦ inl (e, ap (λ (t : FaqCache). lookup i t.by_id) (sym same) ∙ h, p)
]
step_published (reject_entry j) s i e h p = elim (after_reject j s) [
  | inl (f, found, after) ↦ elim (Bool-cases (j == i)) [
    | inl same ↦
        let is_done : some (record f { status = rejected }) ≡ some e = ground (arith, after i) in
        let is_new : record f { status = rejected } ≡ e = cc in
        absurd (cc (ap (λ (x : FaqCacheEntry). x.status) is_new, p))
    | inr other ↦ inl (e, ground (arith, after i), p)
  ]
  | inr same ↦ inl (e, ap (λ (t : FaqCache). lookup i t.by_id) (sym same) ∙ h, p)
]

run_published :
    (calls : List Call) (s : FaqCache) (i : String) (e : FaqCacheEntry)
    → lookup i (run calls s).by_id ≡ some e
    → e.status ≡ published
    → ((f : FaqCacheEntry) × (lookup i s.by_id ≡ some f) × (f.status ≡ published))
      ⊎ In (promote_entry i) calls
unfolding run
run_published [] s i e h p = inl (e, h, p)
run_published (c ∷ cs) s i e h p = elim (run_published cs (step c s) i e h p) [
  | inr later ↦ inr (there later)
  | inl (f, found, q) ↦ elim (step_published c s i f found q) [
    | inl before ↦ inl before
    | inr (now, grounded) ↦ inr (here (sym now))
  ]
]

-- From the empty store, an entry is published only if `promote` was called on it.
pub published_was_promoted :
    (calls : List Call) (i : String) (e : FaqCacheEntry)
    → lookup i (run calls empty).by_id ≡ some e
    → e.status ≡ published
    → In (promote_entry i) calls
published_was_promoted calls i e h p = elim (run_published calls empty i e h p) [
  | inl (f, found, q) ↦ absurd (cc found)
  | inr m ↦ m
]

step_rejected :
    (c : Call) (s : FaqCache) (i : String) (e : FaqCacheEntry)
    → IsFresh c s
    → lookup i s.by_id ≡ some e
    → e.status ≡ rejected
    → (f : FaqCacheEntry) × (lookup i (step c s).by_id ≡ some f) × StaysRejected e f
unfolding step
step_rejected (suggest g) s i e fresh h r = elim (after_suggest g s) [
  | inl (j, f, found, after) ↦ elim (Bool-cases (j == i)) [
    | inl same ↦
        let is_e : f ≡ e = ground (arith, eq_iff j i) in
        (repeat_entry g e, ground (arith, after i), rejected_repeat g e r)
    | inr other ↦ (e, ground (arith, after i), (r, refl, refl))
  ]
  | inr after ↦ (e, ground (arith, after i, eq_iff g.fresh_id i), (r, refl, refl))
]
step_rejected (promote_entry j) s i e fresh h r = elim (promote_lem j s) [
  | inl (d, (f, found, q, grounded, after)) ↦
      (e, ground (arith, after i, eq_iff j i), (r, refl, refl))
  | inr (d, same, q) ↦ (e, ap (λ (t : FaqCache). lookup i t.by_id) same ∙ h, (r, refl, refl))
]
step_rejected (reject_entry j) s i e fresh h r = elim (after_reject j s) [
  | inl (f, found, after) ↦ elim (Bool-cases (j == i)) [
    | inl same ↦ (
      record f { status = rejected },
      ground (arith, after i),
      (refl, ground (arith, eq_iff j i), ground (arith, eq_iff j i)),
    )
    | inr other ↦ (e, ground (arith, after i), (r, refl, refl))
  ]
  | inr same ↦ (e, ap (λ (t : FaqCache). lookup i t.by_id) same ∙ h, (r, refl, refl))
]

-- A rejected entry stays rejected under any later calls with fresh identifiers, with its answer and
-- its sources.
pub rejected_stays :
    (calls : List Call) (s : FaqCache) (i : String) (e : FaqCacheEntry)
    → AreFresh calls s
    → lookup i s.by_id ≡ some e
    → e.status ≡ rejected
    → (f : FaqCacheEntry) × (lookup i (run calls s).by_id ≡ some f) × StaysRejected e f
unfolding run
rejected_stays [] s i e fresh h r = (e, h, (r, refl, refl))
rejected_stays (c ∷ cs) s i e fresh h r =
    let (f, found, kept) = step_rejected c s i e fresh.0 h r in
    let (f', found', kept') = rejected_stays cs (step c s) i f fresh.1 found kept.0 in
    (f', found', (kept'.0, kept'.1 ∙ kept.1, kept'.2 ∙ kept.2))

-- A capture whose key leads to a published entry replaces the published answer by the captured one,
-- unless that is the empty text, and the entry stays published under the capture's stamp.
pub published_answer_replaced :
    (g : Suggestion) (s : FaqCache) (i : String) (e : FaqCacheEntry)
    → known_entry s g.key ≡ some (i, e)
    → e.status ≡ published
    → g.answer_nl ≢ ""
    → (f : FaqCacheEntry) × (lookup i (record_suggestion g s).0.by_id ≡ some f)
      × (f.status ≡ published)
      × (f.answer_nl ≡ g.answer_nl)
      × (f.version_stamp ≡ g.version_stamp)
unfolding record_suggestion
published_answer_replaced g s i e known p some_answer = (
  repeat_entry g e,
  rw (known, record_suggestion) (lookup-insert_self i (repeat_entry g e) s.by_id),
  status-repeat_entry g e ∙ p,
  ground (arith, eq_iff g.answer_nl ""),
  ground arith,
)
