-- ===== src/Chatbot/Retrieval/Ranking.antt =====
-- `retrieve` of services/chatbot/retrieval.py: which passages it yields, and in which order.
use onegov2_spatial_assistan.Prelude.{
  ℕ, ◌≤◌, ◌⊎◌, false, arith, text_le_total, text_le_trans, All, All-intro, subst, ap, map-In,
  In-map, ◌∙◌, IsSorted, IsSorted-take, sort_by-IsSorted, length, length-take_le, In-sort_by,
  take_or_after, take, sort_by, ◌≡◌, refl, inl, inr, String, true, List, [], ◌∷◌, map, sort_by_inv,
  In, In.here, In.there, In-inv, In-take, Bool-cases,
}
use onegov2_spatial_assistan.Floats.{Floats, IsOrdered, flt, zero_float}
use onegov2_spatial_assistan.Chatbot.Models.{Passage, RetrievedPassage}
use onegov2_spatial_assistan.Chatbot.Text.{content_tokens, expand_tokens}
use onegov2_spatial_assistan.Chatbot.Retrieval.{
  Document, document_of, vocab_of, Runtime, Retriever, init, scored, retrieve, score, boosted,
  ranks_before,
}

module _ (F : Floats) (R : Runtime F) where
  -- What is scored is the passage of a document, with a positive score.
  scored-In :
      (r : Retriever F) (q tags kinds : List String) (docs : List Document) {p : RetrievedPassage F}
      → In p (scored F R r q tags kinds docs)
      → In p.passage (map (λ d. d.passage) docs) × (flt F (zero_float F) p.score ≡ true)
  unfolding scored
  scored-In r q tags kinds [] m = elim m [ ]
  scored-In r q tags kinds (d ∷ docs) m =
      elim (Bool-cases
        (flt F (zero_float F) (boosted F R tags kinds d.passage (score F R r q d)))) [
          | inl e ↦ elim (In-inv (rw e at m)) [
            | inl same ↦ (here (rw same refl), rw same e)
            | inr old ↦ let t = scored-In r q tags kinds docs old in (there t.0, t.1)
          ]
          | inr e ↦ let t = scored-In r q tags kinds docs (rw e at m) in (there t.0, t.1)
        ]

  passages_of_docs :
      (vocab : List String) (passages : List Passage)
      → map (λ d. d.passage) (map (document_of vocab) passages) ≡ passages
  unfolding document_of
  passages_of_docs vocab [] = refl
  passages_of_docs vocab (p ∷ passages) = rw (passages_of_docs vocab passages) refl

  -- A retrieved passage is one of the knowledge base and has a positive score.
  pub retrieve-In :
      (passages : List Passage) (query : String) (k : ℕ) (tags kinds : List String)
      {p : RetrievedPassage F}
      → In p (retrieve F R (init F R passages) query k tags kinds)
      → In p.passage passages × (flt F (zero_float F) p.score ≡ true)
  unfolding retrieve init
  retrieve-In passages query k tags kinds m =
      let r = init F R passages in
      let q = expand_tokens (content_tokens query) r.vocab in
      let t = scored-In r q tags kinds r.docs (sort_by_inv (ranks_before F) _ (In-take k _ m)) in
      (rw (passages_of_docs (vocab_of passages) passages) at t.0, t.1)

  -- A document with its score for the terms of a question, under the boosts.
  abbrev pub retrieved_as :
      Retriever F → List String → List String → List String → Document → RetrievedPassage F
  retrieved_as r q tags kinds d = record {
    passage = d.passage;
    score = boosted F R tags kinds d.passage (score F R r q d);
  }

  ranks_total :
      IsOrdered F
      → (x y : RetrievedPassage F) → ranks_before F x y ≡ false
      → ranks_before F y x ≡ true
  ranks_total o x y h = ground (
    arith,
    o.le_total x.score y.score,
    o.le_total y.score x.score,
    text_le_total x.passage.id y.passage.id,
  )

  ranks_trans :
      IsOrdered F
      → (x y z : RetrievedPassage F) → ranks_before F x y ≡ true
      → ranks_before F y z ≡ true
      → ranks_before F x z ≡ true
  ranks_trans o x y z h k = ground (
    arith,
    o.le_trans x.score y.score z.score,
    o.le_trans z.score y.score x.score,
    o.le_trans z.score x.score y.score,
    o.le_trans y.score z.score x.score,
    o.le_trans x.score z.score y.score,
    o.le_trans y.score x.score z.score,
    o.le_total x.score y.score,
    o.le_total y.score z.score,
    o.le_total x.score z.score,
    text_le_trans x.passage.id y.passage.id z.passage.id,
  )

  In-scored :
      (r : Retriever F) (q tags kinds : List String) (docs : List Document) (d : Document)
      → In d docs
      → flt F (zero_float F) (retrieved_as r q tags kinds d).score ≡ true
      → In (retrieved_as r q tags kinds d) (scored F R r q tags kinds docs)
  unfolding scored
  In-scored r q tags kinds [] d m h = elim m [ ]
  In-scored r q tags kinds (e ∷ docs) d m h = elim (In-inv m) [
    | inl same ↦
        let found : flt F (zero_float F) (retrieved_as r q tags kinds e).score ≡ true =
          subst (λ x. flt F (zero_float F) (retrieved_as r q tags kinds x).score ≡ true) same h in
        rw found (here (ap (retrieved_as r q tags kinds) same))
    | inr t ↦
        let later = In-scored r q tags kinds docs d t h in
        elim (Bool-cases (flt F (zero_float F) (retrieved_as r q tags kinds e).score)) [
          | inl p ↦ rw p (there later)
          | inr p ↦ rw p later
        ]
  ]

  scored_as :
      (r : Retriever F) (q tags kinds : List String) (docs : List Document) (x : RetrievedPassage F)
      → In x (scored F R r q tags kinds docs)
      → (d : Document) × In d docs × (x ≡ retrieved_as r q tags kinds d)
  unfolding scored
  scored_as r q tags kinds [] x m = elim m [ ]
  scored_as r q tags kinds (e ∷ docs) x m =
      elim (Bool-cases (flt F (zero_float F) (retrieved_as r q tags kinds e).score)) [
        | inl p ↦ elim (In-inv (rw p at m)) [
          | inl same ↦ (e, here refl, same)
          | inr t ↦ let (d, n, same) = scored_as r q tags kinds docs x t in (d, there n, same)
        ]
        | inr p ↦
            let (d, n, same) = scored_as r q tags kinds docs x (rw p at m) in (d, there n, same)
      ]

  module _ (passages : List Passage) (query : String) (k : ℕ) (tags kinds : List String) where
    -- A passage as the retriever scores it for the question.
    abbrev pub result_of : Passage → RetrievedPassage F
    result_of p =
        let r = init F R passages in
        retrieved_as r (expand_tokens (content_tokens query) r.vocab) tags kinds
          (document_of (vocab_of passages) p)

    -- `out` is the best `k` of the passages with a positive score, best first.
    pub record IsRanking (out : List (RetrievedPassage F)) : Type 0 where
      pub at_most : length out ≤ k
      pub ranked : IsSorted (ranks_before F) out
      pub scored_passages :
          All
            (λ x.
              (flt F (zero_float F) x.score ≡ true)
              × ((p : Passage) × In p passages × (x ≡ result_of p)))
            out
      pub nothing_better :
          All
            (λ p.
              (flt F (zero_float F) (result_of p).score ≡ false)
              ⊎ In (result_of p) out
              ⊎ ((length out ≡ k) × All (λ x. ranks_before F x (result_of p) ≡ true) out))
            passages

    -- The passages that are retrieved are at most `k`, each one of the knowledge base with its own
    -- positive score under the boosts, the higher score first and equal scores by their identifiers;
    -- and a passage with a positive score that is missing comes after the `k` that are there.
    pub retrieve-IsRanking :
        IsOrdered F → IsRanking (retrieve F R (init F R passages) query k tags kinds)
    unfolding retrieve init
    retrieve-IsRanking o =
        let r = init F R passages in
        let q = expand_tokens (content_tokens query) r.vocab in
        let all = scored F R r q tags kinds r.docs in
        let before = ranks_before F in
        let ordered = sort_by-IsSorted before (ranks_total o) (ranks_trans o) all in
        record {
          at_most = length-take_le k (sort_by before all);
          ranked = IsSorted-take before k (sort_by before all) ordered;
          scored_passages = All-intro _ (take k (sort_by before all)) (λ x m.
              let (d, n, same) =
                scored_as r q tags kinds r.docs x
                  (sort_by_inv before all (In-take k (sort_by before all) m)) in
              let (p, here_p, e) = In-map (document_of (vocab_of passages)) passages n in
              (
                (retrieve-In passages query k tags kinds m).1,
                (p, here_p, same ∙ ap (retrieved_as r q tags kinds) e),
              ));
          nothing_better = All-intro _ passages (λ p m.
              elim (Bool-cases (flt F (zero_float F) (result_of p).score)) [
                | inr e ↦ inl e
                | inl e ↦ inr (
                    take_or_after before (ranks_total o) (ranks_trans o) k (sort_by before all)
                      ordered
                      (In-sort_by before all (
                        In-scored r q tags kinds r.docs _
                          (map-In (document_of (vocab_of passages)) passages m) e)))
              ]);
        }
