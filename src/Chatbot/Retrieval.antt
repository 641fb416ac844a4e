-- ===== src/Chatbot/Retrieval.antt =====
-- services/chatbot/retrieval.py: the BM25 ranking of the passages of the knowledge base, and the
-- part of a question that the passages found cover.
-- A `Counter` is a dict of counts. `math.log` and the order in which Python goes through a set of
-- texts are parameters.
pub mod Ranking
use onegov2_spatial_assistan.Prelude.{
  ℕ, suc, ◌+◌, String, Bool, true, false, not, ◌&&◌, ◌||◌, Option, none, some, List, [], ◌∷◌, ◌++◌,
  map, any, keep, take, length, Dict, lookup, lookup_or, insert, has_key, leb, ◌==◌, chars, one_of,
  text_le, distinct, insert_by, sort_by, if◌then◌else◌, is_empty,
}
use onegov2_spatial_assistan.Floats.{Floats, flt, of_ℕ, zero_float}
use onegov2_spatial_assistan.Chatbot.Models.{Passage, RetrievedPassage}
use onegov2_spatial_assistan.Chatbot.Text.{compound_seed, content_tokens, expand_tokens}

-- `Counter(terms)`
abbrev pub counter : List String → Dict ℕ
counter [] = []
counter (t ∷ terms) = let counts = counter terms in insert t (suc (lookup_or t counts 0)) counts

-- The words of a vocabulary that are long enough to be part of a compound.
unfoldable pub vocab_of : List Passage → List String
unfolding content_tokens distinct
vocab_of [] = []
vocab_of (p ∷ passages) =
    keep (λ w. leb 4 (chars w)) (distinct (content_tokens p.text_nl)) ++ vocab_of passages

-- A passage with its terms, their counts and its length.
pub record Document : Type 0 where
  pub passage : Passage
  pub terms : List String
  pub freqs : Dict ℕ
  pub size : ℕ

unfoldable pub document_of : List String → Passage → Document
unfolding content_tokens expand_tokens
document_of vocab p =
    let terms = expand_tokens (content_tokens p.text_nl) vocab in
    record { passage = p; terms = terms; freqs = counter terms; size = length terms }

-- In how many documents each term stands.
abbrev pub count_terms : List String → Dict ℕ → Dict ℕ
count_terms [] df = df
count_terms (t ∷ terms) df = count_terms terms (insert t (suc (lookup_or t df 0)) df)

unfoldable pub document_frequency : List Document → Dict ℕ → Dict ℕ
unfolding distinct
document_frequency [] df = df
document_frequency (d ∷ docs) df = document_frequency docs (count_terms (distinct d.terms) df)

abbrev pub total_size : List Document → ℕ
total_size [] = 0
total_size (d ∷ docs) = let rest = total_size docs in d.size + rest

-- What the program takes from Python: `math.log` and the order of a set.
pub record Runtime (F : Floats) : Type 0 where
  pub log : F.Float → F.Float
  pub set_order : List String → List String

pub record Retriever (F : Floats) : Type 0 where
  pub k1 : F.Float
  pub b : F.Float
  pub vocab : List String
  pub docs : List Document
  pub avgdl : F.Float
  pub idf : Dict F.Float

module _ (F : Floats) where
  open F use {Float, le, add, sub, mul, div, decimal}

  abbrev pub confidence_threshold : Float
  confidence_threshold = decimal 34 2

  -- `not x` of a float
  abbrev pub is_zero : Float → Bool
  is_zero x = le x (zero_float F) && le (zero_float F) x

  -- A smaller key `(-score, id)` or the same one
  abbrev pub ranks_before : RetrievedPassage F → RetrievedPassage F → Bool
  ranks_before x y =
      if flt F y.score x.score
      then true
      else if flt F x.score y.score
      then false
      else text_le x.passage.id y.passage.id

  module _ (R : Runtime F) where
    open R use {log, set_order}

    abbrev pub idf_of : ℕ → ℕ → Float
    idf_of n dfi =
        let half = decimal 5 1 in
        log (add (of_ℕ F 1) (div (add (sub (of_ℕ F n) (of_ℕ F dfi)) half) (add (of_ℕ F dfi) half)))

    -- `BM25Retriever(passages)`
    unfoldable pub init : List Passage → Retriever F
    unfolding vocab_of document_of document_frequency
    init passages =
        let vocab = vocab_of passages in
        let docs = map (document_of vocab) passages in
        let n = length docs in
        record {
          k1 = decimal 15 1;
          b = decimal 75 2;
          vocab = vocab;
          docs = docs;
          avgdl = if is_empty docs then zero_float F else div (of_ℕ F (total_size docs)) (of_ℕ F n);
          idf = map (λ e. (e.0, idf_of n e.1)) (document_frequency docs []);
        }

    -- The summand of one term
    abbrev pub term_score : Retriever F → Document → String → ℕ → Float
    term_score r d term tf =
        let one = of_ℕ F 1 in
        let ratio = if is_zero r.avgdl then one else div (of_ℕ F d.size) r.avgdl in
        let denom = add (of_ℕ F tf) (mul r.k1 (add (sub one r.b) (mul r.b ratio))) in
        let idf = lookup_or term r.idf (zero_float F) in
        div (mul idf (mul (of_ℕ F tf) (add r.k1 one))) denom

    abbrev pub add_scores : Retriever F → Document → List String → Float → Float
    add_scores r d [] score = score
    add_scores r d (term ∷ terms) score =
        add_scores r d terms (elim (lookup term d.freqs) [
          | none ↦ score
          | some tf ↦ add score (term_score r d term tf)
        ])

    unfoldable pub score : Retriever F → List String → Document → Float
    unfolding distinct
    score r q_terms d = add_scores r d (set_order (distinct q_terms)) (zero_float F)

    -- What the two boosts make of a score
    abbrev pub boosted : List String → List String → Passage → Float → Float
    boosted boost_tags boost_kinds p s =
        let boost = decimal 16 1 in
        let tagged = if any (λ t. one_of t p.tags) boost_tags then mul s boost else s in
        if one_of p.citation.kind boost_kinds then mul tagged boost else tagged

    unfoldable pub scored :
        Retriever F
        → List String
        → List String
        → List String
        → List Document
        → List (RetrievedPassage F)
    unfolding score
    scored r q_terms boost_tags boost_kinds [] = []
    scored r q_terms boost_tags boost_kinds (d ∷ docs) =
        let rest = scored r q_terms boost_tags boost_kinds docs in
        let s = boosted boost_tags boost_kinds d.passage (score r q_terms d) in
        if flt F (zero_float F) s then record { passage = d.passage; score = s } ∷ rest else rest

    unfoldable pub retrieve :
        Retriever F → String → ℕ → List String → List String → List (RetrievedPassage F)
    unfolding scored sort_by content_tokens expand_tokens
    retrieve r query top_k boost_tags boost_kinds =
        let q_terms = expand_tokens (content_tokens query) r.vocab in
        take top_k (sort_by ranks_before (scored r q_terms boost_tags boost_kinds r.docs))

    abbrev pub idf_floor : Float
    idf_floor = decimal 2 1

    abbrev pub idf_for : Retriever F → String → Float
    idf_for r term = lookup_or term r.idf idf_floor

    -- `_terms_by_id`: of two passages with one id the later one counts.
    abbrev pub terms_by_id : List Document → Dict (List String) → Dict (List String)
    terms_by_id [] index = index
    terms_by_id (d ∷ docs) index = terms_by_id docs (insert d.passage.id d.terms index)

    abbrev pub found_terms : Dict (List String) → List (RetrievedPassage F) → List String
    found_terms index [] = []
    found_terms index (p ∷ retrieved) =
        lookup_or p.passage.id index [] ++ found_terms index retrieved

    -- `max` over the candidates
    abbrev pub heaviest : Retriever F → Float → List String → Float
    heaviest r w [] = w
    heaviest r w (c ∷ cs) = heaviest r (if le (idf_for r c) w then w else idf_for r c) cs

    -- The loop over the tokens of the question: the covered mass and the total mass.
    abbrev pub masses : Retriever F → List String → List String → Float × Float → Float × Float
    masses r found [] m = m
    masses r found (t ∷ tokens) (covered, total) =
        let parts = lookup_or t compound_seed [] in
        let weight = heaviest r (idf_for r t) parts in
        masses r found tokens (
          if any (λ c. one_of c found) (t ∷ parts) then add covered weight else covered,
          add total weight,
        )

    -- `list(dict.fromkeys(tokens))`: the first of each token, in order
    abbrev pub first_of_each : List String → List String → List String
    first_of_each seen [] = []
    first_of_each seen (t ∷ tokens) =
        if one_of t seen then first_of_each seen tokens else t ∷ first_of_each (t ∷ seen) tokens

    unfoldable pub coverage : Retriever F → String → List (RetrievedPassage F) → Float
    unfolding content_tokens
    coverage r query retrieved =
        let q_content = first_of_each [] (content_tokens query) in
        let found = found_terms (terms_by_id r.docs []) retrieved in
        let m = masses r found q_content (zero_float F, zero_float F) in
        if is_empty q_content || is_zero m.1 then zero_float F else div m.0 m.1
