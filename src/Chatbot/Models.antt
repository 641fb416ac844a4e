-- ===== src/Chatbot/Models.antt =====
-- services/chatbot/models.py: citations, passages and answers, and the removal of repeated citations.
pub mod Citations
mod Tests
use onegov2_spatial_assistan.Prelude.{
  String, Bool, true, false, ◌||◌, ◌&&◌, Option, List, [], ◌∷◌, ◌==◌, if◌then◌else◌,
}
use onegov2_spatial_assistan.Floats.{Floats}

pub record Citation : Type 0 where
  pub source_id : String
  pub title_nl : String
  pub url : String
  pub locator : String
  pub kind : String

pub record Passage : Type 0 where
  pub id : String
  pub text_nl : String
  pub citation : Citation
  pub tags : List String

module _ (F : Floats) where
  open F use {Float}

  pub record RetrievedPassage : Type 0 where
    pub passage : Passage
    pub score : Float

  pub record ChatAnswer : Type 0 where
    pub answer_nl : String
    pub intent : String
    pub confidence : Float
    pub citations : List Citation
    pub sources_considered : List Citation
    pub followup_nl : Option String
    pub used_llm : Bool
    pub scenario_id : Option String

-- Two citations have one key, `(source_id, locator)`.
abbrev pub same_key : Citation → Citation → Bool
same_key a b = a.source_id == b.source_id && a.locator == b.locator

abbrev pub seen_before : Citation → List Citation → Bool
seen_before c [] = false
seen_before c (d ∷ seen) = same_key c d || seen_before c seen

-- The loop; `seen` holds what has been put out, whose keys are the set of the source.
pub dedupe_from : List Citation → List Citation → List Citation
dedupe_from seen [] = []
dedupe_from seen (c ∷ cs) =
    let rest = dedupe_from (c ∷ seen) cs in
    let skipped = dedupe_from seen cs in if seen_before c seen then skipped else c ∷ rest

unfoldable pub dedupe_citations : List Citation → List Citation
unfolding dedupe_from
dedupe_citations = dedupe_from []
