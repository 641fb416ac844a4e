-- ===== src/Scenario/Uncertainty.antt =====
-- services/scenario/uncertainty.py: one scenario under the five KNMI'23 presets, and how far the
-- verdicts lie apart. A run without a card raises, which is `none`. The narrative is left out.
pub mod Spread
use onegov2_spatial_assistan.Prelude.{
  ℕ, ◌≡◌, String, Bool, true, false, not, ◌&&◌, Option, none, some, List, [], ◌∷◌, Dict, lookup_or,
  map, any, length, count_if, eqb, leb, ltb, if◌then◌else◌,
}
use onegov2_spatial_assistan.Floats.{Floats, of_ℕ, zero_float}
use onegov2_spatial_assistan.Filters.Queries.{◌&◌}
use onegov2_spatial_assistan.Scenario.Scoring.{Verdict, least, greatest, sum_of}
use onegov2_spatial_assistan.Scenario.Scoring.Partition.{is_class}
use onegov2_spatial_assistan.Scenario.Params.{ScenarioParams, knmi_dryness}
use onegov2_spatial_assistan.Scenario.Workflow.{
  Engine, Ended, ScenarioCard, run_scenario, verdict_text,
}

abbrev pub knmi_presets : List String
knmi_presets = "B" ∷ "Ln" ∷ "Hn" ∷ "Ld" ∷ "Hd" ∷ []

-- `_RANK`
abbrev pub verdict_rank : Verdict → ℕ
verdict_rank Verdict.go = 0
verdict_rank Verdict.caution = 1
verdict_rank Verdict.stop = 2

-- `set(verdicts)`, as a list without repeats
pub verdict_set : List Verdict → List Verdict
verdict_set [] = []
verdict_set (v ∷ vs) = let rest = verdict_set vs in if any (is_class v) rest then rest else v ∷ rest

-- `max(verdicts, key=...)` and `min(verdicts, key=...)`, from a first verdict on
abbrev pub worse : Verdict → Verdict → Verdict
worse v w = if ltb (verdict_rank v) (verdict_rank w) then w else v

abbrev pub milder : Verdict → Verdict → Verdict
milder v w = if ltb (verdict_rank w) (verdict_rank v) then w else v

pub worst_of : Verdict → List Verdict → Verdict
worst_of v [] = v
worst_of v (w ∷ vs) = worst_of (worse v w) vs

pub best_of : Verdict → List Verdict → Verdict
best_of v [] = v
best_of v (w ∷ vs) = best_of (milder v w) vs

unfoldable pub robustness_of : Bool → ℕ → ℕ → String
robustness_of robust n_go n_stop =
    if robust
    then "robuust"
    else if ltb 0 n_go && ltb 0 n_stop
    then "wankel (knife-edge)"
    else "matig robuust"

module _ (F : Floats) where
  open F use {Float, le, div, decimal, round}

  pub record PresetResult : Type 0 where
    pub preset : String
    pub verdict : Verdict
    pub score : Float
    pub stop_share : Float

  pub record Band : Type 0 where
    pub presets : List PresetResult
    pub score_min : Float
    pub score_max : Float
    pub score_mean : Float
    pub n_total : ℕ
    pub n_stop : ℕ
    pub n_caution : ℕ
    pub n_go : ℕ
    pub worst_case : Verdict
    pub best_case : Verdict
    pub robust : Bool
    pub robustness_nl : String

  abbrev min_of : Float → List Float → Float
  min_of x [] = x
  min_of x (y ∷ ys) = min_of (if le x y then x else y) ys

  abbrev max_of : Float → List Float → Float
  max_of x [] = x
  max_of x (y ∷ ys) = max_of (if le y x then x else y) ys

  -- The band of the results, of which there is a first.
  unfoldable pub band_of : PresetResult → List PresetResult → Band
  unfolding verdict_set worst_of best_of robustness_of
  band_of first rest =
      let verdicts = first.verdict ∷ map (λ r. r.verdict) rest in
      let scores = map (λ r. r.score) rest in
      let n_stop = count_if (is_class Verdict.stop) verdicts in
      let n_go = count_if (is_class Verdict.go) verdicts in
      let robust = eqb (length (verdict_set verdicts)) 1 in
      record {
        presets = first ∷ rest;
        score_min = round (min_of first.score scores) 1;
        score_max = round (max_of first.score scores) 1;
        score_mean = round (div (sum_of F (first.score ∷ scores)) (of_ℕ F (length knmi_presets))) 1;
        n_total = length knmi_presets;
        n_stop = n_stop;
        n_caution = count_if (is_class Verdict.caution) verdicts;
        n_go = n_go;
        worst_case = worst_of first.verdict (map (λ r. r.verdict) rest);
        best_case = best_of first.verdict (map (λ r. r.verdict) rest);
        robust = robust;
        robustness_nl = robustness_of robust n_go n_stop;
      }

  abbrev pub preset_dryness : String → Dict Float
  preset_dryness preset =
      ("knmi_dryness_multiplier", lookup_or preset (knmi_dryness F) (decimal 10 1)) ∷ []

  abbrev pub card_result : String → ScenarioCard F → PresetResult
  card_result preset c = record {
    preset = preset;
    verdict = c.results.feasibility_class;
    score = round c.results.score_avg 1;
    stop_share = c.results.stop_share;
  }

  module _ (E : Engine F) (question : String) (given : Option (ScenarioParams F)) where
    abbrev result_of : String → Ended F → Option PresetResult
    result_of preset (Ended.followup text) = none
    result_of preset (Ended.card c) = some (card_result preset c)

    -- One preset; `fresh` gives the identifier and the clock reading of each card.
    abbrev pub run_preset : (String → String × String) → String → Option PresetResult
    run_preset fresh preset =
        let (sid, created_at) = fresh preset in
        result_of preset
          (run_scenario F E question sid created_at (preset_dryness preset) given none)

    unfoldable pub run_presets :
        (String → String × String) → List String → Option (List PresetResult)
    unfolding run_scenario
    run_presets fresh [] = some []
    run_presets fresh (p ∷ ps) =
        let rest = run_presets fresh ps in
        elim (run_preset fresh p) [
          | none ↦ none
          | some r ↦ elim rest [ none ↦ none | some rs ↦ some (r ∷ rs) ]
        ]

    abbrev pub banded : Option (List PresetResult) → Option Band
    banded (some (r ∷ rs)) = some (band_of r rs)
    banded _ = none

    unfoldable pub run_uncertainty : (String → String × String) → Option Band
    unfolding run_presets band_of
    run_uncertainty fresh = banded (run_presets fresh knmi_presets)
