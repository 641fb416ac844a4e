-- ===== src/Scenario/Workflow.antt =====
-- services/scenario/workflow.py: the graph that turns a question into a scenario card. The extraction
-- of parameters, the rows of the joins, the hash, the clock, the identifier, the commit and the
-- formats of numbers are parameters.
pub mod Cards
mod Tests
use onegov2_spatial_assistan.Prelude.{
  ℕ, suc, ◌+◌, String, Bool, true, false, not, ◌||◌, ◌&&◌, Option, none, some, List, [], ◌∷◌, ◌++◌,
  ◌==◌, Dict, lookup, lookup_or, merge, map, take, length, join, contains_text, sort_by,
  if◌then◌else◌,
}
use onegov2_spatial_assistan.Floats.{Floats, of_ℕ, zero_float}
use onegov2_spatial_assistan.Filters.Queries.{◌&◌}
use onegov2_spatial_assistan.Scenario.Scoring.{Verdict, Joined, AreaScore, score_h3_area}
use onegov2_spatial_assistan.Scenario.Params.{ScenarioParams, knmi_dryness, params_to_assumptions}
use onegov2_spatial_assistan.Scenario.Positions.{
  OfficialPosition, Document, get_official_position, disclaimer_nl,
}
use onegov2_spatial_assistan.Scenario.Area.{Region, Area, select_h3_area}

abbrev pub themes_used : List String
themes_used =
    "verzilting" ∷ "overstromingen_kwetsbaarheid" ∷ "zes_uur_zones_drinkwater"
    ∷ "cbs_vierkantstatistieken" ∷ []

abbrev pub verdict_text : Verdict → String
verdict_text Verdict.go = "GO"
verdict_text Verdict.caution = "CAUTION"
verdict_text Verdict.stop = "STOP"

pub record ReasoningStep : Type 0 where
  pub step_nr : ℕ
  pub label_nl : String
  pub description_nl : String
  pub datasets_used : List String
  pub calculated_value : Option String

-- The position as it stands on a card.
pub record PositionOnCard : Type 0 where
  pub primary : String
  pub disclaimer : String
  pub documents : List Document

-- `_step`: the steps are numbered from 1.
unfoldable pub add_step :
    List ReasoningStep → String → String → List String → Option String → List ReasoningStep
add_step steps label desc datasets value =
    steps
    ++ record {
      step_nr = length steps + 1;
      label_nl = label;
      description_nl = desc;
      datasets_used = datasets;
      calculated_value = value;
    }
      ∷ []

module _ (F : Floats) where
  open F use {Float, le, add, sub, mul, decimal, round}

  -- An entry of INTERVENTIONS.
  pub record Measure : Type 0 where
    pub id : String
    pub label_nl : String
    pub delta : Dict Float
    pub source_url : String
    pub source_label : String

  abbrev pub interventions : List Measure
  interventions =
      record {
        id = "interconnectie_alternatieve_bron";
        label_nl = "Interconnectie / alternatieve inname";
        delta =
            ("weight_salinity", decimal 25 2)
            ∷ ("weight_flood", decimal 4 1)
            ∷ ("weight_protection", decimal 35 2)
            ∷ [];
        source_url = "https://www.pzh.nl/regiovisie-waterprogramma-2022-2027";
        source_label = "Regionaal Waterprogramma ZH 2022–2027";
      }
      ∷ record {
        id = "klimaatadaptatie_droogte";
        label_nl = "Klimaatadaptatie (droogtebuffer)";
        delta = ("knmi_dryness_multiplier", decimal 10 1) ∷ [];
        source_url = "https://www.knmi.nl/klimaatscenarios";
        source_label = "KNMI'23 Klimaatscenario's";
      }
      ∷ record {
        id = "natuurlijke_spons_intrekgebied";
        label_nl = "Natuurlijke spons in intrekgebieden";
        delta =
            ("weight_salinity", decimal 35 2)
            ∷ ("weight_flood", decimal 25 2)
            ∷ ("weight_protection", decimal 2 1)
            ∷ [];
        source_url = "https://www.pzh.nl/regiovisie-waterprogramma-2022-2027";
        source_label = "Regionaal Waterprogramma ZH 2022–2027";
      }
      ∷ []

  -- An entry of the ranking; its id, label and source are those of the measure.
  pub record RankedMeasure : Type 0 where
    pub measure : Measure
    pub new_area_verdict : Verdict
    pub stop_share_after : Float
    pub stop_share_reduction_pct : Float

  pub record ScenarioResults : Type 0 where
    pub feasibility_class : Verdict
    pub score_avg : Float
    pub n_cells : ℕ
    pub n_stop : ℕ
    pub n_caution : ℕ
    pub n_go : ℕ
    pub stop_share : Float
    pub themes : List String
    pub human_scale : String
    pub interventions_ranked : List RankedMeasure

  pub record ScenarioDelta : Type 0 where
    pub score_avg_delta : Float
    pub stop_share_delta : Float
    -- `rb.n_stop - ra.n_stop`, as the two counts
    pub n_stop_delta : ℕ × ℕ
    pub feasibility_change : String
    pub narrative_nl : String

  pub record ScenarioCard : Type 0 where
    pub scenario_id : String
    pub scenario_hash : String
    pub created_at : String
    pub git_commit : String
    pub stable_url : String
    pub question_nl : String
    pub params : ScenarioParams F
    pub results : ScenarioResults
    pub reasoning_steps : List ReasoningStep
    pub official_position : Option PositionOnCard
    pub overlay_cells : List (String × Float × Verdict)
    pub delta : Option ScenarioDelta

  -- What the graph calls outside itself. `rows` are those of the joins for a set of assumptions, the
  -- cells of an area and a universe.
  pub record Engine : Type 0 where
    pub extract_scenario_params : String → ScenarioParams F × Float
    pub region : Region F
    pub rows : Dict Float → Option (List String) → String → List Joined
    pub compute_scenario_hash : ScenarioParams F → Dict Float → String
    pub git_commit : String
    -- `:.kf`, `:,.0f`, `str` and `:,`
    pub fixed : ℕ → Float → String
    pub comma_float : Float → String
    pub show : Float → String
    pub str : ℕ → String
    pub comma : ℕ → String

  abbrev pub is_housing : ScenarioParams F → Bool
  is_housing p = elim p.development_type [ none ↦ false | some t ↦ contains_text t "housing" ]

  abbrev pub use_populated : Option String → ScenarioParams F → Bool
  use_populated (some base) p = base == "populated"
  use_populated none p = is_housing p

  -- How a run ended: with a question back, or with a card.
  pub data Ended : Type 0 where
    followup : String → Ended
    card : ScenarioCard → Ended

  pub record ScenarioState : Type 0 where
    pub params : ScenarioParams F
    pub confidence : Float
    pub reasoning_steps : List ReasoningStep
    pub score : AreaScore F
    pub assumptions_used : Dict Float

  module _ (E : Engine) where
    abbrev pub provided_or :
        Option (ScenarioParams F × Float) → ScenarioParams F × Float → ScenarioParams F × Float
    provided_or none extracted = extracted
    provided_or (some provided) extracted = provided

    unfoldable pub extract_node :
        String → Option (ScenarioParams F × Float) → ScenarioParams F × Float × List ReasoningStep
    unfolding add_step
    extract_node question provided =
        let (params, conf) = provided_or provided (E.extract_scenario_params question) in
        (
          params,
          conf,
          add_step [] "Vraag begrepen"
              ("Scenario-type "
                & params.scenario_type
                & ", KNMI "
                & params.knmi_preset
                & ", jaar "
                & E.str params.time_horizon
                & ".")
              [] (some ("confidence=" & E.fixed 2 conf)),
        )

    unfoldable pub followup_node : String
    followup_node =
        "Ik heb de vraag niet helemaal begrepen. Gaat het om een ruimtelijke locatievraag of om een inname/verzilting-scenario?"

    -- The universe, its cells and how they are described.
    abbrev pub universe : Option String → ScenarioParams F → String × Area F
    universe base p =
        if use_populated base p
        then (
          "populated",
          record {
            area_cells = none;
            descriptor_nl = "bebouwd gebied (CBS-bevolkte cellen, hele regio)";
            mode = "populated";
            n = none;
          },
        )
        else ("salinity", select_h3_area F E.region p)

    abbrev pub scored_area : Dict Float → Option String → ScenarioParams F → AreaScore F
    scored_area a base p =
        let (chosen, area) = universe base p in
        score_h3_area F a 200 (E.rows a area.area_cells chosen)

    abbrev cells_text : Option ℕ → String
    cells_text none = "alle"
    cells_text (some n) = E.str n

    abbrev area_steps : List ReasoningStep → Area F → List ReasoningStep
    area_steps steps area =
        add_step steps "Interessegebied gekozen"
          ("Gebied: " & area.descriptor_nl & ". Scoring beperkt tot deze H3-cellen.") []
          (some ("mode=" & area.mode & "; cells=" & cells_text area.n))

    abbrev score_steps : List ReasoningStep → AreaScore F → Dict Float → List ReasoningStep
    score_steps steps res a =
        add_step steps "Gebieds-score (H3)"
          ("DrinkwaterDruk "
            & E.fixed 0 res.score_avg
            & "/100 over "
            & E.comma res.n_cells
            & " H3-cellen; oordeel "
            & verdict_text res.area_verdict
            & " ("
            & E.fixed 0 (mul res.stop_share (decimal 100 0))
            & "% STOP-cellen). Thema's gecombineerd: "
            & join ", " themes_used
            & ".")
          themes_used
          (some (
            "score="
            & E.show res.score_avg
            & "; verdict="
            & verdict_text res.area_verdict
            & "; dryness="
            & E.show (lookup_or "knmi_dryness_multiplier" a (zero_float F))
            & "; demand_avg="
            & E.show res.demand_avg
            & "; added_homes="
            & elim (lookup "added_homes" a) [ none ↦ "0" | some homes ↦ E.show homes ]))

    unfoldable pub score_node :
        ScenarioParams F → Float → List ReasoningStep → Dict Float → Option String → ScenarioState
    unfolding add_step
    score_node p conf steps extra base =
        let a = params_to_assumptions F p extra in
        let res = scored_area a base p in
        record {
          params = p;
          confidence = conf;
          reasoning_steps = score_steps (area_steps steps (universe base p).1) res a;
          score = res;
          assumptions_used = a;
        }

    -- A measure re-scored: over the default universe, without the cells of the area.
    unfoldable pub rescored : AreaScore F → Dict Float → Measure → RankedMeasure
    rescored res a iv =
        let b = merge a iv.delta in
        let r2 = score_h3_area F b 0 (E.rows b none "salinity") in
        record {
          measure = iv;
          new_area_verdict = r2.area_verdict;
          stop_share_after = r2.stop_share;
          stop_share_reduction_pct =
              round (mul (sub res.stop_share r2.stop_share) (decimal 100 0)) 1;
        }

    abbrev pub reduces_more : RankedMeasure → RankedMeasure → Bool
    reduces_more x y = le y.stop_share_reduction_pct x.stop_share_reduction_pct

    abbrev pub is_go : Verdict → Bool
    is_go Verdict.go = true
    is_go _ = false

    unfoldable pub ranked_interventions : AreaScore F → Dict Float → List RankedMeasure
    unfolding rescored sort_by
    ranked_interventions res a =
        if is_go res.area_verdict
        then []
        else take 3 (sort_by reduces_more (map (rescored res a) interventions))

    abbrev primary_of : List OfficialPosition → Option PositionOnCard
    primary_of [] = none
    primary_of (p ∷ ps) =
        some (record { primary = p.topic; disclaimer = disclaimer_nl; documents = p.documents })

    abbrev pub position_of : ScenarioParams F → Option PositionOnCard
    position_of p = primary_of (
        get_official_position p.scenario_type p.knmi_preset
          (elim p.development_type [ none ↦ false | some t ↦ t == "housing_5000" ]) true)

    abbrev pub analogy_of : AreaScore F → String
    analogy_of res =
        "≈ "
        & E.comma_float (round (mul (of_ℕ F res.n_stop) (decimal 1 1)) 1)
        & " km² met hoge drinkwaterdruk (~"
        & E.comma res.n_stop
        & " H3-cellen)"

    unfoldable pub format_node :
        String → String → String → ScenarioState → List RankedMeasure → ScenarioCard
    format_node question sid created_at state ranked = record {
      scenario_id = sid;
      scenario_hash = E.compute_scenario_hash state.params state.assumptions_used;
      created_at = created_at;
      git_commit = E.git_commit;
      stable_url = "http://localhost:8001/scenario/" & sid;
      question_nl = question;
      params = state.params;
      results = record {
        feasibility_class = state.score.area_verdict;
        score_avg = state.score.score_avg;
        n_cells = state.score.n_cells;
        n_stop = state.score.n_stop;
        n_caution = state.score.n_caution;
        n_go = state.score.n_go;
        stop_share = state.score.stop_share;
        themes = themes_used;
        human_scale = analogy_of state.score;
        interventions_ranked = ranked;
      };
      reasoning_steps = state.reasoning_steps;
      official_position = position_of state.params;
      overlay_cells = state.score.cells;
      delta = none;
    }

    -- Given parameters have the confidence 1.
    abbrev pub with_confidence : Option (ScenarioParams F) → Option (ScenarioParams F × Float)
    with_confidence none = none
    with_confidence (some p) = some (p, decimal 10 1)

    -- `run_scenario` with the identifier and the clock reading of its card.
    unfoldable pub run_scenario :
        String → String → String → Dict Float → Option (ScenarioParams F) → Option String → Ended
    unfolding extract_node score_node ranked_interventions format_node followup_node
    run_scenario question sid created_at extra given base =
        let (params, conf, steps) = extract_node question (with_confidence given) in
        let state = score_node params conf steps extra base in
        if le (decimal 5 1) conf
        then Ended.card (
            format_node question sid created_at state
              (ranked_interventions state.score state.assumptions_used))
        else Ended.followup followup_node

    abbrev pub verdict_change : Verdict → Verdict → String
    verdict_change a b =
        if verdict_text a == verdict_text b
        then "blijft " & verdict_text a
        else verdict_text a & " → " & verdict_text b

    abbrev pub delta_of : ScenarioResults → ScenarioResults → ScenarioDelta
    delta_of ra rb = record {
      score_avg_delta = round (sub rb.score_avg ra.score_avg) 1;
      stop_share_delta = round (sub rb.stop_share ra.stop_share) 3;
      n_stop_delta = (rb.n_stop, ra.n_stop);
      feasibility_change = verdict_change ra.feasibility_class rb.feasibility_class;
      narrative_nl =
          "Onder de droogte/verzilting-schok verschuift het oordeel: "
          & verdict_change ra.feasibility_class rb.feasibility_class
          & ". Het aandeel STOP-cellen gaat van "
          & E.fixed 0 (mul ra.stop_share (decimal 100 0))
          & "% naar "
          & E.fixed 0 (mul rb.stop_share (decimal 100 0))
          & "%, en de gemiddelde DrinkwaterDruk van "
          & E.fixed 0 ra.score_avg
          & " naar "
          & E.fixed 0 rb.score_avg
          & " (op 100).";
    }

    abbrev shock_or : Option (Dict Float) → String → Dict Float
    shock_or none preset =
        ("knmi_dryness_multiplier", lookup_or preset (knmi_dryness F) (decimal 10 1)) ∷ []
    shock_or (some extra) preset = extra

    -- The two cards, the second with the difference; a missing card raises.
    abbrev compared : Ended → Ended → Option (ScenarioCard × ScenarioCard)
    compared (Ended.card a) (Ended.card b) =
        some (a, record b { delta = some (delta_of a.results b.results) })
    compared _ _ = none

    unfoldable pub run_comparison :
        String
        → String × String
        → String × String
        → Option (Dict Float)
        → Option (Dict Float)
        → Option (ScenarioParams F)
        → Option (ScenarioCard × ScenarioCard)
    unfolding run_scenario
    run_comparison question (sid_a, time_a) (sid_b, time_b) baseline shock given =
        compared (run_scenario question sid_a time_a (shock_or baseline "B") given none)
          (run_scenario question sid_b time_b (shock_or shock "Hd") given none)
