-- ===== src/Scenario/Interventions.antt =====
-- services/scenario/interventions.py: the catalogue, the ranking and the stacking of interventions.
pub mod Choice
use onegov2_spatial_assistan.Prelude.{
  ℕ, String, Bool, true, false, not, Option, none, some, List, [], ◌∷◌, ◌==◌, keep, any, map, take,
  sort_by, leb, if◌then◌else◌,
}
use onegov2_spatial_assistan.Floats.{Floats, flt, of_ℕ, zero_float, neg}
use onegov2_spatial_assistan.Scenario.Scoring.{Verdict, least}
use onegov2_spatial_assistan.Scenario.Feasibility.{compute_feasibility_class}

module _ (F : Floats) where
  open F use {Float, le, add, sub, mul, div, decimal}

  -- An entry of the catalogue, with the fields that are read.
  pub record Intervention : Type 0 where
    pub id : String
    pub label_nl : String
    -- the volume and the window of a buffer
    pub buffer : Option (ℕ × ℕ)
    pub supply_delta_m3_day : Option Float
    pub demand_delta_fraction : Float
    pub cost_eur_low : ℕ
    pub cost_eur_high : ℕ
    pub lead_time_years : ℕ
    pub source_url : String
    pub source_label : String
    pub applicable_types : List String

  abbrev pub intervention_catalogue : List Intervention
  intervention_catalogue =
      record {
        id = "buffer_30k";
        label_nl = "Bufferopslag 30.000 m³";
        buffer = some (30000, 30);
        supply_delta_m3_day = none;
        demand_delta_fraction = zero_float F;
        cost_eur_low = 15000000;
        cost_eur_high = 25000000;
        lead_time_years = 3;
        source_url = "https://www.pzh.nl/regiovisie-waterprogramma-2022-2027";
        source_label = "Regionaal Waterprogramma ZH 2022–2027";
        applicable_types = "drop_pin" ∷ "intake_failure" ∷ "multi_hazard" ∷ [];
      }
      ∷ record {
        id = "alt_intake_lek";
        label_nl = "Alternatieve inname via de Lek";
        buffer = none;
        supply_delta_m3_day = some (of_ℕ F 65000);
        demand_delta_fraction = zero_float F;
        cost_eur_low = 40000000;
        cost_eur_high = 100000000;
        lead_time_years = 7;
        source_url = "https://www.pzh.nl/regiovisie-waterprogramma-2022-2027";
        source_label = "Regionaal Waterprogramma ZH 2022–2027";
        applicable_types = "intake_failure" ∷ "multi_hazard" ∷ [];
      }
      ∷ record {
        id = "demand_restriction_10pct";
        label_nl = "Vraagbeperking 10% (regelgeving)";
        buffer = none;
        supply_delta_m3_day = some (zero_float F);
        demand_delta_fraction = neg F (decimal 10 2);
        cost_eur_low = 0;
        cost_eur_high = 500000;
        lead_time_years = 1;
        source_url = "https://wetten.overheid.nl/BWBR0026306";
        source_label = "Drinkwaterwet, art. 10";
        applicable_types = "drop_pin" ∷ "intake_failure" ∷ "multi_hazard" ∷ [];
      }
      ∷ record {
        id = "interconnect_neighbor";
        label_nl = "Interconnectie met buurregio";
        buffer = none;
        supply_delta_m3_day = some (of_ℕ F 30000);
        demand_delta_fraction = zero_float F;
        cost_eur_low = 20000000;
        cost_eur_high = 60000000;
        lead_time_years = 5;
        source_url = "https://www.vewin.nl/publicaties/infrastructuurrapport-2023";
        source_label = "VEWIN Infrastructuurrapport 2023";
        applicable_types = "drop_pin" ∷ "intake_failure" ∷ "multi_hazard" ∷ [];
      }
      ∷ []

  -- `not x` on a number
  abbrev is_zero : Float → Bool
  is_zero x = if le x (zero_float F) then le (zero_float F) x else false

  abbrev magnitude : Float → Float
  magnitude x = if le (zero_float F) x then x else neg F x

  abbrev demand_side : Intervention → Float → Float
  demand_side intv daily_demand =
      if is_zero intv.demand_delta_fraction
      then zero_float F
      else mul (magnitude intv.demand_delta_fraction) daily_demand

  abbrev supply_side : Intervention → Float → Float
  supply_side intv daily_demand = elim intv.supply_delta_m3_day [
    | none ↦ demand_side intv daily_demand
    | some delta ↦ if is_zero delta then demand_side intv daily_demand else delta
  ]

  unfoldable pub effective_supply_delta : Intervention → Float → Float
  effective_supply_delta intv daily_demand = elim intv.buffer [
    | none ↦ supply_side intv daily_demand
    | some (volume, window) ↦
        if leb volume 0 then supply_side intv daily_demand else div (of_ℕ F volume) (of_ℕ F window)
  ]

  -- An entry of the ranking; its id, label, cost, lead time and source are those of the intervention.
  pub record Ranked : Type 0 where
    pub intervention : Intervention
    pub gap_closure_pct : Float
    pub new_supply_gap_m3 : Float
    pub new_feasibility_class : Verdict

  unfoldable pub ranked_of : Float → Float → Intervention → Ranked
  unfolding compute_feasibility_class
  ranked_of gap daily_demand intv =
      let delta = effective_supply_delta intv daily_demand in
      record {
        intervention = intv;
        gap_closure_pct = least F (decimal 100 0) (mul (div delta (magnitude gap)) (decimal 100 0));
        new_supply_gap_m3 = add gap delta;
        new_feasibility_class = compute_feasibility_class F (add gap delta) daily_demand;
      }

  -- The order of the sort: more closure first, then the shorter lead time.
  unfoldable pub ranks_before : Ranked → Ranked → Bool
  ranks_before x y =
      if le x.gap_closure_pct y.gap_closure_pct
      then (if le y.gap_closure_pct x.gap_closure_pct
          then leb x.intervention.lead_time_years y.intervention.lead_time_years
          else false)
      else true

  abbrev pub applies_to : String → Intervention → Bool
  applies_to scenario_type intv = any (λ t. t == scenario_type) intv.applicable_types

  -- All the applicable interventions of a catalogue, ranked.
  unfoldable pub ranking : List Intervention → Float → Float → String → List Ranked
  ranking catalogue gap daily_demand scenario_type =
      sort_by ranks_before
        (map (ranked_of gap daily_demand) (keep (applies_to scenario_type) catalogue))

  unfoldable pub rank_interventions : Float → Float → String → List Ranked
  unfolding ranking
  rank_interventions gap daily_demand scenario_type =
      if le (zero_float F) gap
      then []
      else take 3 (ranking intervention_catalogue gap daily_demand scenario_type)

  unfoldable pub find_intervention : String → List Intervention → Option Intervention
  find_intervention iid [] = none
  find_intervention iid (intv ∷ rest) =
      let later = find_intervention iid rest in if intv.id == iid then some intv else later

  pub record Step : Type 0 where
    pub id : String
    pub cumulative_gap_m3 : Float
    pub feasibility_class : Verdict

  -- The running gap after each known intervention, and the steps.
  unfoldable pub stack_steps : Float → Float → List String → Float × List Step
  stack_steps running daily_demand [] = (running, [])
  stack_steps running daily_demand (iid ∷ ids) =
      elim (find_intervention iid intervention_catalogue) [
        | none ↦ stack_steps running daily_demand ids
        | some intv ↦
            let next = add running (effective_supply_delta intv daily_demand) in
            let (final, steps) = stack_steps next daily_demand ids in
            (
              final,
              record {
                id = iid;
                cumulative_gap_m3 = next;
                feasibility_class = compute_feasibility_class F next daily_demand;
              }
                  ∷ steps,
            )
      ]

  pub record Stack : Type 0 where
    pub baseline_gap_m3 : Float
    pub final_gap_m3 : Float
    pub final_feasibility_class : Verdict
    pub achieves_go : Bool
    pub steps : List Step

  unfoldable pub stack_interventions : Float → Float → List String → Stack
  unfolding stack_steps
  stack_interventions baseline daily_demand ids =
      let (final, steps) = stack_steps baseline daily_demand ids in
      record {
        baseline_gap_m3 = baseline;
        final_gap_m3 = final;
        final_feasibility_class = compute_feasibility_class F final daily_demand;
        achieves_go = le (zero_float F) final;
        steps = steps;
      }
