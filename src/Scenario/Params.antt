-- ===== src/Scenario/Params.antt =====
-- services/scenario/models.py (ScenarioParams) and what services/scenario/workflow.py makes of them.
use onegov2_spatial_assistan.Prelude.{
  ℕ, String, Option, none, some, List, [], ◌∷◌, Dict, lookup_or, insert, merge, contains_text, leb,
  if◌then◌else◌,
}
use onegov2_spatial_assistan.Floats.{Floats, of_ℕ}

module _ (F : Floats) where
  open F use {Float, decimal}

  -- Years, weeks and units are natural numbers.
  pub record ScenarioParams : Type 0 where
    pub scenario_type : String
    pub knmi_preset : String
    pub time_horizon : ℕ
    pub growth_preset : String
    pub location_name : Option String
    pub development_type : Option String
    pub development_mw : Option Float
    pub development_units : Option ℕ
    pub intake_id : Option String
    pub outage_weeks : Option ℕ
    pub interventions : List String
    pub assumption_overrides : Dict Float

  abbrev pub knmi_dryness : Dict Float
  knmi_dryness =
      ("B", decimal 10 1)
      ∷ ("Ln", decimal 12 1)
      ∷ ("Hn", decimal 13 1)
      ∷ ("Ld", decimal 15 1)
      ∷ ("Hd", decimal 18 1)
      ∷ []

  abbrev pub growth_pct : Dict Float
  growth_pct = ("laag", decimal 4 2) ∷ ("middel", decimal 65 3) ∷ ("hoog", decimal 9 2) ∷ []

  -- The demand lever of a development.
  abbrev pub with_units : Option ℕ → Dict Float → Dict Float
  with_units none a = a
  with_units (some n) a = if leb n 0 then a else insert "added_homes" (of_ℕ F n) a

  -- Housing weighs demand heavily.
  abbrev pub with_housing : Option String → Dict Float → Dict Float
  with_housing none a = a
  with_housing (some t) a =
      if contains_text t "housing"
      then merge a (
          ("weight_demand", decimal 6 1)
          ∷ ("weight_salinity", decimal 15 2)
          ∷ ("weight_flood", decimal 2 1)
          ∷ ("weight_protection", decimal 5 2)
          ∷ ("demand_ref_m3_per_cell", decimal 20 1)
          ∷ [])
      else a

  unfoldable pub params_to_assumptions : ScenarioParams → Dict Float → Dict Float
  params_to_assumptions params extra =
      let a =
        ("knmi_dryness_multiplier", lookup_or params.knmi_preset knmi_dryness (decimal 10 1))
        ∷ ("population_growth_pct", lookup_or params.growth_preset growth_pct (decimal 65 3))
        ∷ [] in
      merge
        (merge (with_housing params.development_type (with_units params.development_units a)) extra)
        params.assumption_overrides
