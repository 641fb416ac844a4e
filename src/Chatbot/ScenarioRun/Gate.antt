-- ===== src/Chatbot/ScenarioRun/Gate.antt =====
-- What the gate lets through to the engine.
use onegov2_spatial_assistan.Prelude.{
  ◌≤◌, String, ◌≡◌, ◌≢◌, refl, ◌⊎◌, inl, inr, Bool, true, false, not, ◌&&◌, Option, none, some,
  List, [], ◌∷◌, ◌==◌, Dict, all, one_of, All, arith, eq_iff, leb, Bool-cases, Option-cases,
  if◌then◌else◌, leb→le, &&-true,
}
use onegov2_spatial_assistan.Floats.{Floats}
use onegov2_spatial_assistan.Scenario.Params.{ScenarioParams}
use onegov2_spatial_assistan.Chatbot.ScenarioRun.{
  allowed_scenario_types, allowed_knmi, allowed_growth, allowed_lever_keys, horizon_min,
  horizon_max, is_known_intake, text_or_empty, min_confidence, weight_in_range, validate_params,
  ScenarioPlan, prepare_scenario_request, EngineCall, execute_plan, with_overrides,
}

pub passes :
    {R : Type 0} (b : Bool) (r : R) (rest : Option R)
    → (if b then some r else rest) ≡ none
    → (b ≡ false) × (rest ≡ none)
passes false r rest h = (refl, h)
passes true r rest h = absurd (cc)

pub not-false : (b : Bool) → not b ≡ false → b ≡ true
not-false true h = refl
not-false false h = absurd (cc)

intake_rule :
    (t : String) (known : Bool)
    → ((t == "intake_failure") && not known) ≡ false
    → (t ≢ "intake_failure") ⊎ (known ≡ true)
intake_rule t true h = inr refl
intake_rule t false h = inl (λ q. ground (arith, eq_iff t "intake_failure", q))

location_rule :
    (t name : String) → ((t == "drop_pin") && (name == "")) ≡ false → (t ≢ "drop_pin") ⊎ (name ≢ "")
location_rule t name h = elim (Bool-cases (name == "")) [
  | inl e ↦ inl (λ q. ground (arith, eq_iff t "drop_pin", q))
  | inr e ↦ inr (λ q. ground (arith, eq_iff name "", q))
]

module _ (F : Floats) where
  open F use {Float, le, decimal}

  -- Every choice is one of the allowed ones, an intake failure names a known intake, a drop pin names a
  -- location, and only the allowed levers are set, the weights of them between 0 and 1.
  pub record IsWhitelisted (p : ScenarioParams F) : Type 0 where
    pub type_allowed : one_of p.scenario_type allowed_scenario_types ≡ true
    pub knmi_allowed : one_of p.knmi_preset allowed_knmi ≡ true
    pub growth_allowed : one_of p.growth_preset allowed_growth ≡ true
    pub horizon_from : horizon_min ≤ p.time_horizon
    pub horizon_to : p.time_horizon ≤ horizon_max
    pub intake_known : (p.scenario_type ≢ "intake_failure") ⊎ (is_known_intake p.intake_id ≡ true)
    pub location_given : (p.scenario_type ≢ "drop_pin") ⊎ (text_or_empty p.location_name ≢ "")
    pub levers_allowed : All (λ o. one_of o.0 allowed_lever_keys ≡ true) p.assumption_overrides
    pub weights_in_range : All (λ o. weight_in_range F o ≡ true) p.assumption_overrides

  all-All :
      (q : String × Float → Bool) (os : Dict Float) → all q os ≡ true → All (λ o. q o ≡ true) os
  all-All q [] h = tt
  all-All q (o ∷ os) h = let both = &&-true (q o) (all q os) h in (both.0, all-All q os both.1)

  valid-IsWhitelisted :
      (p : ScenarioParams F) (confidence : Float)
      → validate_params F p confidence ≡ none
      → (le (min_confidence F) confidence ≡ true) × IsWhitelisted p
  unfolding validate_params
  valid-IsWhitelisted p confidence h =
      let (c, h1) = passes _ _ _ h in
      let (t, h2) = passes _ _ _ h1 in
      let (k, h3) = passes _ _ _ h2 in
      let (g, h4) = passes _ _ _ h3 in
      let (y, h5) = passes _ _ _ h4 in
      let (i, h6) = passes _ _ _ h5 in
      let (l, h7) = passes _ _ _ h6 in
      let (v, h8) = passes _ _ _ h7 in
      let (w, h9) = passes _ _ _ h8 in
      let years =
        &&-true (leb horizon_min p.time_horizon) (leb p.time_horizon horizon_max) (not-false _ y) in
      (
        not-false (le (min_confidence F) confidence) c,
        record {
          type_allowed = not-false _ t;
          knmi_allowed = not-false _ k;
          growth_allowed = not-false _ g;
          horizon_from = leb→le _ _ years.0;
          horizon_to = leb→le _ _ years.1;
          intake_known = intake_rule _ _ i;
          location_given = location_rule _ _ l;
          levers_allowed =
              all-All (λ o. one_of o.0 allowed_lever_keys) p.assumption_overrides (not-false _ v);
          weights_in_range = all-All (weight_in_range F) p.assumption_overrides (not-false _ w);
        },
      )

  -- An engine call that is no call, or runs whitelisted parameters.
  abbrev pub IsSafeCall : EngineCall F → Type 0
  IsSafeCall EngineCall.refuse = Unit
  IsSafeCall (EngineCall.run_comparison baseline shock p) = IsWhitelisted p
  IsSafeCall (EngineCall.run_scenario p) = IsWhitelisted p

  abbrev IsSafePlan : ScenarioPlan F → Type 0
  IsSafePlan plan =
      (plan.params ≡ none) ⊎ ((p : ScenarioParams F) × (plan.params ≡ some p) × IsWhitelisted p)

  execute-IsSafeCall : (plan : ScenarioPlan F) → IsSafePlan plan → IsSafeCall (execute_plan F plan)
  unfolding execute_plan
  execute-IsSafeCall plan (inl e) = rw (execute_plan, e) tt
  execute-IsSafeCall plan (inr (p, e, ok)) = elim (Bool-cases plan.runnable) [
    | inr r ↦ rw (execute_plan, e, r) tt
    | inl r ↦ elim (Bool-cases plan.compare) [
      | inl c ↦ rw (execute_plan, e, r, c) ok
      | inr c ↦ rw (execute_plan, e, r, c) ok
    ]
  ]

  -- Whatever the extraction makes of a question and whatever overrides come with it, the engine is
  -- only ever run on whitelisted parameters.
  pub execute_plan-IsSafeCall :
      (extract : String → ScenarioParams F × Float) (knmi_mentions : String → List String)
      (question : String) (overrides : Dict Float)
      → IsSafeCall
          (execute_plan F (prepare_scenario_request F extract knmi_mentions question overrides))
  unfolding prepare_scenario_request
  execute_plan-IsSafeCall extract knmi_mentions question overrides =
      let p = with_overrides F overrides (extract question).0 in
      let confidence = (extract question).1 in
      execute-IsSafeCall (prepare_scenario_request F extract knmi_mentions question overrides)
        (elim (Option-cases (validate_params F p confidence)) [
          | inr (reason, e) ↦ inl (rw (prepare_scenario_request, e) refl)
          | inl e ↦
              inr (p, rw (prepare_scenario_request, e) refl, (valid-IsWhitelisted p confidence e).1)
        ])
