-- ===== src/Chatbot/Recipe/Accepted.antt =====
-- What an accepted recipe runs.
use onegov2_spatial_assistan.Prelude.{
  ℕ, String, ◌≡◌, ◌≢◌, refl, ap, sym, subst, ◌∙◌, ◌⊎◌, inl, inr, Bool, true, false, not, ◌&&◌,
  Option, none, some, [], ◌∷◌, ◌==◌, map, Dict, lookup, one_of, All, All-append, arith, eq_iff,
  leb→le, &&-true, Bool-cases, Option-cases, if◌then◌else◌, leb, ◌≤◌,
}
use onegov2_spatial_assistan.Floats.{Floats, IsOrdered, zero_float}
use onegov2_spatial_assistan.Scenario.Params.{ScenarioParams}
use onegov2_spatial_assistan.Chatbot.ScenarioRun.{
  allowed_scenario_types, allowed_lever_keys, horizon_min, horizon_max, is_known_intake,
  text_or_empty, weight_in_range, weight_keys,
}
use onegov2_spatial_assistan.Chatbot.ScenarioRun.Gate.{IsWhitelisted, passes, not-false}
use onegov2_spatial_assistan.Chatbot.Recipe.{
  signals, allowed_base, RecipeReason, first_reason, given, Spec, weight_reason, check_weights,
  weight_of, total_of, is_balanced, year_in_range, year_of, homes_of, recipe_reason, overrides_of,
  validate_recipe, execute_recipe, params_of, preset_reason,
}

some_not_none : {r : RecipeReason} → some r ≢ none
some_not_none q = cc

none_not_some : {A : Type 0} {a : A} → none ≢ some a
none_not_some q = cc

first_reason-none : (a b : Option RecipeReason) → first_reason a b ≡ none → (a ≡ none) × (b ≡ none)
first_reason-none none b h = (refl, h)
first_reason-none (some r) b h = absurd (some_not_none h)

some-inj : {A : Type 0} {a b : A} → some a ≡ some b → a ≡ b
some-inj q = cc

year_bounds :
    (F : Floats) (Value : Type 0) (to_float : Value → Option F.Float) (is_falsy : Value → Bool)
    (to_year : Value → Option ℕ) (y : Option ℕ)
    → year_in_range F Value to_float is_falsy to_year y ≡ true
    → (horizon_min ≤ given y 0) × (given y 0 ≤ horizon_max)
year_bounds F Value to_float is_falsy to_year none h = absurd (cc)
year_bounds F Value to_float is_falsy to_year (some y) h =
    let both = &&-true (leb horizon_min y) (leb y horizon_max) h in
    (leb→le horizon_min y both.0, leb→le y horizon_max both.1)

-- The scenario type that the two texts of a recipe lead to.
abbrev type_of : Bool → Bool → String
type_of no_intake no_location =
    if not no_intake
    then "intake_failure"
    else if not no_location
    then "drop_pin"
    else "multi_hazard"

not_drop_pin : type_of true true ≢ "drop_pin"
not_drop_pin q = cc

type_allowed : (i l : Bool) → one_of (type_of i l) allowed_scenario_types ≡ true
type_allowed false l = refl
type_allowed true false = refl
type_allowed true true = refl

intake_rule :
    (i l known : Bool)
    → (not i && not known) ≡ false
    → (type_of i l ≢ "intake_failure") ⊎ (known ≡ true)
intake_rule false l known h = inr (not-false known h)
intake_rule true false known h = inl (λ q. cc)
intake_rule true true known h = inl (λ q. cc)

location_rule : (i : Bool) (l : String) → (type_of i (l == "") ≢ "drop_pin") ⊎ (l ≢ "")
location_rule false l = inl (λ q. cc)
location_rule true l = elim (Bool-cases (l == "")) [
  | inl e ↦ inl (λ q. absurd (not_drop_pin (rw e at q)))
  | inr e ↦ inr (λ q. ground (arith, eq_iff l "", q))
]

module _ (F : Floats) (Value : Type 0) (to_float : Value → Option F.Float) (is_falsy : Value → Bool)
    (to_year : Value → Option ℕ) where
  open F use {Float, le, decimal}

  abbrev InUnit : Float → Type 0
  InUnit x = (le (zero_float F) x ≡ true) × (le x (decimal 1 0) ≡ true)

  weight_reason-InUnit :
      (v : Value)
      → weight_reason F Value to_float is_falsy to_year v ≡ none
      → (x : Float) × (to_float v ≡ some x) × InUnit x
  weight_reason-InUnit v h = elim (Option-cases (to_float v)) [
    | inl e ↦ absurd (some_not_none (rw (weight_reason, e) at h))
    | inr (x, e) ↦ elim (Bool-cases (le (zero_float F) x && le x (decimal 1 0))) [
      | inl b ↦ (x, e, &&-true (le (zero_float F) x) (le x (decimal 1 0)) b)
      | inr b ↦ absurd (some_not_none (rw (weight_reason, e, b) at h))
    ]
  ]

  check_weights-InUnit :
      (weights : Dict Value) (k : String) (v : Value)
      → check_weights F Value to_float is_falsy to_year weights ≡ none
      → lookup k weights ≡ some v
      → (x : Float) × (to_float v ≡ some x) × InUnit x
  unfolding check_weights
  check_weights-InUnit [] k v h q = absurd (cc)
  check_weights-InUnit ((j, w) ∷ weights) k v h q =
      elim (Option-cases (weight_reason F Value to_float is_falsy to_year w)) [
        | inr (r, e) ↦ absurd (some_not_none (rw (check_weights, e) at h))
        | inl e ↦ elim (Bool-cases (j == k)) [
          | inl b ↦
              let same : w ≡ v = some-inj (rw b at q) in
              subst (λ u. (x : Float) × (to_float u ≡ some x) × InUnit x) same
                (weight_reason-InUnit w e)
          | inr b ↦ check_weights-InUnit weights k v (rw (check_weights, e) at h) (rw b at q)
        ]
      ]

  -- What a recipe without a reason has: whitelisted parameters, an allowed universe, and weights
  -- that add up to one within the tolerance and are the overrides.
  pub record IsAccepted (spec : Spec F Value to_float is_falsy to_year) (p : ScenarioParams F)
      (base : String) : Type 0 where
    pub whitelisted : IsWhitelisted F p
    pub base_allowed : one_of base allowed_base ≡ true
    pub balanced :
        is_balanced F Value to_float is_falsy to_year
          (total_of F Value to_float is_falsy to_year spec.weights)
        ≡ true
    pub overridden : p.assumption_overrides ≡ overrides_of F Value to_float is_falsy to_year spec

  module _ (o : IsOrdered F) (positive : le (zero_float F) (decimal 1 0) ≡ true) where
    weight_of-InUnit :
        (weights : Dict Value) (k : String)
        → check_weights F Value to_float is_falsy to_year weights ≡ none
        → InUnit (weight_of F Value to_float is_falsy to_year weights k)
    weight_of-InUnit weights k h = elim (Option-cases (lookup k weights)) [
      | inl e ↦ rw (weight_of, e) (o.le_refl (zero_float F), positive)
      | inr (v, e) ↦
          let (x, q, ok) = check_weights-InUnit weights k v h e in rw (weight_of, e, q) ok
    ]

    in_range : (k : String) (x : Float) → InUnit x → weight_in_range F (k, x) ≡ true
    in_range k x (low, high) = elim (Bool-cases (one_of k weight_keys)) [
      | inl e ↦ rw (weight_in_range, e, low, high) refl
      | inr e ↦ rw (weight_in_range, e) refl
    ]

    weights_in_range :
        (weights : Dict Value)
        → check_weights F Value to_float is_falsy to_year weights ≡ none
        → All
            (λ w. weight_in_range F w ≡ true)
            (map (λ s. (s.1, weight_of F Value to_float is_falsy to_year weights s.0)) signals)
    weights_in_range weights h = (
      in_range "weight_salinity" _ (weight_of-InUnit weights "salinity" h),
      (
        in_range "weight_demand" _ (weight_of-InUnit weights "demand" h),
        (
          in_range "weight_flood" _ (weight_of-InUnit weights "flood" h),
          (in_range "weight_protection" _ (weight_of-InUnit weights "protection" h), tt),
        ),
      ),
    )

    homes_allowed :
        (q : String × Float → Bool) (homes : Float)
        → q ("added_homes", homes) ≡ true
        → All
            (λ w. q w ≡ true)
            (if le (zero_float F) homes && le homes (zero_float F)
              then []
              else ("added_homes", homes) ∷ [])
    homes_allowed q homes h =
        elim (Bool-cases (le (zero_float F) homes && le homes (zero_float F))) [
          | inl e ↦ rw e tt
          | inr e ↦ rw e (h, tt)
        ]

    preset_reason-IsAccepted :
        (spec : Spec F Value to_float is_falsy to_year)
        → check_weights F Value to_float is_falsy to_year spec.weights ≡ none
        → preset_reason F Value to_float is_falsy to_year spec ≡ none
        → IsAccepted spec
            (params_of F Value to_float is_falsy to_year spec)
            (given spec.base "salinity")
    unfolding preset_reason
    preset_reason-IsAccepted spec e h1 =
        let (b, h2) = passes _ _ _ h1 in
        let (k, h3) = passes _ _ _ h2 in
        let (g, h4) = passes _ _ _ h3 in
        let (u, h5) = passes _ _ _ h4 in
        let (y, h6) = passes _ _ _ h5 in
        let (n, h7) = passes _ _ _ h6 in
        let (i, h8) = passes _ _ _ h7 in
        let no_intake = text_or_empty spec.intake_id == "" in
        let place = text_or_empty spec.location_name in
        let years =
          year_bounds F Value to_float is_falsy to_year
            (year_of F Value to_float is_falsy to_year spec) (not-false _ y) in
        let homes = given (homes_of F Value to_float is_falsy to_year spec) (zero_float F) in
        record {
          whitelisted = record {
            type_allowed = type_allowed no_intake (place == "");
            knmi_allowed = not-false _ k;
            growth_allowed = not-false _ g;
            horizon_from = years.0;
            horizon_to = years.1;
            intake_known = intake_rule no_intake (place == "") (is_known_intake spec.intake_id) i;
            location_given = location_rule no_intake place;
            levers_allowed = (
              refl,
              (refl, (refl, (refl, homes_allowed (λ o. one_of o.0 allowed_lever_keys) homes refl))),
            );
            weights_in_range =
                All-append (λ w. weight_in_range F w ≡ true)
                  (map (λ s. (s.1, weight_of F Value to_float is_falsy to_year spec.weights s.0))
                    signals)
                  _ (weights_in_range spec.weights e)
                  (homes_allowed (weight_in_range F) homes refl);
          };
          base_allowed = not-false _ u;
          balanced = not-false _ b;
          overridden = refl;
        }

    reason-IsAccepted :
        (spec : Spec F Value to_float is_falsy to_year)
        → recipe_reason F Value to_float is_falsy to_year spec ≡ none
        → IsAccepted spec
            (params_of F Value to_float is_falsy to_year spec)
            (given spec.base "salinity")
    unfolding recipe_reason
    reason-IsAccepted spec h =
        let (_, rest) = passes _ _ _ h in
        let (e, r) = first_reason-none _ _ rest in preset_reason-IsAccepted spec e r

    -- Whenever a recipe is run, its parameters are whitelisted, its universe is an allowed one, and
    -- its weights, which are the overrides, add up to one within the tolerance. Of the arithmetic it
    -- uses that 0 is at most 1.
    pub execute_recipe-IsAccepted :
        (spec : Spec F Value to_float is_falsy to_year) (p : ScenarioParams F) (base : String)
        → execute_recipe F Value to_float is_falsy to_year
            (validate_recipe F Value to_float is_falsy to_year spec)
          ≡ some (p, base)
        → IsAccepted spec p base
    unfolding validate_recipe execute_recipe
    execute_recipe-IsAccepted spec p base h =
        elim (Option-cases (recipe_reason F Value to_float is_falsy to_year spec)) [
          | inr (r, e) ↦ absurd (none_not_some (rw (execute_recipe, validate_recipe, e) at h))
          | inl e ↦
              let plan : validate_recipe F Value to_float is_falsy to_year spec ≡ record {
                runnable = true;
                params = some (params_of F Value to_float is_falsy to_year spec);
                base = given spec.base "salinity";
                reason = none;
              } =
                rw (validate_recipe, e) refl in
              subst (λ r. IsAccepted spec r.0 r.1)
                (some-inj (sym (ap (execute_recipe F Value to_float is_falsy to_year) plan) ∙ h))
                (reason-IsAccepted spec e)
        ]
