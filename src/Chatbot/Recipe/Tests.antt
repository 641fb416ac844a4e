-- ===== src/Chatbot/Recipe/Tests.antt =====
-- A recipe of the four default weights, in thousandths; the values of the request are numbers.
use onegov2_spatial_assistan.Prelude.{ℕ, eqb, ◌≡◌, refl, Option, none, some, [], ◌∷◌}
use onegov2_spatial_assistan.Floats.Thousandths.{thousandths, thousandths-IsOrdered}
use onegov2_spatial_assistan.Chatbot.ScenarioRun.{is_known_intake}
use onegov2_spatial_assistan.Chatbot.Recipe.{
  Spec, params_of, validate_recipe, execute_recipe, recipe_reason, preset_reason, check_weights,
}
use onegov2_spatial_assistan.Chatbot.Recipe.Accepted.{IsAccepted, execute_recipe-IsAccepted}

abbrev as_float : ℕ → Option (ℕ × ℕ)
as_float n = some (n, 0)

abbrev as_year : ℕ → Option ℕ
as_year n = some n

abbrev lek_recipe : Spec thousandths ℕ as_float (λ n. eqb n 0) as_year
lek_recipe = record {
  weights = ("salinity", 400) ∷ ("demand", 300) ∷ ("flood", 200) ∷ ("protection", 100) ∷ [];
  knmi_preset = none;
  growth_preset = some "hoog";
  base = none;
  time_horizon = some 2050;
  added_homes = none;
  intake_id = some "Lek";
  location_name = none;
}

lek_recipe_runs :
    execute_recipe thousandths ℕ as_float
      (λ n. eqb n 0)
      as_year
      (validate_recipe thousandths ℕ as_float (λ n. eqb n 0) as_year lek_recipe)
    ≡ some (params_of thousandths ℕ as_float (λ n. eqb n 0) as_year lek_recipe, "salinity")
unfolding execute_recipe validate_recipe recipe_reason preset_reason check_weights is_known_intake
lek_recipe_runs = refl

execute_recipe-IsAccepted_example :
    IsAccepted thousandths ℕ as_float
      (λ n. eqb n 0)
      as_year
      lek_recipe
      (params_of thousandths ℕ as_float (λ n. eqb n 0) as_year lek_recipe)
      "salinity"
execute_recipe-IsAccepted_example =
    execute_recipe-IsAccepted thousandths ℕ as_float (λ n. eqb n 0) as_year thousandths-IsOrdered
      refl lek_recipe (params_of thousandths ℕ as_float (λ n. eqb n 0) as_year lek_recipe)
      "salinity" lek_recipe_runs
