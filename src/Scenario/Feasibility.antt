-- ===== src/Scenario/Feasibility.antt =====
-- services/scenario/feasibility.py: the verdict from a supply gap and the daily demand.
use onegov2_spatial_assistan.Prelude.{
  ◌≡◌, ◌↔◌, Bool, true, false, List, [], ◌∷◌, String, Dict, lookup_or, if◌then◌else◌, arith,
}
use onegov2_spatial_assistan.Floats.{Floats, IsOrdered, zero_float, neg}
use onegov2_spatial_assistan.Scenario.Scoring.{Verdict}

-- Go is no worse than caution, and caution no worse than stop.
abbrev pub severity_le : Verdict → Verdict → Bool
severity_le Verdict.go v = true
severity_le Verdict.caution Verdict.go = false
severity_le Verdict.caution v = true
severity_le Verdict.stop Verdict.stop = true
severity_le Verdict.stop v = false

module _ (F : Floats) where
  open F use {Float, le, mul, decimal}

  abbrev pub caution_band : Float
  caution_band = decimal 5 2

  unfoldable pub compute_feasibility_class : Float → Float → Verdict
  compute_feasibility_class gap demand =
      if le demand (zero_float F)
      then (if le (zero_float F) gap then Verdict.go else Verdict.stop)
      else if le (zero_float F) gap
      then Verdict.go
      else if le (mul (neg F caution_band) demand) gap
      then Verdict.caution
      else Verdict.stop

  -- The verdict for each preset; a preset without a demand counts as none.
  unfoldable pub feasibility_by_knmi : Dict Float → Dict Float → List (String × Verdict)
  unfolding compute_feasibility_class
  feasibility_by_knmi [] demand = []
  feasibility_by_knmi ((preset, gap) ∷ gaps) demand =
      (preset, compute_feasibility_class gap (lookup_or preset demand (zero_float F)))
      ∷ feasibility_by_knmi gaps demand

  -- Go is said exactly when there is no shortfall.
  pub compute_feasibility_class-go :
      (gap demand : Float)
      → compute_feasibility_class gap demand ≡ Verdict.go ↔ le (zero_float F) gap ≡ true
  unfolding compute_feasibility_class
  compute_feasibility_class-go gap demand = ground arith

  -- A larger gap (a smaller shortfall) never has a worse verdict.
  pub compute_feasibility_class_mono :
      IsOrdered F
      → (gap better demand : Float) → le gap better ≡ true
      → severity_le (compute_feasibility_class better demand) (compute_feasibility_class gap demand)
        ≡ true
  unfolding compute_feasibility_class
  compute_feasibility_class_mono o gap better demand h =
      let floor = mul (neg F caution_band) demand in
      ground (arith, o.le_trans (zero_float F) gap better, o.le_trans floor gap better)
