-- ===== src/Scenario/Interventions/Choice.antt =====
-- What the ranking offers, and what a stack of interventions reaches.
use onegov2_spatial_assistan.Prelude.{
  ◌≤◌, Bool, String, ◌≡◌, refl, ap, ◌⊎◌, ◌↔◌, some, none, inl, inr, true, false, List, [], ◌∷◌,
  arith, keep, map, length, length-take_le, All, map-In, In-map, In, In-take, In-keep, keep-In,
  sort_by, IsSorted, IsSorted-take, sort_by-IsSorted, sort_by_inv, In-sort_by, take_or_after,
  Option-cases,
}
use onegov2_spatial_assistan.Floats.{Floats, IsOrdered, zero_float}
use onegov2_spatial_assistan.Scenario.Scoring.{Verdict}
use onegov2_spatial_assistan.Scenario.Feasibility.{
  compute_feasibility_class, compute_feasibility_class-go,
}
use onegov2_spatial_assistan.Scenario.Interventions.{
  Intervention, intervention_catalogue, Ranked, ranked_of, ranks_before, applies_to, ranking,
  rank_interventions, Step, stack_steps, stack_interventions, find_intervention,
  effective_supply_delta,
}

module _ (F : Floats) where
  open F use {Float, le}

  ranks_total :
      IsOrdered F → (x y : Ranked F) → ranks_before F x y ≡ false → ranks_before F y x ≡ true
  unfolding ranks_before
  ranks_total o x y h = ground (arith, o.le_total x.gap_closure_pct y.gap_closure_pct)

  ranks_trans :
      IsOrdered F
      → (x y z : Ranked F) → ranks_before F x y ≡ true
      → ranks_before F y z ≡ true
      → ranks_before F x z ≡ true
  unfolding ranks_before
  ranks_trans o x y z h k = ground (
    arith,
    o.le_trans x.gap_closure_pct y.gap_closure_pct z.gap_closure_pct,
    o.le_trans z.gap_closure_pct y.gap_closure_pct x.gap_closure_pct,
    o.le_trans z.gap_closure_pct x.gap_closure_pct y.gap_closure_pct,
    o.le_trans y.gap_closure_pct z.gap_closure_pct x.gap_closure_pct,
    o.le_trans x.gap_closure_pct z.gap_closure_pct y.gap_closure_pct,
    o.le_trans y.gap_closure_pct x.gap_closure_pct z.gap_closure_pct,
    o.le_total x.gap_closure_pct y.gap_closure_pct,
    o.le_total y.gap_closure_pct z.gap_closure_pct,
  )

  -- `out` is the three best of what applies, best first.
  pub record IsBestThree (gap demand : Float) (scenario_type : String) (out : List (Ranked F))
      : Type 0 where
    pub at_most : length out ≤ 3
    pub ranked : IsSorted (ranks_before F) out
    pub applicable :
        (r : Ranked F)
        → In r out
        → (i : Intervention F) × In i (intervention_catalogue F)
          × (applies_to F scenario_type i ≡ true)
          × (r ≡ ranked_of F gap demand i)
    pub nothing_better :
        (i : Intervention F)
        → In i (intervention_catalogue F)
        → applies_to F scenario_type i ≡ true
        → In (ranked_of F gap demand i) out
          ⊎ ((length out ≡ 3) × All (λ r. ranks_before F r (ranked_of F gap demand i) ≡ true) out)

  -- With a shortfall, the ranking holds at most three interventions, all of them applicable and from
  -- the catalogue, the larger closure first and then the shorter lead time, and an applicable one
  -- that is missing comes after the three that are there.
  pub rank_interventions-IsBestThree :
      IsOrdered F
      → (gap demand : Float) (scenario_type : String) → le (zero_float F) gap ≡ false
      → IsBestThree gap demand scenario_type (rank_interventions F gap demand scenario_type)
  unfolding rank_interventions ranking
  rank_interventions-IsBestThree o gap demand scenario_type h =
      let kept = keep (applies_to F scenario_type) (intervention_catalogue F) in
      let all = map (ranked_of F gap demand) kept in
      let before = ranks_before F in
      let ordered = sort_by-IsSorted before (ranks_total o) (ranks_trans o) all in
      rw h (record {
        at_most = length-take_le 3 (sort_by before all);
        ranked = IsSorted-take before 3 (sort_by before all) ordered;
        applicable = λ r m.
            let (i, n, q) =
              In-map (ranked_of F gap demand) kept
                (sort_by_inv before all (In-take 3 (sort_by before all) m)) in
            let k = In-keep (applies_to F scenario_type) (intervention_catalogue F) n in
            (i, k.0, k.1, q);
        nothing_better = λ i m p.
            take_or_after before (ranks_total o) (ranks_trans o) 3 (sort_by before all) ordered (
              In-sort_by before all (
                map-In (ranked_of F gap demand) kept
                  (keep-In (applies_to F scenario_type) (intervention_catalogue F) m p)));
      })

  -- The gap after the last step, or the baseline.
  abbrev pub gap_after : Float → List (Step F) → Float
  gap_after baseline [] = baseline
  gap_after baseline (s ∷ steps) = gap_after s.cumulative_gap_m3 steps

  -- Each step says what its own running gap means.
  abbrev pub AreConsistent : Float → List (Step F) → Type 0
  AreConsistent demand =
      All (λ s. s.feasibility_class ≡ compute_feasibility_class F s.cumulative_gap_m3 demand)

  -- The catalogue has an intervention of that identifier.
  abbrev pub is_known : String → Bool
  is_known iid = elim (find_intervention F iid (intervention_catalogue F)) [
    | none ↦ false
    | some _ ↦ true
  ]

  -- Each step adds to the gap before it what its intervention supplies or saves.
  abbrev pub IsChain : Float → Float → List (Step F) → Type 0
  IsChain demand gap [] = Unit
  IsChain demand gap (s ∷ steps) =
      ((i : Intervention F) × (find_intervention F s.id (intervention_catalogue F) ≡ some i)
        × (s.cumulative_gap_m3 ≡ F.add gap (effective_supply_delta F i demand)))
      × IsChain demand s.cumulative_gap_m3 steps

  abbrev IsRun : Float → Float → List String → Float × List (Step F) → Type 0
  IsRun baseline demand ids (final, steps) =
      (map (λ s. s.id) steps ≡ keep is_known ids)
      × IsChain demand baseline steps
      × (final ≡ gap_after baseline steps)
      × AreConsistent demand steps

  stack_steps-IsRun :
      (baseline demand : Float) (ids : List String)
      → IsRun baseline demand ids (stack_steps F baseline demand ids)
  unfolding stack_steps
  stack_steps-IsRun baseline demand [] = (refl, tt, refl, tt)
  stack_steps-IsRun baseline demand (iid ∷ ids) =
      elim (Option-cases (find_intervention F iid (intervention_catalogue F))) [
        | inl e ↦ rw (e, stack_steps, is_known) (stack_steps-IsRun baseline demand ids)
        | inr (i, e) ↦
            let rest =
              stack_steps-IsRun (F.add baseline (effective_supply_delta F i demand)) demand ids in
            rw (e, stack_steps, is_known)
              (ap (λ r. iid ∷ r) rest.0, ((i, e, refl), rest.1), rest.2, (refl, rest.3))
      ]

  -- A stack has one step to each requested intervention that the catalogue knows, in the order of the
  -- request; the gap of a step is that of the step before it, the first one the baseline, with what
  -- its intervention supplies or saves added; the final gap is that of the last step, or the baseline
  -- when there is none; each class is that of its running gap; and go is reached exactly when the
  -- final class is go.
  pub stack_interventions_lem :
      (baseline demand : Float) (ids : List String)
      → let s = stack_interventions F baseline demand ids in
        (s.baseline_gap_m3 ≡ baseline)
        × (map (λ t. t.id) s.steps ≡ keep is_known ids)
        × IsChain demand baseline s.steps
        × (s.final_gap_m3 ≡ gap_after baseline s.steps)
        × AreConsistent demand s.steps
        × (s.achieves_go ≡ true ↔ s.final_feasibility_class ≡ Verdict.go)
  unfolding stack_interventions
  stack_interventions_lem baseline demand ids =
      let go = compute_feasibility_class-go F (stack_steps F baseline demand ids).0 demand in
      let steps = stack_steps-IsRun baseline demand ids in
      (refl, steps.0, steps.1, steps.2, steps.3, (go.1, go.0))
