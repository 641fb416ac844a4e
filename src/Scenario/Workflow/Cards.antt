-- ===== src/Scenario/Workflow/Cards.antt =====
-- What a scenario card says when the parameters were given, as the chatbot's gate gives them.
use onegov2_spatial_assistan.Prelude.{
  ◌+◌, ◌≤◌, String, ◌≡◌, refl, ap, sym, ◌∙◌, true, Option, some, List, [], ◌∷◌, arith, Dict, map,
  length, length-take_le, In, In.here, In.there, In-take, sort_by, sort_by_inv, IsSorted,
  IsSorted-take, sort_by-IsSorted, Bool-cases, inl, inr,
}
use onegov2_spatial_assistan.Floats.{Floats, IsOrdered}
use onegov2_spatial_assistan.Scenario.Scoring.{
  Verdict, AreaScore, score_h3_area, setting, full_assumptions,
}
use onegov2_spatial_assistan.Scenario.Scoring.Partition.{score_h3_area_lem, length-scored_rows}
use onegov2_spatial_assistan.Scenario.Params.{ScenarioParams, params_to_assumptions}
use onegov2_spatial_assistan.Scenario.Workflow.{
  Engine, Ended, ScenarioCard, Measure, RankedMeasure, interventions, rescored, reduces_more, is_go,
  ranked_interventions, scored_area, universe, run_scenario, extract_node, score_node, format_node,
  add_step,
}

-- The card of a run on given parameters.
abbrev card_on :
    (F : Floats)
    → Engine F
    → String
    → String
    → String
    → Dict F.Float
    → ScenarioParams F
    → Option String
    → ScenarioCard F
card_on F E question sid created_at extra p base =
    let (params, conf, steps) = extract_node F E question (some (p, F.decimal 10 1)) in
    let state = score_node F E params conf steps extra base in
    format_node F E question sid created_at state
      (ranked_interventions F E state.score state.assumptions_used)

-- Given parameters are never questioned.
pub run_scenario-card :
    (F : Floats) (E : Engine F) (question sid created_at : String) (extra : Dict F.Float)
    (p : ScenarioParams F) (base : Option String)
    → F.le (F.decimal 5 1) (F.decimal 10 1) ≡ true
    → (c : ScenarioCard F) × (run_scenario F E question sid created_at extra (some p) base
        ≡ Ended.card c)
unfolding run_scenario extract_node
run_scenario-card F E question sid created_at extra p base sure =
    (card_on F E question sid created_at extra p base, rw (run_scenario, sure) refl)

module _ (F : Floats) (o : IsOrdered F) (E : Engine F) where
  open F use {Float, le, decimal}

  -- An offered measure: one of the catalogue, re-scored over the whole salinity universe.
  abbrev pub IsRescored : AreaScore F → Dict Float → RankedMeasure F → Type 0
  IsRescored res a r = In r.measure (interventions F) × (r ≡ rescored F E res a r.measure)

  pub record IsOffer (res : AreaScore F) (a : Dict Float) (ranked : List (RankedMeasure F))
      : Type 0 where
    pub at_most : length ranked ≤ 3
    pub sorted : IsSorted (reduces_more F E) ranked
    pub known : (r : RankedMeasure F) → In r ranked → IsRescored res a r
    pub none_for_go : res.area_verdict ≡ Verdict.go → ranked ≡ []

  map-rescored :
      (res : AreaScore F) (a : Dict Float) (ms : List (Measure F)) (r : RankedMeasure F)
      → In r (map (rescored F E res a) ms)
      → In r.measure ms × (r ≡ rescored F E res a r.measure)
  unfolding rescored
  map-rescored res a [] r m = elim m [ ]
  map-rescored res a (iv ∷ ms) r (here q) =
      let same : r.measure ≡ iv = ap (λ x. x.measure) q in
      (here same, q ∙ ap (rescored F E res a) (sym same))
  map-rescored res a (iv ∷ ms) r (there m) = let t = map-rescored res a ms r m in (there t.0, t.1)

  ranked_interventions-IsOffer :
      (res : AreaScore F) (a : Dict Float) → IsOffer res a (ranked_interventions F E res a)
  unfolding ranked_interventions
  ranked_interventions-IsOffer res a = elim (Bool-cases (is_go F E res.area_verdict)) [
    | inl e ↦
        rw (e, ranked_interventions)
          (record {
            at_most = omega arith;
            sorted = tt;
            known = λ r m. elim m [ ];
            none_for_go = λ h. refl;
          })
    | inr e ↦
        let all = sort_by (reduces_more F E) (map (rescored F E res a) (interventions F)) in
        rw (e, ranked_interventions)
          (record {
            at_most = length-take_le 3 all;
            sorted = IsSorted-take (reduces_more F E) 3 all (
                sort_by-IsSorted (reduces_more F E)
                  (λ x y h. o.le_total y.stop_share_reduction_pct x.stop_share_reduction_pct h)
                  (λ x y z h k.
                    o.le_trans z.stop_share_reduction_pct y.stop_share_reduction_pct
                      x.stop_share_reduction_pct k h)
                  (map (rescored F E res a) (interventions F)));
            known = λ r m. map-rescored res a (interventions F) r (
                sort_by_inv (reduces_more F E) (map (rescored F E res a) (interventions F))
                  (In-take 3 all m));
            none_for_go = λ h. absurd (cc (e, ap (is_go F E) h));
          })
  ]

  -- A card on the parameters `p`: its verdict is that of the cells of its universe, its counts are
  -- all of those cells, its steps are numbered, and its measures are an offer.
  pub record IsCard (p : ScenarioParams F) (extra : Dict Float) (base : Option String)
      (c : ScenarioCard F) : Type 0 where
    pub same_params : c.params ≡ p
    pub same_verdict :
        c.results.feasibility_class
        ≡ (scored_area F E (params_to_assumptions F p extra) base p).area_verdict
    pub all_cells : c.results.n_stop + c.results.n_caution + c.results.n_go ≡ c.results.n_cells
    pub numbered : map (λ s. s.step_nr) c.reasoning_steps ≡ 1 ∷ 2 ∷ 3 ∷ []
    pub offer :
        IsOffer
          (scored_area F E (params_to_assumptions F p extra) base p)
          (params_to_assumptions F p extra)
          c.results.interventions_ranked

  area_partition :
      (a : Dict Float) (base : Option String) (p : ScenarioParams F)
      → le
          (setting F (full_assumptions F a) "verdict_caution")
          (setting F (full_assumptions F a) "verdict_stop")
        ≡ true
      → (scored_area F E a base p).n_stop
          + (scored_area F E a base p).n_caution
          + (scored_area F E a base p).n_go
        ≡ (scored_area F E a base p).n_cells
  unfolding score_h3_area
  area_partition a base p h =
      let (chosen, area) = universe F E base p in
      let rows = E.rows a area.area_cells chosen in
      let (s, c, g, total) = score_h3_area_lem F o a 200 rows h in
      omega (arith, length-scored_rows F (full_assumptions F a) rows)

  -- Given parameters are never questioned: when the thresholds are in order, the run ends with a card
  -- on exactly these parameters. Its verdict is that of the cells of their universe, its three counts
  -- add up to those cells, its steps are numbered from one, and its measures are at most three of the
  -- catalogue, by falling reduction, none for a go; each is re-scored over the whole salinity
  -- universe, whatever the cells of the scenario.
  pub run_scenario-IsCard :
      (question sid created_at : String) (extra : Dict Float) (p : ScenarioParams F)
      (base : Option String)
      → le (decimal 5 1) (decimal 10 1) ≡ true
      → le
          (setting F (full_assumptions F (params_to_assumptions F p extra)) "verdict_caution")
          (setting F (full_assumptions F (params_to_assumptions F p extra)) "verdict_stop")
        ≡ true
      → (c : ScenarioCard F) × (run_scenario F E question sid created_at extra (some p) base
          ≡ Ended.card c)
        × IsCard p extra base c
  unfolding run_scenario extract_node score_node format_node add_step
  run_scenario-IsCard question sid created_at extra p base sure ordered = (
    card_on F E question sid created_at extra p base,
    rw (run_scenario, sure) refl,
    record {
      same_params = refl;
      same_verdict = refl;
      all_cells = area_partition (params_to_assumptions F p extra) base p ordered;
      numbered = refl;
      offer =
          ranked_interventions-IsOffer (scored_area F E (params_to_assumptions F p extra) base p)
            (params_to_assumptions F p extra);
    },
  )
