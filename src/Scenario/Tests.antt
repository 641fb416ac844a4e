-- ===== src/Scenario/Tests.antt =====
-- The scenario engine on two cells, in thousandths.
use onegov2_spatial_assistan.Prelude.{
  map, keep, take, if◌then◌else◌, ℕ, ◌≡◌, refl, ◌↔◌, ◌+◌, true, false, none, some, List, [], ◌∷◌,
  String, length, All, count_if,
}
use onegov2_spatial_assistan.Floats.Thousandths.{thousandths, thousandths-IsOrdered}
use onegov2_spatial_assistan.Scenario.Scoring.{
  scored_row, setting, Verdict, Joined, class_of, full_assumptions, score_h3_area,
  score_cells_components,
}
use onegov2_spatial_assistan.Scenario.Scoring.Partition.{
  count_class, scored_rows, score_h3_area_lem, score_h3_area-go,
}
use onegov2_spatial_assistan.Scenario.Interventions.{rank_interventions, stack_interventions}
use onegov2_spatial_assistan.Scenario.Interventions.Choice.{
  IsBestThree, rank_interventions-IsBestThree, gap_after, AreConsistent, IsChain, is_known,
  stack_interventions_lem,
}
use onegov2_spatial_assistan.Scenario.Compare.{
  Diff, aggregate, cell_diff, compare_scenarios, changed, Universe,
}
use onegov2_spatial_assistan.Scenario.Compare.Counts.{
  total, still, cell_diff_lem, aggregate-score_h3_area,
}

abbrev salty : Joined
salty = record {
  h = "8919698";
  relevant = true;
  risico = some "Meer dan 2 m";
  protected = true;
  pop = some 20;
}

abbrev dry : Joined
dry = record { h = "8919699"; relevant = false; risico = none; protected = false; pop = none }

abbrev two_rows : List Joined
two_rows = salty ∷ dry ∷ []

abbrev shortfall : ℕ × ℕ
shortfall = (0, 5000)

score_h3_area_lem_example :
    let r = score_h3_area thousandths [] 1 two_rows in
    let a = full_assumptions thousandths [] in
    (r.n_stop ≡ count_class thousandths a Verdict.stop (scored_rows thousandths [] two_rows))
    × (r.n_caution
        ≡ count_class thousandths a Verdict.caution (scored_rows thousandths [] two_rows))
    × (r.n_go ≡ count_class thousandths a Verdict.go (scored_rows thousandths [] two_rows))
    × (r.n_stop + r.n_caution + r.n_go ≡ length two_rows)
score_h3_area_lem_example = score_h3_area_lem thousandths thousandths-IsOrdered [] 1 two_rows refl

dry_is_go : (score_h3_area thousandths [] 1 (dry ∷ [])).area_verdict ≡ Verdict.go
unfolding score_h3_area
dry_is_go = refl

score_h3_area-go_example :
    All
      (λ c. class_of thousandths (full_assumptions thousandths []) c.score ≡ Verdict.go)
      (scored_rows thousandths [] (dry ∷ []))
score_h3_area-go_example = score_h3_area-go thousandths [] 1 (dry ∷ []) dry_is_go

rank_interventions-IsBestThree_example :
    IsBestThree thousandths shortfall
      (50000, 0)
      "drop_pin"
      (rank_interventions thousandths shortfall (50000, 0) "drop_pin")
rank_interventions-IsBestThree_example =
    rank_interventions-IsBestThree thousandths thousandths-IsOrdered shortfall (50000, 0) "drop_pin"
      refl

stack_interventions_lem_example :
    let ids : List String = "buffer_30k" ∷ "onbekend" ∷ "alt_intake_lek" ∷ [] in
    let s = stack_interventions thousandths shortfall (50000, 0) ids in
    (s.baseline_gap_m3 ≡ shortfall)
    × (map (λ t. t.id) s.steps ≡ keep (is_known thousandths) ids)
    × IsChain thousandths (50000, 0) shortfall s.steps
    × (s.final_gap_m3 ≡ gap_after thousandths shortfall s.steps)
    × AreConsistent thousandths (50000, 0) s.steps
    × (s.achieves_go ≡ true ↔ s.final_feasibility_class ≡ Verdict.go)
stack_interventions_lem_example =
    stack_interventions_lem thousandths shortfall (50000, 0)
      ("buffer_30k" ∷ "onbekend" ∷ "alt_intake_lek" ∷ [])

abbrev one_diff : List (Diff thousandths)
one_diff =
    record {
      h3_id = "8919698";
      score_a = (1000, 0);
      score_b = (67000, 0);
      delta = (66000, 0);
      klasse_a = Verdict.go;
      klasse_b = Verdict.stop;
    }
    ∷ []

cell_diff_lem_example :
    let r = cell_diff thousandths 25 one_diff in
    (r.n_worsened + r.n_improved + r.n_unchanged ≡ r.n_common)
    × (r.n_unchanged ≡ count_if (still thousandths) one_diff)
    × (total r.transitions ≡ count_if (λ d. changed thousandths d) one_diff)
cell_diff_lem_example = cell_diff_lem thousandths thousandths-IsOrdered 25 one_diff

-- With a limit on the inhabitants, only the first of the two cells is left.
abbrev by_inhabitants : Universe thousandths
by_inhabitants a =
    if thousandths.le (1000, 0) (setting thousandths a "pop_min_built_up")
    then take 1 two_rows
    else two_rows

lost_cell_test :
    (compare_scenarios thousandths []
      (("pop_min_built_up", (1000, 0)) ∷ [])
      25
      by_inhabitants).cells.n_common
    ≡ 1
unfolding compare_scenarios score_cells_components scored_row
lost_cell_test = refl

aggregate-score_h3_area_example :
    let g =
      aggregate thousandths
        (score_cells_components thousandths [] two_rows)
        (full_assumptions thousandths []) in
    let h = score_h3_area thousandths [] 1 two_rows in
    (g.n_stop ≡ h.n_stop)
    × (g.n_caution ≡ h.n_caution)
    × (g.n_go ≡ h.n_go)
    × (g.feasibility_class ≡ h.area_verdict)
aggregate-score_h3_area_example =
    aggregate-score_h3_area thousandths thousandths-IsOrdered [] 1 salty (dry ∷ [])
      (refl, (refl, tt)) refl
