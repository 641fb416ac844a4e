-- ===== src/Scenario/Compare.antt =====
-- services/scenario/compare.py: two sets of assumptions scored over one base and one area. The rows
-- of the joins are an argument, as a function of the assumptions of a side: the cells of the base
-- "populated" depend on its pop_min_built_up. The map overlay and the narrative are left out.
pub mod Counts
use onegov2_spatial_assistan.Prelude.{
  ℕ, String, Bool, true, false, not, ◌&&◌, ◌||◌, ◌+◌, ◌-◌, Option, none, some, List, [], ◌∷◌, Dict,
  lookup, insert, length, map, count_if, keep, take, ltb, leb, is_empty, sort_by, if◌then◌else◌,
}
use onegov2_spatial_assistan.Floats.{Floats, flt, of_ℕ, zero_float, neg}
use onegov2_spatial_assistan.Scenario.Scoring.{
  Verdict, Joined, Scored, class_of, verdict_from_score, setting, full_assumptions,
  score_cells_components, sum_of, area_class,
}

abbrev pub same_class : Verdict → Verdict → Bool
same_class Verdict.go Verdict.go = true
same_class Verdict.caution Verdict.caution = true
same_class Verdict.stop Verdict.stop = true
same_class _ _ = false

-- `transitions[key] = transitions.get(key, 0) + 1`
unfoldable pub bump :
    Verdict → Verdict → List (Verdict × Verdict × ℕ) → List (Verdict × Verdict × ℕ)
bump v w [] = (v, w, 1) ∷ []
bump v w ((x, y, n) ∷ rest) =
    let later = bump v w rest in
    if same_class v x && same_class w y then (x, y, n + 1) ∷ rest else (x, y, n) ∷ later

module _ (F : Floats) where
  open F use {Float, le, add, sub, mul, div, decimal, round}

  pub record Aggregate : Type 0 where
    pub n_cells : ℕ
    pub score_avg : Float
    pub n_stop : ℕ
    pub n_caution : ℕ
    pub n_go : ℕ
    pub stop_share : Float
    pub feasibility_class : Verdict

  unfoldable pub aggregate : List (Scored F) → Dict Float → Aggregate
  aggregate [] a_full = record {
    n_cells = 0;
    score_avg = zero_float F;
    n_stop = 0;
    n_caution = 0;
    n_go = 0;
    stop_share = zero_float F;
    feasibility_class = Verdict.go;
  }
  aggregate (c ∷ cs) a_full =
      let cells = c ∷ cs in
      let n = length cells in
      let stop = setting F a_full "verdict_stop" in
      let caution = setting F a_full "verdict_caution" in
      let n_stop = count_if (λ x. le stop x.score) cells in
      let n_caution = count_if (λ x. le caution x.score && flt F x.score stop) cells in
      let stop_share = div (of_ℕ F n_stop) (of_ℕ F n) in
      record {
        n_cells = n;
        score_avg = round (div (sum_of F (map (λ x. x.score) cells)) (of_ℕ F n)) 1;
        n_stop = n_stop;
        n_caution = n_caution;
        n_go = n - n_stop - n_caution;
        stop_share = round stop_share 3;
        feasibility_class = area_class F a_full stop_share (n_stop + n_caution);
      }

  -- One cell in both scorings.
  pub record Diff : Type 0 where
    pub h3_id : String
    pub score_a : Float
    pub score_b : Float
    pub delta : Float
    pub klasse_a : Verdict
    pub klasse_b : Verdict

  -- `{c["h3_id"]: c for c in cells}`, from a dict on
  unfoldable pub index_from : Dict (Scored F) → List (Scored F) → Dict (Scored F)
  index_from d [] = d
  index_from d (c ∷ cs) = index_from (insert c.h3_id c d) cs

  abbrev pub diff_of : Dict Float → Dict Float → Scored F → Scored F → Diff
  diff_of a_full b_full ca cb = record {
    h3_id = ca.h3_id;
    score_a = ca.score;
    score_b = cb.score;
    delta = round (sub cb.score ca.score) 1;
    klasse_a = verdict_from_score F ca.score a_full;
    klasse_b = verdict_from_score F cb.score b_full;
  }

  -- The cells of A that B has too, in the order of A.
  unfoldable pub diffs : Dict Float → Dict Float → Dict (Scored F) → List (Scored F) → List Diff
  diffs a_full b_full ib [] = []
  diffs a_full b_full ib (c ∷ cs) =
      let rest = diffs a_full b_full ib cs in
      elim (lookup c.h3_id ib) [ none ↦ rest | some cb ↦ diff_of a_full b_full c cb ∷ rest ]

  abbrev pub changed : Diff → Bool
  changed d = not (same_class d.klasse_a d.klasse_b)

  unfoldable pub transitions_from :
      List (Verdict × Verdict × ℕ) → List Diff → List (Verdict × Verdict × ℕ)
  unfolding bump
  transitions_from t [] = t
  transitions_from t (d ∷ ds) =
      transitions_from (if changed d then bump d.klasse_a d.klasse_b t else t) ds

  pub record CellDiff : Type 0 where
    pub n_common : ℕ
    pub n_worsened : ℕ
    pub n_improved : ℕ
    pub n_unchanged : ℕ
    pub transitions : List (Verdict × Verdict × ℕ)
    pub top_increases : List Diff
    pub top_decreases : List Diff

  unfoldable pub cell_diff : ℕ → List Diff → CellDiff
  unfolding transitions_from
  cell_diff top_n ds =
      let n_worsened = count_if (λ d. flt F (zero_float F) d.delta) ds in
      let n_improved = count_if (λ d. flt F d.delta (zero_float F)) ds in
      record {
        n_common = length ds;
        n_worsened = n_worsened;
        n_improved = n_improved;
        n_unchanged = length ds - n_worsened - n_improved;
        transitions = sort_by (λ s t. leb t.2 s.2) (transitions_from [] ds);
        top_increases = take top_n (sort_by (λ d e. le e.delta d.delta) ds);
        top_decreases = take top_n (sort_by (λ d e. le d.delta e.delta) ds);
      }

  pub record FactorMeans : Type 0 where
    pub salinity : Float
    pub flood : Float
    pub protection : Float
    pub demand : Float

  -- `n = len(cells) or 1`
  abbrev pub divisor : ℕ → ℕ
  divisor n = if ltb 0 n then n else 1

  unfoldable pub factor_means : List (Scored F) → FactorMeans
  factor_means cells =
      let n = of_ℕ F (divisor (length cells)) in
      record {
        salinity = div (sum_of F (map (λ c. c.salinity) cells)) n;
        flood = div (sum_of F (map (λ c. c.flood) cells)) n;
        protection = div (sum_of F (map (λ c. c.protection) cells)) n;
        demand = div (sum_of F (map (λ c. c.demand) cells)) n;
      }

  pub record Comparison : Type 0 where
    pub a : Aggregate
    pub b : Aggregate
    pub means_a : FactorMeans
    pub means_b : FactorMeans
    pub score_avg_delta : Float
    pub stop_share_delta : Float
    pub feasibility_changed : Bool
    pub cells : CellDiff

  -- The rows over the cells that the base and the area give under the full assumptions of a side.
  abbrev pub Universe : Type 0
  Universe = Dict Float → List Joined

  -- Each side over the rows of its own assumptions, side B's cells found by their identifier.
  unfoldable pub compare_scenarios : Dict Float → Dict Float → ℕ → Universe → Comparison
  unfolding aggregate factor_means cell_diff diffs index_from
  compare_scenarios assumptions_a assumptions_b top_n universe =
      let a_full = full_assumptions F assumptions_a in
      let b_full = full_assumptions F assumptions_b in
      let cells_a = score_cells_components F assumptions_a (universe a_full) in
      let cells_b = score_cells_components F assumptions_b (universe b_full) in
      let agg_a = aggregate cells_a a_full in
      let agg_b = aggregate cells_b b_full in
      record {
        a = agg_a;
        b = agg_b;
        means_a = factor_means cells_a;
        means_b = factor_means cells_b;
        score_avg_delta = round (sub agg_b.score_avg agg_a.score_avg) 1;
        stop_share_delta = round (sub agg_b.stop_share agg_a.stop_share) 3;
        feasibility_changed = not (same_class agg_a.feasibility_class agg_b.feasibility_class);
        cells = cell_diff top_n (diffs a_full b_full (index_from [] cells_b) cells_a);
      }
