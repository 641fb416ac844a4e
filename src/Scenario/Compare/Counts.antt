-- ===== src/Scenario/Compare/Counts.antt =====
-- The counts of a comparison: which cells are compared, and that each is counted once.
use onegov2_spatial_assistan.Prelude.{
  ℕ, ◌≡◌, refl, sym, ap, ◌∙◌, inl, inr, Bool, true, ◌&&◌, ◌+◌, ◌-◌, List, [], ◌∷◌, Dict, length,
  map, count_if, All, sort_by, insert_by, leb, Bool-cases, arith, if◌then◌else◌, suc, ltb,
}
use onegov2_spatial_assistan.Floats.{Floats, IsOrdered, flt, zero_float, of_ℕ}
use onegov2_spatial_assistan.Scenario.Scoring.{
  Verdict, Joined, scored_row, full_assumptions, setting, score_cells_components, score_h3_area,
  rounded, area_class, share_of,
}
use onegov2_spatial_assistan.Scenario.Scoring.Partition.{
  scored_rows, score_h3_area_lem, length-scored_rows,
}
use onegov2_spatial_assistan.Scenario.Compare.{
  bump, aggregate, Diff, changed, transitions_from, cell_diff,
}

-- How many cells the transitions count.
abbrev pub total : List (Verdict × Verdict × ℕ) → ℕ
total [] = 0
total (t ∷ ts) = t.2 + total ts

total-bump :
    (v w : Verdict) (ts : List (Verdict × Verdict × ℕ)) → total (bump v w ts) ≡ suc (total ts)
unfolding bump
total-bump v w [] = omega arith
total-bump v w ((x, y, n) ∷ ts) = ground (arith, total-bump v w ts)

total-insert_by :
    (before : Verdict × Verdict × ℕ → Verdict × Verdict × ℕ → Bool) (t : Verdict × Verdict × ℕ)
    (ts : List (Verdict × Verdict × ℕ))
    → total (insert_by before t ts) ≡ t.2 + total ts
unfolding insert_by
total-insert_by before t [] = refl
total-insert_by before t (s ∷ ts) = ground (arith, total-insert_by before t ts)

total-sort_by :
    (before : Verdict × Verdict × ℕ → Verdict × Verdict × ℕ → Bool)
    (ts : List (Verdict × Verdict × ℕ))
    → total (sort_by before ts) ≡ total ts
unfolding sort_by
total-sort_by before [] = refl
total-sort_by before (t ∷ ts) =
    omega (arith, total-insert_by before t (sort_by before ts), total-sort_by before ts)

module _ (F : Floats) where
  open F use {Float, le}

  total-transitions_from :
      (ts : List (Verdict × Verdict × ℕ)) (ds : List (Diff F))
      → total (transitions_from F ts ds) ≡ total ts + count_if (λ d. changed F d) ds
  unfolding transitions_from
  total-transitions_from ts [] = omega arith
  total-transitions_from ts (d ∷ ds) = elim (Bool-cases (changed F d)) [
    | inl e ↦ rw e (
        omega (
          arith,
          total-transitions_from (bump d.klasse_a d.klasse_b ts) ds,
          total-bump d.klasse_a d.klasse_b ts,
        ))
    | inr e ↦ rw e (total-transitions_from ts ds)
  ]

  -- Cells whose score moved neither up nor down.
  abbrev pub still : Diff F → Bool
  still d = le d.delta (zero_float F) && le (zero_float F) d.delta

  moved :
      IsOrdered F
      → (ds : List (Diff F))
      → count_if (λ d. flt F (zero_float F) d.delta) ds
          + count_if (λ d. flt F d.delta (zero_float F)) ds
          + count_if still ds
        ≡ length ds
  moved o [] = omega arith
  moved o (d ∷ ds) =
      ground
        (arith, moved o ds, o.le_total d.delta (zero_float F), o.le_total (zero_float F) d.delta)

  -- Every compared cell is worsened, improved or unchanged, where unchanged means a difference of
  -- zero, and the transitions count each cell whose class differs once.
  pub cell_diff_lem :
      IsOrdered F
      → (top_n : ℕ) (ds : List (Diff F))
      → let r = cell_diff F top_n ds in
        (r.n_worsened + r.n_improved + r.n_unchanged ≡ r.n_common)
        × (r.n_unchanged ≡ count_if still ds)
        × (total r.transitions ≡ count_if (λ d. changed F d) ds)
  unfolding cell_diff
  cell_diff_lem o top_n ds =
      let m = moved o ds in
      (
        omega (arith, m),
        omega (arith, m),
        omega (
          arith,
          total-sort_by (λ s t. leb t.2 s.2) (transitions_from F [] ds),
          total-transitions_from [] ds,
        ),
      )

  length-components :
      (s : Dict Float) (rows : List Joined) → length (score_cells_components F s rows) ≡ length rows
  unfolding score_cells_components
  length-components s [] = refl
  length-components s (r ∷ rows) = omega (arith, length-components s rows)

  -- Rounding to one decimal leaves the scores alone.
  abbrev pub AreRounded : Dict Float → List Joined → Type 0
  AreRounded s rows = All (λ c. F.round c.score 1 ≡ c.score) (scored_rows F s rows)

  stays :
      (test : Float → Bool) (a : Dict Float) (rows : List Joined)
      → All (λ c. F.round c.score 1 ≡ c.score) (map (scored_row F a) rows)
      → count_if (λ c. test c.score) (map (rounded F) (map (scored_row F a) rows))
        ≡ count_if (λ c. test c.score) (map (scored_row F a) rows)
  stays test a [] h = refl
  stays test a (r ∷ rows) (q, h) =
      rw q (ap (λ n. if test (scored_row F a r).score then suc n else n) (stays test a rows h))

  left_over : (n s c n' s' c' g : ℕ) → n ≡ n' → s ≡ s' → c ≡ c' → s' + c' + g ≡ n' → n - s - c ≡ g
  left_over n s c n' s' c' g p q r h = omega arith

  same_area :
      (a : Dict Float) (n s c s' c' : ℕ) (n' : ℕ)
      → n ≡ n'
      → s ≡ s'
      → c ≡ c'
      → ltb 0 n' ≡ true
      → area_class F a (F.div (of_ℕ F s) (of_ℕ F n)) (s + c)
        ≡ area_class F a (share_of F s' n') (s' + c')
  same_area a n s c s' c' n' p q r h = rw (p, q, r, h) refl

  positive : (r : Joined) (rows : List Joined) → ltb 0 (length (r ∷ rows)) ≡ true
  positive r rows = ground arith

  -- Where rounding to one decimal leaves the scores alone and the caution threshold is at most the
  -- stop threshold, the comparison's aggregate of a non-empty area has the counts and the verdict of
  -- the scorer.
  pub aggregate-score_h3_area :
      IsOrdered F
      → (s : Dict Float) (k : ℕ) (r : Joined) (rows : List Joined) → AreRounded s (r ∷ rows)
      → le
          (setting F (full_assumptions F s) "verdict_caution")
          (setting F (full_assumptions F s) "verdict_stop")
        ≡ true
      → let g = aggregate F (score_cells_components F s (r ∷ rows)) (full_assumptions F s) in
        let h = score_h3_area F s k (r ∷ rows) in
        (g.n_stop ≡ h.n_stop)
        × (g.n_caution ≡ h.n_caution)
        × (g.n_go ≡ h.n_go)
        × (g.feasibility_class ≡ h.area_verdict)
  unfolding aggregate score_h3_area score_cells_components
  aggregate-score_h3_area o s k r rows whole order =
      let a = full_assumptions F s in
      let (_, _, _, total_cells) = score_h3_area_lem F o s k (r ∷ rows) order in
      let stop = stays (λ x. le (setting F a "verdict_stop") x) a (r ∷ rows) whole in
      let caution =
        stays (λ x. le (setting F a "verdict_caution") x && flt F x (setting F a "verdict_stop")) a
          (r ∷ rows) whole in
      let n = length-components s (r ∷ rows) in
      let m = length-scored_rows F a (r ∷ rows) in
      (
        stop,
        caution,
        left_over _ _ _ _ _ _ _ n stop caution total_cells,
        same_area a _ _ _ _ _ _ (n ∙ sym m) stop caution (rw m (positive r rows)),
      )
