-- ===== src/Scenario/Scoring/Partition.antt =====
-- The counts of an area: each cell is in exactly one of the three.
use onegov2_spatial_assistan.Prelude.{
  ℕ, ◌≡◌, refl, Bool, true, false, ◌&&◌, ◌+◌, List, [], ◌∷◌, Dict, length, map, count_if, All,
  arith,
}
use onegov2_spatial_assistan.Floats.{Floats, IsOrdered, flt}
use onegov2_spatial_assistan.Scenario.Scoring.{
  Verdict, Joined, Scored, class_of, setting, full_assumptions, scored_row, score_h3_area,
  area_class,
}

abbrev pub is_class : Verdict → Verdict → Bool
is_class Verdict.go Verdict.go = true
is_class Verdict.caution Verdict.caution = true
is_class Verdict.stop Verdict.stop = true
is_class _ _ = false

module _ (F : Floats) where
  open F use {Float, le}

  -- How many of the cells have a class.
  abbrev pub count_class : Dict Float → Verdict → List (Scored F) → ℕ
  count_class a v cells = count_if (λ c. is_class v (class_of F a c.score)) cells

  abbrev pub scored_rows : Dict Float → List Joined → List (Scored F)
  scored_rows assumptions rows = map (scored_row F (full_assumptions F assumptions)) rows

  -- The three counts, as the query takes them.
  abbrev stops : Dict Float → List (Scored F) → ℕ
  stops a = count_if (λ c. le (setting F a "verdict_stop") c.score)

  abbrev cautions : Dict Float → List (Scored F) → ℕ
  cautions a = count_if (λ c.
      le (setting F a "verdict_caution") c.score && flt F c.score (setting F a "verdict_stop"))

  abbrev gos : Dict Float → List (Scored F) → ℕ
  gos a = count_if (λ c. flt F c.score (setting F a "verdict_caution"))

  pub length-scored_rows :
      (a : Dict Float) (rows : List Joined) → length (map (scored_row F a) rows) ≡ length rows
  length-scored_rows a [] = refl
  length-scored_rows a (r ∷ rows) = omega (arith, length-scored_rows a rows)

  stops-count_class :
      (a : Dict Float) (cs : List (Scored F)) → stops a cs ≡ count_class a Verdict.stop cs
  unfolding class_of
  stops-count_class a [] = refl
  stops-count_class a (c ∷ cs) = ground (arith, stops-count_class a cs)

  cautions-count_class :
      (a : Dict Float) (cs : List (Scored F)) → cautions a cs ≡ count_class a Verdict.caution cs
  unfolding class_of
  cautions-count_class a [] = refl
  cautions-count_class a (c ∷ cs) = ground (arith, cautions-count_class a cs)

  gos-count_class :
      IsOrdered F
      → (a : Dict Float) (cs : List (Scored F))
      → le (setting F a "verdict_caution") (setting F a "verdict_stop") ≡ true
      → gos a cs ≡ count_class a Verdict.go cs
  unfolding class_of
  gos-count_class o a [] h = refl
  gos-count_class o a (c ∷ cs) h = ground (
    arith,
    gos-count_class o a cs h,
    o.le_trans (setting F a "verdict_caution") (setting F a "verdict_stop") c.score,
  )

  classes_total :
      (a : Dict Float) (cs : List (Scored F))
      → count_class a Verdict.stop cs
          + count_class a Verdict.caution cs
          + count_class a Verdict.go cs
        ≡ length cs
  unfolding class_of
  classes_total a [] = refl
  classes_total a (c ∷ cs) = ground (arith, classes_total a cs)

  -- When the caution threshold is at most the stop threshold, the three counts of an area are the
  -- numbers of its cells with each verdict, and together they are all of its cells.
  pub score_h3_area_lem :
      IsOrdered F
      → (assumptions : Dict Float) (return_cells : ℕ) (rows : List Joined)
      → le
          (setting F (full_assumptions F assumptions) "verdict_caution")
          (setting F (full_assumptions F assumptions) "verdict_stop")
        ≡ true
      → let r = score_h3_area F assumptions return_cells rows in
        let a = full_assumptions F assumptions in
        (r.n_stop ≡ count_class a Verdict.stop (scored_rows assumptions rows))
        × (r.n_caution ≡ count_class a Verdict.caution (scored_rows assumptions rows))
        × (r.n_go ≡ count_class a Verdict.go (scored_rows assumptions rows))
        × (r.n_stop + r.n_caution + r.n_go ≡ length rows)
  unfolding score_h3_area
  score_h3_area_lem o assumptions return_cells rows h =
      let a = full_assumptions F assumptions in
      let cs = scored_rows assumptions rows in
      let s = stops-count_class a cs in
      let c = cautions-count_class a cs in
      let g = gos-count_class o a cs h in
      let total = classes_total a cs in let n = length-scored_rows a rows in (s, c, g, omega arith)

  no_risk :
      (a : Dict Float) (cs : List (Scored F))
      → stops a cs + cautions a cs ≡ 0
      → All (λ c. class_of F a c.score ≡ Verdict.go) cs
  unfolding class_of
  no_risk a [] h = tt
  no_risk a (c ∷ cs) h = (ground arith, no_risk a cs (ground arith))

  area_go : (a : Dict Float) (share : Float) (n : ℕ) → area_class F a share n ≡ Verdict.go → n ≡ 0
  area_go a share n h = ground arith

  -- An area is go only when every one of its cells is.
  pub score_h3_area-go :
      (assumptions : Dict Float) (return_cells : ℕ) (rows : List Joined)
      → (score_h3_area F assumptions return_cells rows).area_verdict ≡ Verdict.go
      → All
          (λ c. class_of F (full_assumptions F assumptions) c.score ≡ Verdict.go)
          (scored_rows assumptions rows)
  unfolding score_h3_area
  score_h3_area-go assumptions return_cells rows h =
      let a = full_assumptions F assumptions in
      no_risk a (scored_rows assumptions rows) (area_go a _ _ h)
