-- ===== src/Scenario/Scoring.antt =====
-- services/scenario/real_scoring.py: the score of a cell and the verdict on an area. The rows that
-- the joins of the SQL give are an argument; its CASE, LEAST, count and sum are written out.
pub mod Partition
use onegov2_spatial_assistan.Prelude.{
  ℕ, String, Bool, true, false, not, ◌&&◌, ◌+◌, Option, none, some, List, [], ◌∷◌, Dict, lookup_or,
  merge, length, map, count_if, take, ltb, sort_by, if◌then◌else◌,
}
use onegov2_spatial_assistan.Floats.{Floats, flt, of_ℕ, zero_float, neg}

pub data Verdict : Type 0 where
  go caution stop : Verdict

-- One row of the joins: the cell, and what each theme knows of it.
pub record Joined : Type 0 where
  pub h : String
  pub relevant : Bool
  pub risico : Option String
  pub protected : Bool
  pub pop : Option ℕ

module _ (F : Floats) where
  open F use {Float, le, add, sub, mul, div, decimal, round}

  abbrev pub default_assumptions : Dict Float
  default_assumptions =
      ("weight_salinity", decimal 4 1)
      ∷ ("weight_demand", decimal 3 1)
      ∷ ("weight_flood", decimal 2 1)
      ∷ ("weight_protection", decimal 1 1)
      ∷ ("knmi_dryness_multiplier", decimal 1 0)
      ∷ ("demand_per_person_m3_day", decimal 119 3)
      ∷ ("population_growth_pct", decimal 0 0)
      ∷ ("demand_ref_m3_per_cell", decimal 15 1)
      ∷ ("added_homes", decimal 0 0)
      ∷ ("regional_households", decimal 1700000 0)
      ∷ ("pop_min_built_up", decimal 0 0)
      ∷ ("verdict_caution", decimal 33 0)
      ∷ ("verdict_stop", decimal 66 0)
      ∷ ("area_stop_share", decimal 2 1)
      ∷ []

  abbrev pub flood_severity : Dict Float
  flood_severity =
      ("Niet kwetsbaar", decimal 0 0)
      ∷ ("0 - 0,2 m", decimal 2 1)
      ∷ ("0,2 - 0,5 m", decimal 4 1)
      ∷ ("0,5 - 2,0 m", decimal 7 1)
      ∷ ("Meer dan 2 m", decimal 1 0)
      ∷ ("Onbekend", decimal 3 1)
      ∷ []

  -- `{**DEFAULT_ASSUMPTIONS, **a}`
  abbrev pub full_assumptions : Dict Float → Dict Float
  full_assumptions a = merge default_assumptions a

  -- `a[name]` on assumptions that were merged with the defaults, which have every name.
  abbrev pub setting : Dict Float → String → Float
  setting a name = lookup_or name a (zero_float F)

  abbrev pub least : Float → Float → Float
  least x y = if le x y then x else y

  abbrev pub greatest : Float → Float → Float
  greatest x y = if le y x then x else y

  -- The thresholds of a merged set of assumptions decide the class.
  unfoldable pub class_of : Dict Float → Float → Verdict
  class_of a score =
      if le (setting a "verdict_stop") score
      then Verdict.stop
      else if le (setting a "verdict_caution") score
      then Verdict.caution
      else Verdict.go

  abbrev pub verdict_from_score : Float → Dict Float → Verdict
  verdict_from_score score a = class_of (full_assumptions a) score

  pub record Scored : Type 0 where
    pub h3_id : String
    pub demand_norm : Float
    pub salinity : Float
    pub flood : Float
    pub protection : Float
    pub demand : Float
    pub score : Float

  abbrev pub mask : Bool → Float
  mask b = if b then decimal 1 0 else zero_float F

  abbrev pub flood_of : Option String → Float
  flood_of none = zero_float F
  flood_of (some risico) = lookup_or risico flood_severity (zero_float F)

  abbrev pub pop_of : Option ℕ → Float
  pop_of none = zero_float F
  pop_of (some n) = of_ℕ F n

  -- The `scored` rows of the query.
  unfoldable pub scored_row : Dict Float → Joined → Scored
  scored_row a row =
      let hundred = decimal 100 0 in
      let added_factor = add (decimal 1 0) (
        div (setting a "added_homes") (greatest (setting a "regional_households") (decimal 1 0))) in
      let per_head = mul (pop_of row.pop) (setting a "demand_per_person_m3_day") in
      let grown = mul per_head (add (decimal 1 0) (setting a "population_growth_pct")) in
      let demand_norm =
        least (decimal 1 0) (div (mul grown added_factor) (setting a "demand_ref_m3_per_cell")) in
      let s =
        mul (mul (setting a "weight_salinity") (mask row.relevant))
          (setting a "knmi_dryness_multiplier") in
      let f = mul (setting a "weight_flood") (flood_of row.risico) in
      let p = mul (setting a "weight_protection") (mask row.protected) in
      let d = mul (setting a "weight_demand") demand_norm in
      record {
        h3_id = row.h;
        demand_norm = demand_norm;
        salinity = mul hundred s;
        flood = mul hundred f;
        protection = mul hundred p;
        demand = mul hundred d;
        score = mul hundred (least (decimal 1 0) (add (add (add s f) p) d));
      }

  abbrev pub sum_from : Float → List Float → Float
  sum_from total [] = total
  sum_from total (x ∷ xs) = sum_from (add total x) xs

  -- `sum(xs)`
  abbrev pub sum_of : List Float → Float
  sum_of xs = sum_from (zero_float F) xs

  pub record AreaScore : Type 0 where
    pub n_cells : ℕ
    pub score_avg : Float
    pub demand_avg : Float
    pub n_stop : ℕ
    pub n_caution : ℕ
    pub n_go : ℕ
    pub stop_share : Float
    pub area_verdict : Verdict
    pub cells : List (String × Float × Verdict)

  abbrev pub share_of : ℕ → ℕ → Float
  share_of n total = if ltb 0 total then div (of_ℕ F n) (of_ℕ F total) else zero_float F

  abbrev pub average : List Float → ℕ → Float
  average xs k =
      if ltb 0 (length xs) then round (div (sum_of xs) (of_ℕ F (length xs))) k else zero_float F

  -- The verdict on an area, from the share of its cells that stop and the count that is not go.
  abbrev pub area_class : Dict Float → Float → ℕ → Verdict
  area_class a stop_share n_risk =
      if le (setting a "area_stop_share") stop_share
      then Verdict.stop
      else if ltb 0 n_risk
      then Verdict.caution
      else Verdict.go

  -- The aggregate over the scored cells, and the `return_cells` highest of them.
  unfoldable pub score_h3_area : Dict Float → ℕ → List Joined → AreaScore
  unfolding scored_row
  score_h3_area assumptions return_cells rows =
      let a = full_assumptions assumptions in
      let stop = setting a "verdict_stop" in
      let caution = setting a "verdict_caution" in
      let scored = map (scored_row a) rows in
      let n_stop = count_if (λ c. le stop c.score) scored in
      let n_caution = count_if (λ c. le caution c.score && flt F c.score stop) scored in
      let share = share_of n_stop (length scored) in
      let highest = take return_cells (sort_by (λ c d. le d.score c.score) scored) in
      record {
        n_cells = length scored;
        score_avg = average (map (λ c. c.score) scored) 1;
        demand_avg = average (map (λ c. c.demand_norm) scored) 3;
        n_stop = n_stop;
        n_caution = n_caution;
        n_go = count_if (λ c. flt F c.score caution) scored;
        stop_share = round share 3;
        area_verdict = area_class a share (n_stop + n_caution);
        cells = map (λ c. (c.h3_id, round c.score 1, verdict_from_score c.score a)) highest;
      }

  abbrev pub rounded : Scored → Scored
  rounded c = record {
    h3_id = c.h3_id;
    demand_norm = c.demand_norm;
    salinity = round c.salinity 2;
    flood = round c.flood 2;
    protection = round c.protection 2;
    demand = round c.demand 2;
    score = round c.score 1;
  }

  -- What the comparison reads of a cell: score and factors, rounded.
  unfoldable pub score_cells_components : Dict Float → List Joined → List Scored
  score_cells_components assumptions rows =
      map rounded (map (scored_row (full_assumptions assumptions)) rows)
