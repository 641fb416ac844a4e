-- ===== src/Scenario/Area.antt =====
-- services/scenario/area.py: the grid cells that a scenario is about. The request of the location
-- server, the cells of the protection zones in the data files and the grid of H3 are parameters.
use onegov2_spatial_assistan.Prelude.{
  ℕ, String, Option, none, some, List, [], ◌∷◌, ◌==◌, Dict, contains_text, lower, is_empty, length,
  if◌then◌else◌,
}
use onegov2_spatial_assistan.Floats.{Floats}
use onegov2_spatial_assistan.Filters.Queries.{◌&◌}
use onegov2_spatial_assistan.Scenario.Params.{ScenarioParams}

module _ (F : Floats) where
  open F use {Float, decimal}

  -- `geocode_pdok` of a name; the cells of the zones, by intake and all of them, when the file is
  -- there; the cells of `grid_disk` around a place; and the text of a number.
  pub record Region : Type 0 where
    pub geocode_pdok : String → Option (Float × Float)
    pub zones_of : Option (String → List String)
    pub all_zones : List String
    pub grid_disk : Float × Float → ℕ → List String
    pub str : ℕ → String

  abbrev pub fallback_coords : Dict (Float × Float)
  fallback_coords =
      ("pijnacker", (decimal 52019 3, decimal 4432 3))
      ∷ ("nootdorp", (decimal 52040 3, decimal 4392 3))
      ∷ ("den haag", (decimal 52080 3, decimal 4310 3))
      ∷ ("rotterdam", (decimal 51922 3, decimal 4479 3))
      ∷ ("gouda", (decimal 52011 3, decimal 4711 3))
      ∷ ("delft", (decimal 52011 3, decimal 4357 3))
      ∷ []

  abbrev pub default_zh : Float × Float
  default_zh = (decimal 5202 2, decimal 450 2)

  -- The cells, None for the whole region; the descriptor; the mode and the number in `meta`.
  pub record Area : Type 0 where
    pub area_cells : Option (List String)
    pub descriptor_nl : String
    pub mode : String
    pub n : Option ℕ

  abbrev name_or : Option String → String → String
  name_or none other = other
  name_or (some t) other = if t == "" then other else t

  pub fallback_from : String → Dict (Float × Float) → (Float × Float) × String
  fallback_from name [] = (default_zh, "fallback:Zuid-Holland")
  fallback_from name ((key, coords) ∷ rest) =
      let later = fallback_from name rest in
      if contains_text name key then (coords, "fallback:" & key) else later

  -- `k = max(1, math.ceil(3.5 / 0.35))`
  abbrev pub rings : ℕ
  rings = 10

  module _ (R : Region) where
    abbrev zes_cells : Option String → List String
    zes_cells intake_id = elim R.zones_of [
      | none ↦ []
      | some named ↦
          let id = name_or intake_id "" in
          if id == ""
          then R.all_zones
          else if is_empty (named (lower id))
          then R.all_zones
          else named (lower id)
    ]

    abbrev located : Option String → (Float × Float) × String
    located name = elim (if name_or name "" == "" then none else R.geocode_pdok (name_or name "")) [
      | some latlon ↦ (latlon, "PDOK")
      | none ↦ fallback_from (lower (name_or name "")) fallback_coords
    ]

    unfoldable pub select_h3_area : ScenarioParams F → Area
    unfolding fallback_from
    select_h3_area params =
        if params.scenario_type == "intake_failure"
        then (let cells = zes_cells params.intake_id in
            record {
              area_cells = some cells;
              descriptor_nl = "zes-uur beschermingszones (" & R.str (length cells) & " cellen)";
              mode = "zes_uur";
              n = some (length cells);
            })
        else if params.scenario_type == "drop_pin"
        then (let (latlon, source) = located params.location_name in
            let cells = R.grid_disk latlon rings in
            record {
              area_cells = some cells;
              descriptor_nl =
                  "H3 grid_disk ~3.5 km rond "
                  & name_or params.location_name "locatie"
                  & " via "
                  & source
                  & " ("
                  & R.str (length cells)
                  & " cellen)";
              mode = "grid_disk";
              n = some (length cells);
            })
        else record {
          area_cells = none;
          descriptor_nl = "volledige verziltingsregio";
          mode = "all";
          n = none;
        }
