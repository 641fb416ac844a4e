-- ===== src/Conversation/SpatialNode.antt =====
-- services/nodes/spatial.py: the spatial origins of a question, looked up at the PDOK location server.
-- The request is a parameter, and so are `float` and the format `:.6f`. The two regular expressions
-- are written out: a character class is never followed by one of its own characters, so that the
-- longest run is the only one that can match.
use onegov2_spatial_assistan.Prelude.{
  String, Bool, true, false, ◌||◌, Option, none, some, List, [], ◌∷◌, ◌==◌, join, strip, has_prefix,
  text_drop, chars, is_digit, is_space, eqb, if◌then◌else◌,
}
use Prim.Native.Char.{Char, code}
use onegov2_spatial_assistan.Filters.Model.{Filter, SpatialQuery, Intent, IntentAnalysis}
use onegov2_spatial_assistan.Filters.Queries.{◌&◌}
use onegov2_spatial_assistan.Conversation.State.{
  ConversationState, CustomEvent, Ran, Called, call_step,
}

-- Floats as coordinates: `float(s)` raises on a text that is no number.
pub record Degrees : Type 1 where
  pub Float : Type 0
  pub float : String → Option Float
  pub fixed6 : Float → String

pub record Doc : Type 0 where
  pub weergavenaam : String
  pub kind : String
  pub centroide_ll : String

-- The answer of the location server: `response.docs`, or the text of the exception.
pub data Response : Type 0 where
  failed : String → Response
  answered : List Doc → Response

abbrev is_number_char : Char → Bool
is_number_char c = is_digit c || eqb (code c) b'.'

-- `[0-9.]*` at the start, and the rest
pub number_prefix : String → String × String
number_prefix String.[] = ("", "")
number_prefix (String.◌∷◌ c s) =
    let (number, rest) = number_prefix s in
    if is_number_char c then (String.◌∷◌ c number, rest) else ("", String.◌∷◌ c s)

pub skip_blanks : String → String
skip_blanks String.[] = ""
skip_blanks (String.◌∷◌ c s) =
    let rest = skip_blanks s in if is_space (code c) then rest else String.◌∷◌ c s

-- `[0-9.]+` at the start
abbrev pub number_at : String → Option (String × String)
number_at s =
    let (number, rest) = number_prefix s in if number == "" then none else some (number, rest)

abbrev pub literal_at : String → String → Option String
literal_at literal s = if has_prefix s literal then some (text_drop (chars literal) s) else none

-- `\s+` at the start
abbrev pub blanks_at : String → Option String
blanks_at s = if skip_blanks s == s then none else some (skip_blanks s)

-- `_WKT_POINT_RE.match`
unfoldable pub match_wkt_point : String → Option (String × String)
unfolding number_prefix skip_blanks
match_wkt_point wkt = elim (literal_at "POINT(" wkt) [
  | none ↦ none
  | some s ↦ elim (number_at s) [
    | none ↦ none
    | some (first, t) ↦ elim (blanks_at t) [
      | none ↦ none
      | some u ↦ elim (number_at u) [
        | none ↦ none
        | some (second, v) ↦ if has_prefix v ")" then some (first, second) else none
      ]
    ]
  ]
]

abbrev pub coord_at : String → Option (String × String)
coord_at s = elim (literal_at "lat=" s) [
  | none ↦ none
  | some t ↦ elim (number_at t) [
    | none ↦ none
    | some (first, u) ↦ elim (literal_at ", lon=" u) [
      | none ↦ none
      | some v ↦ elim (number_at v) [ none ↦ none | some (second, w) ↦ some (first, second) ]
    ]
  ]
]

-- `_COORD_RE.search`
unfoldable pub search_coord : String → Option (String × String)
unfolding number_prefix
search_coord String.[] = none
search_coord (String.◌∷◌ c s) =
    let later = search_coord s in
    elim (coord_at (String.◌∷◌ c s)) [ none ↦ later | some pair ↦ some pair ]

abbrev pub place_of : Filter → String
place_of f = strip (if has_prefix f.value "PLACE:" then text_drop 6 f.value else f.value)

-- The analysis that asks for a better description of a place.
abbrev pub unresolved : String → IntentAnalysis
unresolved query = record {
  is_clear = false;
  intent = none;
  follow_up_question = some (
      "Ik kon de locatie '" & query
      & "' niet eenduidig vinden. Kun je de locatie specifieker beschrijven?");
  thinking_summary = "";
}

-- How the loop over the origins ended; the exception is that of `float`.
pub data Resolution : Type 0 where
  resolved : List Filter → Resolution
  not_found : String → Resolution
  raised : Resolution

module _ (D : Degrees) where
  open D use {Float, float, fixed6}

  -- Two numbers of a match; an exception is `none`.
  abbrev pub floats_of : String → String → Option (Float × Float)
  floats_of a b = elim (float a) [
    | none ↦ none
    | some x ↦ elim (float b) [ none ↦ none | some y ↦ some (x, y) ]
  ]

  -- What a parser returns: an exception, no match, or latitude and longitude.
  pub data Parsed : Type 0 where
    raises no_match : Parsed
    found : (lat lon : Float) → Parsed

  unfoldable pub parse_centroide : String → Parsed
  parse_centroide wkt = elim (match_wkt_point wkt) [
    | none ↦ Parsed.no_match
    | some (a, b) ↦ elim (floats_of a b) [
      | none ↦ Parsed.raises
      | some (lon, lat) ↦ Parsed.found lat lon
    ]
  ]

  unfoldable pub parse_best_match : String → Parsed
  parse_best_match result_text = elim (search_coord result_text) [
    | none ↦ Parsed.no_match
    | some (a, b) ↦ elim (floats_of a b) [
      | none ↦ Parsed.raises
      | some (lat, lon) ↦ Parsed.found lat lon
    ]
  ]

  abbrev pub doc_line : Doc → Float → Float → String
  doc_line doc lat lon =
      "- "
      & doc.weergavenaam
      & " (type: "
      & doc.kind
      & ") → lat="
      & fixed6 lat
      & ", lon="
      & fixed6 lon

  -- The lines of the documents with coordinates; an exception is `none`.
  unfoldable pub doc_lines : List Doc → Option (List String)
  unfolding parse_centroide
  doc_lines [] = some []
  doc_lines (doc ∷ docs) =
      let rest = doc_lines docs in
      elim (parse_centroide doc.centroide_ll) [
        | raises ↦ none
        | no_match ↦ rest
        | found lat lon ↦ elim rest [
          | none ↦ none
          | some lines ↦ some (doc_line doc lat lon ∷ lines)
        ]
      ]

  -- The text of the search; an exception is `none`.
  unfoldable pub pdok_locatie_search : (String → Response) → String → Option String
  unfolding doc_lines
  pdok_locatie_search urlopen query = elim (urlopen query) [
    | failed exc ↦ some ("Fout bij opzoeken van locatie '" & query & "': " & exc)
    | answered [] ↦ some ("Geen resultaten gevonden voor '" & query & "'.")
    | answered (doc ∷ docs) ↦ elim (doc_lines (doc ∷ docs)) [
      | none ↦ none
      | some [] ↦ some ("Geen coördinaten gevonden voor '" & query & "'.")
      | some (line ∷ lines) ↦ some (
          "Resultaten voor '"
          & query
          & "':\n"
          & join "\n" (line ∷ lines)
          & "\n\nGebruik de coördinaten van het beste resultaat als LATLON filter in spatial_query.origin_filters: ")
    ]
  ]

  -- One origin: the text of the search, parsed.
  abbrev pub look_up : (String → Response) → String → Parsed
  look_up urlopen query = elim (pdok_locatie_search urlopen query) [
    | none ↦ Parsed.raises
    | some text ↦ parse_best_match text
  ]

  abbrev pub latlon : Float → Float → String
  latlon lat lon = "LATLON:" & fixed6 lat & "," & fixed6 lon

  unfoldable pub resolve_origins : (String → Response) → List Filter → Resolution
  resolve_origins urlopen [] = Resolution.resolved []
  resolve_origins urlopen (f ∷ fs) =
      let later = resolve_origins urlopen fs in
      elim (look_up urlopen (place_of f)) [
        | raises ↦ Resolution.raised
        | no_match ↦ Resolution.not_found (place_of f)
        | found lat lon ↦ elim later [
          | resolved filters ↦ Resolution.resolved (record f { value = latlon lat lon } ∷ filters)
          | not_found query ↦ Resolution.not_found query
          | raised ↦ Resolution.raised
        ]
      ]

  abbrev pub resolved_analysis : Intent → SpatialQuery → List Filter → IntentAnalysis
  resolved_analysis intent q filters = record {
    is_clear = true;
    intent = some (record intent { spatial_query = some (record q { origin_filters = filters }) });
    follow_up_question = none;
    thinking_summary = "";
  }

  -- The update of a run that looked something up, or had nothing to look up.
  abbrev pub with_origins : ConversationState → Intent → SpatialQuery → Resolution → Ran
  with_origins state intent q (resolved filters) = (
    [],
    some (record state {
      intent_analysis = some (resolved_analysis intent q filters);
      needs_spatial_resolution = false;
      pdok_used = not_empty q.origin_filters;
    }),
  )
    where
      not_empty : List Filter → Bool
      not_empty [] = false
      not_empty (f ∷ fs) = true
  with_origins state intent q (not_found query) = (
    CustomEvent.follow_up_text (unresolved query).follow_up_question ∷ [],
    some (record state {
      intent_analysis = some (unresolved query);
      needs_spatial_resolution = false;
      pdok_used = true;
    }),
  )
  with_origins state intent q raised = ([], none)

  abbrev pub skipped : ConversationState → ConversationState
  skipped state = record state { needs_spatial_resolution = false; pdok_used = false }

  module _ (urlopen : String → Response) where
    unfoldable pub run : ConversationState → Ran
    unfolding resolve_origins
    run state = elim state.intent_analysis [
      | none ↦ ([], none)
      | some analysis ↦
          if state.needs_spatial_resolution
          then elim analysis.intent [
            | none ↦ ([], none)
            | some intent ↦ elim intent.spatial_query [
              | none ↦ ([], none)
              | some q ↦ with_origins state intent q (resolve_origins urlopen q.origin_filters)
            ]
          ]
          else ([], some (skipped state))
    ]

    unfoldable pub resolve_spatial : ConversationState → Called
    unfolding call_step run
    resolve_spatial state = call_step "spatial" false (run state) (skipped state)
