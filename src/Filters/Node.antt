-- ===== src/Filters/Node.antt =====
-- services/nodes/validate_filters.py and services/nodes/base.py: the node that validates the filters
-- of an intent and has a language model correct them. The model is a parameter; it answers or fails.
-- An exception is `none`; the events of a run are the list of what was dispatched.
pub mod Outcome
use onegov2_spatial_assistan.Prelude.{
  ℕ, String, Bool, true, false, not, ◌&&◌, ◌||◌, Option, none, some, List, [], ◌∷◌, ◌++◌, ◌==◌, map,
  keep, any, is_empty, if◌then◌else◌,
}
use onegov2_spatial_assistan.Dictionary.{ColumnInfo}
use onegov2_spatial_assistan.Filters.Model.{
  Filter, InvalidFilter, Source, Intent, IntentAnalysis, SpatialQuery,
}
use onegov2_spatial_assistan.Filters.Queries.{Connection}
use onegov2_spatial_assistan.Filters.Candidates.{CloseMatches, build_fallback_question}
use onegov2_spatial_assistan.Filters.Validation.{collect_invalid_filters}

pub data Event : Type 0 where
  step_thinking_summary : String → Event
  follow_up_text : Option String → Event
  status_active : Event
  error : Event

-- A state update: nothing, or a new intent_analysis.
pub data Update : Type 0 where
  unchanged : Update
  intent_analysis : IntentAnalysis → Update

-- The correction model on the intent, the invalid filters and `is_final_attempt`.
abbrev pub Corrector : Type 0
Corrector = Intent → List InvalidFilter → Bool → Option IntentAnalysis

unfoldable pub get_categorical_columns : List ColumnInfo → List (String × String)
get_categorical_columns [] = []
get_categorical_columns (col ∷ cols) =
    let rest = get_categorical_columns cols in
    if col.categorical then (col.table, col.name) ∷ rest else rest

unfoldable pub is_categorical : List (String × String) → Filter → Bool
is_categorical pairs f = elim f.table [
  | some t ↦ any (λ p. (p.0 == t) && (p.1 == f.column)) pairs
  | none ↦ any (λ p. p.1 == f.column) pairs
]

unfoldable pub get_origin_categorical_filters : Intent → (Filter → Bool) → List Filter
get_origin_categorical_filters intent is_cat = elim intent.spatial_query [
  | none ↦ []
  | some q ↦ keep is_cat q.origin_filters
]

abbrev pub nothing_to_check : List (String × String) → Intent → Bool
nothing_to_check pairs intent =
    is_empty (keep (is_categorical pairs) intent.filters)
    && is_empty (get_origin_categorical_filters intent (is_categorical pairs))

abbrev pub as_origin : InvalidFilter → InvalidFilter
as_origin inv = record {
  column = inv.column;
  operator = inv.operator;
  attempted_value = inv.attempted_value;
  candidates = inv.candidates;
  scope_filters = inv.scope_filters;
  sibling_match = inv.sibling_match;
  source = Source.spatial_origin;
}

-- `final.is_clear = False`, with the fallback question when there is none (`not` also holds of "").
unfoldable pub closed : List InvalidFilter → IntentAnalysis → IntentAnalysis
closed still_invalid final =
    if final.is_clear
    then record {
      is_clear = false;
      intent = final.intent;
      follow_up_question = elim final.follow_up_question [
        | none ↦ some (build_fallback_question still_invalid)
        | some q ↦ if q == "" then some (build_fallback_question still_invalid) else some q
      ];
      thinking_summary = final.thinking_summary;
    }
    else final

-- The `try` of the call, after the status of the step.
abbrev pub guarded : List Event × Option Update → List Event × Update
guarded (events, some update) = (Event.status_active ∷ events, update)
guarded (events, none) = (Event.status_active ∷ events ++ Event.error ∷ [], Update.unchanged)

module _ (con : Connection) (m : CloseMatches) (pairs : List (String × String)) where
  -- `none` where the database raises.
  unfoldable pub validate_all : List Filter → List Filter → Option (List InvalidFilter)
  validate_all categorical_filters origin_filters =
      let regular =
        if is_empty categorical_filters
        then []
        else collect_invalid_filters con m categorical_filters in
      let origin =
        if is_empty origin_filters then [] else collect_invalid_filters con m origin_filters in
      if con.raises categorical_filters origin_filters
      then none
      else some (regular ++ map as_origin origin)

  -- The invalid filters of an intent: its categorical filters, then those of the spatial origin.
  abbrev pub invalid_in : Intent → Option (List InvalidFilter)
  invalid_in intent =
      validate_all (keep (is_categorical pairs) intent.filters)
        (get_origin_categorical_filters intent (is_categorical pairs))

  module _ (correct : Corrector) where
    -- The second attempt, on the filters that the first one left invalid.
    unfoldable pub final_attempt :
        List Event → Intent → List InvalidFilter → List Event × Option Update
    unfolding closed
    final_attempt events intent still_invalid = elim (correct intent still_invalid true) [
      | none ↦ (events, none)
      | some answer ↦
          let final = closed still_invalid answer in
          (
            events
                ++ Event.step_thinking_summary answer.thinking_summary
                  ∷ Event.follow_up_text final.follow_up_question
                  ∷ [],
            some (Update.intent_analysis final),
          )
    ]

    -- What follows the first correction. A clear analysis without an intent raises.
    unfoldable pub after_correction : IntentAnalysis → List Event × Option Update
    unfolding final_attempt validate_all
    after_correction corrected =
        let events = Event.step_thinking_summary corrected.thinking_summary ∷ [] in
        if not corrected.is_clear
        then (
          events ++ Event.follow_up_text corrected.follow_up_question ∷ [],
          some (Update.intent_analysis corrected),
        )
        else elim corrected.intent [
          | none ↦ (events, none)
          | some intent ↦ elim (invalid_in intent) [
            | none ↦ (events, none)
            | some still_invalid ↦
                if is_empty still_invalid
                then (events, some (Update.intent_analysis corrected))
                else final_attempt events intent still_invalid
          ]
        ]

    unfoldable pub run : Option Intent → List Event × Option Update
    unfolding after_correction validate_all
    run none = ([], none)
    run (some intent) =
        if nothing_to_check pairs intent
        then (
          Event.step_thinking_summary "Geen filterwaarden om te controleren." ∷ [],
          some Update.unchanged,
        )
        else elim (invalid_in intent) [
          | none ↦ ([], none)
          | some invalid ↦
              if is_empty invalid
              then (
                Event.step_thinking_summary "Alle filterwaarden zijn correct." ∷ [],
                some Update.unchanged,
              )
              else elim (correct intent invalid false) [
                | none ↦ ([], none)
                | some corrected ↦ after_correction corrected
              ]
        ]

    -- `BaseNode.__call__`: the status first; an exception is dispatched and becomes the fallback.
    unfoldable pub call_node : Option Intent → List Event × Update
    unfolding run
    call_node intent = guarded (run intent)
