-- ===== src/Conversation/Graph/Reachability.antt =====
-- What holds whenever the graph is about to call a node, and when it has ended.
use onegov2_spatial_assistan.Prelude.{
  ◌≤◌, arith, String, ◌≡◌, ◌⊎◌, inl, inr, Option, none, some, List, ◌++◌, Bool-cases,
  In-append_left, In-append_right,
}
use onegov2_spatial_assistan.Conversation.State.{ConversationState, CustomEvent}
use onegov2_spatial_assistan.Conversation.Graph.{
  Services, Node, next_node, route_after_intent, route_after_validation, is_clear_analysis, call,
  Reached,
}
use onegov2_spatial_assistan.Conversation.Graph.Answers.{
  IsClear, IsAsked, IsFailed, IsChecked, IsExplained, IsClearOrAsked, IsGated,
  check_intent-IsToldClear, resolve_spatial-IsResolved, validate_filters-IsGated,
}
use onegov2_spatial_assistan.Conversation.Graph.Later.{
  IsKept, generate_sql-IsKept, execute_query-IsKept, plan_visualization-IsKept,
  describe_results-IsExplained, cite_sources_same,
}
use onegov2_spatial_assistan.Conversation.Graph.Termination.{rank}

-- The user has a question to answer, an error, or an explanation of the results.
abbrev pub IsAnswered : ConversationState → List CustomEvent → Type 0
IsAnswered s events = IsAsked events ⊎ IsFailed events ⊎ ((t : String) × (s.explanation ≡ some t))

abbrev pub Invariant : Services → Option Node → ConversationState → List CustomEvent → Type 0
Invariant S none s events = IsAnswered s events
Invariant S (some Node.check_intent_node) s events = Unit
Invariant S (some Node.resolve_spatial_node) s events = IsClear s
Invariant S (some Node.validate_filters_node) s events = IsClearOrAsked s events
Invariant S (some Node.generate_sql_node) s events = IsChecked S s events
Invariant S (some Node.execute_query_node) s events = IsChecked S s events
Invariant S (some Node.plan_visualization_node) s events = IsChecked S s events
Invariant S (some Node.describe_results_node) s events = IsChecked S s events
Invariant S (some Node.cite_sources_node) s events = IsChecked S s events × IsExplained s events

IsAsked-later :
    (before : List CustomEvent) {after : List CustomEvent}
    → IsAsked after
    → IsAsked (before ++ after)
IsAsked-later before (q, m) = (q, In-append_right before m)

IsFailed-later :
    (before : List CustomEvent) {after : List CustomEvent}
    → IsFailed after
    → IsFailed (before ++ after)
IsFailed-later before (q, m) = (q, In-append_right before m)

module _ (S : Services) where
  IsChecked-kept :
      (s t : ConversationState) (before after : List CustomEvent)
      → IsKept s t
      → IsChecked S s before
      → IsChecked S t (before ++ after)
  IsChecked-kept s t before after k (c, inl m) =
      (rw k.same_analysis c, inl (In-append_left after m))
  IsChecked-kept s t before after k (c, inr (i, p, v)) =
      (rw k.same_analysis c, inr (i, rw k.same_analysis p, rw k.same_dictionary v))

  after_intent :
      (t : ConversationState) (events : List CustomEvent)
      → IsClear t ⊎ IsAsked events ⊎ IsFailed events
      → Invariant S (route_after_intent t) t events
  unfolding route_after_intent
  after_intent t events h = elim (Bool-cases (is_clear_analysis t.intent_analysis)) [
    | inl c ↦ elim (Bool-cases t.needs_spatial_resolution) [
      | inl n ↦ rw (route_after_intent, c, n) c
      | inr n ↦ rw (route_after_intent, c, n) (inl c)
    ]
    | inr c ↦
        rw (route_after_intent, c)
          (elim h [ inl d ↦ absurd (cc (c, d)) | inr (inl q) ↦ inl q | inr (inr f) ↦ inr (inl f) ])
  ]

  after_validation :
      (t : ConversationState) (events : List CustomEvent)
      → IsGated S t events
      → Invariant S (route_after_validation t) t events
  unfolding route_after_validation
  after_validation t events (inl h) = rw (route_after_validation, h.0) h
  after_validation t events (inr (u, inl q)) = rw (route_after_validation, u) (inl q)
  after_validation t events (inr (u, inr f)) = rw (route_after_validation, u) (inr (inl f))

  step-Invariant :
      (node : Node) (s : ConversationState) (events : List CustomEvent)
      → Invariant S (some node) s events
      → Invariant S
          (next_node node (call S node s).1)
          (call S node s).1
          (events ++ (call S node s).0)
  unfolding next_node call
  step-Invariant Node.check_intent_node s events h =
      after_intent (call S Node.check_intent_node s).1 _ (elim (check_intent-IsToldClear S s) [
        | inl c ↦ inl c
        | inr (inl q) ↦ inr (inl (IsAsked-later events q))
        | inr (inr f) ↦ inr (inr (IsFailed-later events f))
      ])
  step-Invariant Node.resolve_spatial_node s events h = elim (resolve_spatial-IsResolved S s) [
    | inl keeps ↦ inl (keeps h)
    | inr q ↦ inr (IsAsked-later events q)
  ]
  step-Invariant Node.validate_filters_node s events h =
      after_validation (call S Node.validate_filters_node s).1 _
        (validate_filters-IsGated S s events h)
  step-Invariant Node.generate_sql_node s events h =
      IsChecked-kept s _ events _ (generate_sql-IsKept S s) h
  step-Invariant Node.execute_query_node s events h =
      IsChecked-kept s _ events _ (execute_query-IsKept S s) h
  step-Invariant Node.plan_visualization_node s events h =
      IsChecked-kept s _ events _ (plan_visualization-IsKept S s) h
  step-Invariant Node.describe_results_node s events h =
      let (explained, k) = describe_results-IsExplained S s in
      (
        IsChecked-kept s _ events _ k h,
        elim explained [ inl t ↦ inl t | inr f ↦ inr (IsFailed-later events f) ],
      )
  step-Invariant Node.cite_sources_node s events (c, e) =
      rw (cite_sources_same S s)
        (elim e [ inl t ↦ inr (inr t) | inr (name, m) ↦ inr (inl (name, In-append_left _ m)) ])

  reached-Invariant :
      (start : ConversationState) {node : Option Node} {s : ConversationState}
      {events : List CustomEvent}
      → Reached S start node s events
      → Invariant S node s events
  reached-Invariant start Reached.begin = tt
  reached-Invariant start (Reached.step r) = step-Invariant _ _ _ (reached-Invariant start r)

-- At a node behind the filters the invariant says what the filter node left.
behind_filters :
    (S : Services) (node : Node) (s : ConversationState) (events : List CustomEvent)
    → rank node ≤ 5
    → Invariant S (some node) s events
    → IsChecked S s events
behind_filters S Node.check_intent_node s events h i = absurd (omega arith)
behind_filters S Node.resolve_spatial_node s events h i = absurd (omega arith)
behind_filters S Node.validate_filters_node s events h i = absurd (omega arith)
behind_filters S Node.generate_sql_node s events h i = i
behind_filters S Node.execute_query_node s events h i = i
behind_filters S Node.plan_visualization_node s events h i = i
behind_filters S Node.describe_results_node s events h i = i
behind_filters S Node.cite_sources_node s events h i = i.0

-- Whenever the graph is about to write SQL, to run it, to plan the map, to describe the results or to
-- cite sources, the analysis is clear, and either the filters of its intent are validated (none is on
-- a categorical column, or the validation found all of those valid) or the filter node has dispatched
-- an error. After such an error the filters may be unchecked or known to be invalid.
pub reached-IsChecked :
    (S : Services) (start s : ConversationState) (events : List CustomEvent) (node : Node)
    → rank node ≤ 5
    → Reached S start (some node) s events
    → IsChecked S s events
reached-IsChecked S start s events node h r =
    behind_filters S node s events h (reached-Invariant S start r)
