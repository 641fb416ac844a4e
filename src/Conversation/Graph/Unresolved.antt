-- ===== src/Conversation/Graph/Unresolved.antt =====
-- What becomes of a question about a place that the location server does not know.
use onegov2_spatial_assistan.Prelude.{
  ℕ, suc, String, ◌≡◌, ◌∙◌, ap, refl, true, false, none, some, [], ◌∷◌,
}
use onegov2_spatial_assistan.Filters.Model.{Intent, IntentAnalysis, SpatialQuery}
use onegov2_spatial_assistan.Filters.Node.{call_node}
use onegov2_spatial_assistan.Conversation.State.{ConversationState, CustomEvent, Called, call_step}
use onegov2_spatial_assistan.Conversation.SpatialNode.{
  Degrees, Response, Resolution, resolve_origins, resolve_spatial, unresolved, with_origins,
}
use onegov2_spatial_assistan.Conversation.SpatialNode
use onegov2_spatial_assistan.Conversation.Graph.{
  Services, Node, next_node, call, run, after_call, validate_filters, route_after_validation,
}

-- The state after the place was not found.
abbrev refused : ConversationState → String → ConversationState
refused s query = record s {
  intent_analysis = some (unresolved query);
  needs_spatial_resolution = false;
  pdok_used = true;
}

resolve_spatial-not_found :
    (D : Degrees) (urlopen : String → Response) (s : ConversationState) (a : IntentAnalysis)
    (i : Intent) (q : SpatialQuery) (query : String)
    → s.intent_analysis ≡ some a
    → a.intent ≡ some i
    → i.spatial_query ≡ some q
    → s.needs_spatial_resolution ≡ true
    → resolve_origins D urlopen q.origin_filters ≡ Resolution.not_found query
    → resolve_spatial D urlopen s
      ≡ (CustomEvent.follow_up_text (unresolved query).follow_up_question ∷ [], refused s query)
unfolding resolve_spatial SpatialNode.run call_step
resolve_spatial-not_found D urlopen s a i q query e f g n r =
    simp (e, n, f, g, r, SpatialNode.run) refl

refused-IsRefused :
    (S : Services) (s : ConversationState) (query : String)
    → run S 6 (some Node.validate_filters_node) (refused s query) ≡ record {
      visited = Node.validate_filters_node ∷ [];
      events = CustomEvent.status_active "validatie" ∷ CustomEvent.error "validatie" ∷ [];
      state = refused s query;
      pending = none;
    }
unfolding run call next_node validate_filters call_node route_after_validation
refused-IsRefused S s query = refl

run-suc :
    (S : Services) (fuel : ℕ) (node : Node) (s : ConversationState) (called : Called)
    → call S node s ≡ called
    → run S (suc fuel) (some node) s
      ≡ after_call S node called (run S fuel (next_node node called.1) called.1)
unfolding run
run-suc S fuel node s called e =
    ap (λ c. after_call S node c (run S fuel (next_node node c.1) c.1)) e

-- A clear question about a place that is not found: the spatial node asks for a better description,
-- the filter node is called all the same, finds no intent and dispatches an error, and the run ends
-- there with the unclear analysis, with no SQL written.
pub unresolved_place_fails :
    (S : Services) (s : ConversationState) (a : IntentAnalysis) (i : Intent) (q : SpatialQuery)
    (query : String)
    → s.intent_analysis ≡ some a
    → a.intent ≡ some i
    → i.spatial_query ≡ some q
    → s.needs_spatial_resolution ≡ true
    → resolve_origins S.degrees S.urlopen q.origin_filters ≡ Resolution.not_found query
    → run S 7 (some Node.resolve_spatial_node) s ≡ record {
      visited = Node.resolve_spatial_node ∷ Node.validate_filters_node ∷ [];
      events =
          CustomEvent.follow_up_text (unresolved query).follow_up_question
          ∷ CustomEvent.status_active "validatie"
          ∷ CustomEvent.error "validatie"
          ∷ [];
      state = refused s query;
      pending = none;
    }
unfolding call next_node
unresolved_place_fails S s a i q query e f g n r =
    run-suc S 6 Node.resolve_spatial_node s _
      (resolve_spatial-not_found S.degrees S.urlopen s a i q query e f g n r)
    ∙ ap
        (after_call S Node.resolve_spatial_node
          (CustomEvent.follow_up_text (unresolved query).follow_up_question ∷ [], refused s query))
        (refused-IsRefused S s query)
