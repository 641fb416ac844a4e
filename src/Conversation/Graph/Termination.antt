-- ===== src/Conversation/Graph/Termination.antt =====
-- Every run of the graph ends: each call brings it nearer to the end.
use onegov2_spatial_assistan.Prelude.{
  ℕ, zero, suc, ◌≤◌, ◌<◌, ◌≡◌, refl, Option, none, some, arith, length,
}
use onegov2_spatial_assistan.Conversation.State.{ConversationState}
use onegov2_spatial_assistan.Conversation.Graph.{
  Services, Node, next_node, route_after_intent, route_after_validation, call, Run, run,
  run_workflow,
}

-- How many calls a node is from the end, at most.
abbrev pub rank : Node → ℕ
rank Node.check_intent_node = 8
rank Node.resolve_spatial_node = 7
rank Node.validate_filters_node = 6
rank Node.generate_sql_node = 5
rank Node.execute_query_node = 4
rank Node.plan_visualization_node = 3
rank Node.describe_results_node = 2
rank Node.cite_sources_node = 1

abbrev pub distance : Option Node → ℕ
distance none = 0
distance (some node) = rank node

next_node-distance :
    (node : Node) (state : ConversationState) → distance (next_node node state) < rank node
unfolding next_node route_after_intent route_after_validation
next_node-distance Node.check_intent_node state = ground (arith)
next_node-distance Node.resolve_spatial_node state = omega arith
next_node-distance Node.validate_filters_node state = ground (arith)
next_node-distance Node.generate_sql_node state = omega arith
next_node-distance Node.execute_query_node state = omega arith
next_node-distance Node.plan_visualization_node state = omega arith
next_node-distance Node.describe_results_node state = omega arith
next_node-distance Node.cite_sources_node state = omega arith

-- A finished run of at most `n` calls.
pub record IsFinished (S : Services) (n : ℕ) (r : Run S) : Type 0 where
  pub at_end : r.pending ≡ none
  pub calls : length r.visited ≤ n

run-IsFinished :
    (S : Services) (fuel : ℕ) (node : Option Node) (state : ConversationState)
    → distance node ≤ fuel
    → IsFinished S fuel (run S fuel node state)
unfolding run
run-IsFinished S fuel none state h = record { at_end = refl; calls = omega arith }
run-IsFinished S zero (some node) state h = absurd (ground (arith, next_node-distance node state))
run-IsFinished S (suc fuel) (some node) state h =
    let s = (call S node state).1 in
    let rest =
      run-IsFinished S fuel (next_node node s) s (omega (arith, next_node-distance node s)) in
    record { at_end = rest.at_end; calls = omega (arith, rest.calls) }

-- A question is answered in at most eight calls of a node, whatever the models, the servers and the
-- databases return or raise.
pub run_workflow-IsFinished :
    (S : Services) (state : ConversationState) → IsFinished S 8 (run_workflow S state)
unfolding run_workflow
run_workflow-IsFinished S state =
    run-IsFinished S 8 (some Node.check_intent_node) state (omega arith)
