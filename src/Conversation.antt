-- ===== src/Conversation.antt =====
-- services/workflow.py and services/nodes/: the graph that answers a question about the data, node by
-- node. The children model the nodes on one state; `Graph` is the graph itself.
pub mod State
pub mod IntentNode
pub mod SpatialNode
pub mod Prompts
pub mod Database
pub mod Summary
pub mod ExecuteNode
pub mod MapNode
pub mod SourcesNode
pub mod Graph
mod Tests
pub mod SqlNode
