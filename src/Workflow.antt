-- ===== src/Workflow.antt =====
-- src/agent: the workflow on a billing request. `State` has the nodes' dictionary, `Nodes` the nodes
-- and their order.
pub mod State
pub mod Nodes
pub use State.*
unfoldable pub use Nodes.*
