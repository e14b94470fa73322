-- ===== src/Final.antt =====
-- The row of a request that was decided, over any sequence of requests.
pub mod Rows
pub mod Keeps
pub mod Program
pub mod Tools
pub mod Deployed
pub mod Deployment
