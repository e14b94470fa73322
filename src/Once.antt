-- ===== src/Once.antt =====
-- The credits of one claim, over any sequence of requests in local mode.
pub mod Rows
pub mod Keeps
pub mod Program
pub mod Deployed
