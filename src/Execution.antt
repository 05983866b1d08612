-- ===== src/Execution.antt =====
-- execution/: what a trade costs, the simulated venue and the executor of paper orders.
pub mod Costs
pub mod Simulator
pub mod Router
pub mod Venue
pub mod Executor
pub mod Polling
pub mod Veska
pub mod Disabled
pub mod Stuck
pub mod Mirror
mod Samples
mod Tests
