-- ===== src/Tests.antt =====
-- Runs of the model on small inputs, and each theorem of the library at an input that meets its
-- hypotheses.
pub mod Fixtures
pub mod Handling
pub mod Layer
pub mod Servers
mod Serving
mod Logging
mod Running
pub mod Daemon
pub mod Sessions
mod Tools
