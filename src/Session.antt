-- ===== src/Session.antt =====
-- core/handler/handler.c over the two builds of bsp/drone_ctrl.c: what a request comes to in the layer
-- below, and what a later request sees of it.
pub mod Upload
pub mod Telemetry
pub mod Mock
