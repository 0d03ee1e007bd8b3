-- ===== src/Examples.antt =====
-- The actors of examples/led_actor and examples/basic_zephyr: what their handlers do to the state that they keep, and which calls
-- of the framework they make. The handlers print or ignore the results of these calls.
pub mod Led
pub mod Basic
pub mod Button
pub mod Consumer
pub mod Wiring
