-- ===== src/Coremark/State.antt =====
-- lib/coremark/core_state.c: the state machine that classifies numbers in a text, and its input.
pub mod Machine
pub mod Grammar
pub mod Input
pub mod Bench
pub mod Examples
