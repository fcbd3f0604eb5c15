-- ===== src/Executor.antt =====
-- executor.h and executor.c, a module for each instruction format.
pub mod Register
pub mod Immediate
pub mod Control
pub mod RegisterLaws
pub mod ImmediateLaws
pub mod ControlLaws
