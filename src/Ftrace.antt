-- ===== src/Ftrace.antt =====
-- ftrace/ftrace-direct.c: the thread that toggles the trampoline of a traced function, and the
-- module's registration.
pub mod Thread
pub mod Toggle
