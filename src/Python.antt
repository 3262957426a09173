-- ===== src/Python.antt =====
-- python/: the modules of the operator.
pub mod Events
pub mod Manager
