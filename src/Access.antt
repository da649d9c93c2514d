-- ===== src/Access.antt =====
-- Who may do what: the permission catalogue and the guards that read it.
pub mod Catalog
pub mod Faults
pub mod Grant
pub mod Runs
