-- ===== src/Lst.antt =====
-- lst.cpp: a network of leaf and spine switches. Lst.Topology has the tables that the program
-- builds, and Lst.Routing follows them.
pub mod Topology
pub mod Routing
pub mod Program
pub mod Verdicts
pub mod Spines
