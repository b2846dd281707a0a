-- ===== src/Lsl.antt =====
-- lsl.cpp: the network of lst.cpp with its tables written out by hand, and a query on the queues of one
-- path.
pub mod Tables
pub mod Agreement
pub mod Program
pub mod Verdicts
