-- ===== src/Leaf.antt =====
-- src/leaf_spine: the buffers of the switches of a leaf-spine network, and the constraint that the
-- packets of a step have one type.
pub mod Buffs
pub mod Expansion
pub mod OneType
pub mod Switch
pub mod Windows
pub mod Inputs
pub mod Base
pub mod Fperf
pub mod Turns
pub mod Demux
pub mod Metadata
pub mod Ports
pub mod Workload
pub mod Constructed
