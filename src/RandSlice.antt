-- ===== src/RandSlice.antt =====
-- Random slicing: the class `DistRandSlice` of dadisi/DistRandSlice.cpp.
pub mod Collect
pub mod Reuse
pub mod Redistribute
pub mod Placement
pub mod Partitions
