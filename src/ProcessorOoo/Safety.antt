-- ===== src/ProcessorOoo/Safety.antt =====
-- No stage of the out-of-order core (processorOOO.cpp) uses an index that is -1 or an empty free list:
-- the invariant, a lemma for each stage, and the cycle.
pub mod Invariant
pub mod Destination
pub mod Rename
pub mod Dispatch
pub mod Units
pub mod Misses
pub mod Execute
pub mod Retire
pub mod Run
