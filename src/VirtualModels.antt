-- ===== src/VirtualModels.antt =====
-- Load balancing over the upstreams of a virtual model:
-- internal/lib/virtualmodelrouting/virtualmodelrouting.go, with the record and the strategy names
-- of internal/database/types.go. The package state `rrState` is passed in and out. A Go `int` that
-- may wrap is held as its 64 bits. `intn` stands for `rand.IntN`; its panic on an argument that is
-- not positive is the result `none`.
pub mod Defs
mod Permutation
mod RoundRobin
mod Weighted
unfoldable pub use Permutation.*
unfoldable pub use RoundRobin.*
pub use Weighted.*
