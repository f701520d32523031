-- ===== src/Registry/Outcomes.antt =====
-- What the operations of the registry (src/registry/asset_registry.py) leave and return.
pub mod Marking
pub mod Expiring
pub mod Counting
pub mod Batching
pub mod Reassigning
use polypy.Prelude.{
  ℕ, String, ◌≡◌, ◌≢◌, Bool, true, false, not, Option, none, some, List, [], ◌∷◌, ◌==◌, eq_iff,
  arith, Option-cases, inl, inr, if◌then◌else◌, ◌+◌, refl,
}
