-- ===== src/Region/Recovery.antt =====
-- Encoding a stream and reconstructing it from a region with damaged records.
mod Stripes
mod Damage
pub use Stripes.{IsUsable, encode_payload_region_lem, encoded_payload_region_lem}
pub use Damage.{DamagedWithinBudget, reconstruct-encode_payload_region}
