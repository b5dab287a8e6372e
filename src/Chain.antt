-- ===== src/Chain.antt =====
-- src/lib/linked-chains.ts: linked-rule chains.
pub mod Types
pub mod Classify
pub mod Validate
pub mod Cycle
pub mod Solana
pub mod Fees
pub mod OnChain
pub mod Encode
pub mod Wiring
pub mod Plan
pub mod Send
pub mod Summary
pub mod Close
mod Tests
