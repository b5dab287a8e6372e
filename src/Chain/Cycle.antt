-- ===== src/Chain/Cycle.antt =====
-- `findCycleNodes` of src/lib/linked-chains.ts: which nodes of a chain form its cycle. The
-- `while` of the source runs on fuel; `Cycle/Fuel` shows that the fuel given is enough.
pub mod Walk
mod Fuel
pub mod Members
pub mod Absence
