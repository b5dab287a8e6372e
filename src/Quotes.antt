-- ===== src/Quotes.antt =====
-- The quote budget: packages/market-core/src/rps-budget.ts and the scheduler that draws on it,
-- services/stat-arb-bot/src/quote-scheduler.ts.
pub mod Bucket
pub mod Scheduler
mod Tests
