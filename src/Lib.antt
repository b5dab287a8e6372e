-- ===== src/Lib.antt =====
-- A verification library of the TypeScript sources of Sotama.
--
-- src/lib/linked-chains.ts builds and submits a chain of linked automation rules. The modules
-- of Chain follow its functions:
--   Chain/Types      the rule builder's data model (src/lib/types.ts) and `ChainNodeDraft`
--   Chain/Classify   `classifyChainLink`
--   Chain/Validate   `validateChainDraft`
--   Chain/Cycle      `findCycleNodes`: Walk is the code, Fuel the bound on its loop, Members and
--                    Absence the two directions of its correctness
--   Chain/Solana     the parameters that stand for @solana/web3.js and @solana/spl-token, and
--                    `automationPda`, `associatedTokenAddressForProgram` of src/lib/program.ts
--   Chain/Fees       `estimateTimeFee`, `loopModeToCadence`
--   Chain/OnChain, Chain/Encode
--                    the instruction arguments, `buildTriggerSpec` and `buildSwapAction`
--   Chain/Wiring, Chain/Plan
--                    the first half of `sendChainCreate`: what it computes for each node, and the
--                    loop that collects the instructions; Inversion, Routing and Seeds
--                    are about it
--   Chain/Send       its second half: the balance check, the transactions in their order, the nonce
--                    race, and the result from the logs
--   Chain/Summary    the funded cycles, link cases and Token-2022 mints of `summarizeChain`
--   Chain/Close       `closeAutomationOnChain` of src/lib/close-automation.ts up to its transaction, with
--                    the instruction builders of src/lib/program.ts that it calls
--   Chain/Tests      concrete chains, and each theorem applied to one
--
-- packages/market-core and services/stat-arb-bot watch prices and quote trades:
--   Quotes           the token bucket (packages/market-core/src/rps-budget.ts) and the scheduler that
--                    draws on it (services/stat-arb-bot/src/quote-scheduler.ts)
--   Telemetry        services/stat-arb-bot/src/scheduler-telemetry.ts, what the scheduler's callbacks
--                    are counted by
--   Quality          packages/market-core/src/quote-quality.ts, which judges the quotes
--   Backtest         packages/market-core/src/two-size-backtest.ts: a row's turn over the shared maps
--                    in Backtest.antt, the loop over the rows in Replay
--   Horizon          packages/market-core/src/hold-horizon.ts, a replay that sells at no loss or after a
--                    given time
--   Research         packages/market-core/src/research-verdict.ts, whether a pair is worth trading
--   Cache            services/stat-arb-bot/src/api/cache.ts, behind the bot's HTTP answers
--   Trading          from an observed edge to a trade: the amounts (packages/market-core/src/amount.ts),
--                    the tables of signals and executions (packages/db/src/signals.ts, executions.ts),
--                    and of services/stat-arb-bot/src the Jupiter client, the trade executor in Sender
--                    and Executor, and the signal engine in Engine. The engine asks the executor by the
--                    interface `TradeExecution`, whose laws Engine/Live proves of the executor's code
-- Each has its theorems in child modules and its concrete examples in Tests. `nowMs()` and
-- `Date.now()` are arguments, one for each reading. The bucket's tokens are counted in thousandths,
-- exactly, for whole capacities and rates; the source adds them as doubles.
--
-- The walk of `findCycleNodes` has fuel: the number of nodes and two more. A walk visits each index
-- of a node at most once and at most one index that is none, so that the fuel does not run out
-- (Chain/Cycle/Fuel).
--
-- The loop that waits for a confirmation has fuel too: two turns more than its timeout has
-- 250-millisecond steps (Trading/Sender/Wait). A call of the executor is given what the clock, the
-- network and @solana/kit (the parameter `Kit`) answer during it; the database accepts every statement.
-- Within the wait for a confirmation the clock does not go back, and every poll ends. Observations are
-- taken one after the other, but for Trading/Engine/Race, where two interleave at the first await: the
-- scheduler starts one quote's work without waiting for another's. Conversions of JSON values
-- (`BigInt`, `Number`, `String`, `Date`) are the parameter `Js`.
--
-- JavaScript numbers that stand for prices and token amounts are the parameter `Num`
-- (Prelude/Num), without laws; counters, times in seconds and lamports are native natural numbers,
-- and `BN` and `bigint` sums that subtract are integers (Prelude/Int). `PublicKey`, its parsing
-- and `findProgramAddressSync` are the parameter `Solana`; the wallet and the cluster are the records
-- `Cluster` and `OnChainAccounts`, whose answers are arbitrary; of `Cluster` the blockhashes, the
-- wallet, the submissions and `getTransaction` may each throw. Upper-casing and prefix
-- tests on texts read character codes and upper-case ASCII letters only.
--
-- Maps with text keys are association lists in the order of insertion (Prelude/Text).
--
-- Not modelled: user interface components, network and database access, the message texts of errors,
-- a backtest's threshold of minus infinity, and what the on-chain program (programs) and the keeper
-- (keeper) do with the instructions.
pub mod Prelude
pub mod Backtest
pub mod Cache
pub mod Chain
pub mod Horizon
pub mod Quality
pub mod Quotes
pub mod Research
pub mod Telemetry
pub mod Trading
