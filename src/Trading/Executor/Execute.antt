-- ===== src/Trading/Executor/Execute.antt =====
-- `execute` and `outputTokenUnits` of services/stat-arb-bot/src/trade-executor.ts.
use sotama.Prelude.Text.{get, set}
use sotama.Trading.Amount.{atomic_to_ui}
use sotama.Trading.Jupiter.{
  is_empty_text, Js, OkOrder, OrderResult, order_ok, order_rate_limited, order_error,
}
use sotama.Trading.Jupiter.Client.{order}
use sotama.Trading.Sender.{Kit}
use sotama.Trading.{
  PairConfig, TradeExecutionMode, jupiter_dry_run, jupiter_managed, dry_run, error, skipped,
  TradeExecutionInput, TradeExecutionResult, Executed, returned, threw, is_enabled,
}
use sotama.Prelude.{
  ◌+◌, ◌&&◌, ℕ, some, or_default, not, none, ltb, if◌then◌else◌, String, Option, List,
}
use sotama.Trading.Executor.{
  Config, Outside, ExecutorState, is_helius, disabled_result, cooldown_result, input_mint,
  output_mint, either,
}
use sotama.Trading.Executor.Submit.{record_terminal, execute_via_jupiter, execute_via_helius_sender}

module _ (js : Js) (kit : Kit) where
  open js use {num}
  open num use {F}
  open kit use {Signer, Transaction, Message}

  -- `requiredSigner`, and the way of the mode
  abbrev pub submit :
      Config Signer
      → Outside F Transaction Message
      → TradeExecutionInput F
      → OkOrder F
      → String
      → String
      → Option Signer
      → TradeExecutionMode
      → ExecutorState F
      → Executed × ExecutorState F
  submit cfg out args o wire request_id none mode s = (threw "the mode requires a signer", s)
  submit cfg out args o wire request_id (some signer) jupiter_managed s =
      execute_via_jupiter js kit cfg out args o wire request_id signer s
  submit cfg out args o wire request_id (some signer) mode s =
      execute_via_helius_sender js kit cfg out args o wire signer s

  abbrev pub dry_run_or_submit :
      Config Signer
      → Outside F Transaction Message
      → TradeExecutionInput F
      → OkOrder F
      → String
      → String
      → TradeExecutionMode
      → ExecutorState F
      → Executed × ExecutorState F
  dry_run_or_submit cfg out args o wire request_id jupiter_dry_run s =
      record_terminal js kit cfg out args (order_ok o) dry_run (some o.out_amount) none s
  dry_run_or_submit cfg out args o wire request_id mode s =
      submit cfg out args o wire request_id cfg.signer mode s

  abbrev pub after_order :
      Config Signer
      → Outside F Transaction Message
      → TradeExecutionInput F
      → OrderResult F
      → ExecutorState F
      → Executed × ExecutorState F
  after_order cfg out args (order_rate_limited ms) s =
      record_terminal js kit cfg out args (order_rate_limited ms) skipped none
        (some "Jupiter execution order was rate-limited") s
  after_order cfg out args (order_error ms message) s =
      record_terminal js kit cfg out args (order_error ms message) error none (some message) s
  after_order cfg out args (order_ok o) s = elim o.transaction [
    | none ↦
        record_terminal js kit cfg out args (order_ok o) error (some o.out_amount)
          (some "Jupiter order did not return transaction/requestId") s
    | some wire ↦ elim o.request_id [
      | none ↦
          record_terminal js kit cfg out args (order_ok o) error (some o.out_amount)
            (some "Jupiter order did not return transaction/requestId") s
      | some request_id ↦ dry_run_or_submit cfg out args o wire request_id cfg.mode s
    ]
  ]

  abbrev pub excluded : Config Signer → Option String
  excluded cfg =
      if is_helius cfg.mode && not (is_empty_text cfg.sender_exclude_routers)
      then some cfg.sender_exclude_routers
      else none

  abbrev pub order_for :
      Config Signer → Outside F Transaction Message → TradeExecutionInput F → OrderResult F
  order_for cfg out args = order js cfg.api_key out.order_thrown out.order_answer (record {
    input_mint = input_mint args.side args.pair;
    output_mint = output_mint args.side args.pair;
    amount = args.input_amount;
    slippage_bps = some args.pair.slippage_bps;
    taker = cfg.taker;
    exclude_routers = excluded cfg;
  })

  -- `(this.lastAttemptAt.get(args.dedupeKey) ?? 0) + minIntervalMs`
  abbrev pub ready_at : Config Signer → List ℕ → ExecutorState F → ℕ
  ready_at cfg key s = or_default (get key s.last_attempt_at) 0 + cfg.min_interval_ms

  unfoldable pub execute :
      Config Signer
      → Outside F Transaction Message
      → TradeExecutionInput F
      → ExecutorState F
      → Executed × ExecutorState F
  execute cfg out args s =
      if not (is_enabled cfg.mode)
      then (returned disabled_result, s)
      else if ltb out.now (ready_at cfg args.dedupe_key s)
      then (returned (cooldown_result cfg.mode), s)
      else after_order cfg out args (order_for cfg out args)
          (record s { last_attempt_at = set args.dedupe_key out.now s.last_attempt_at })

  unfoldable pub output_token_units : TradeExecutionResult → PairConfig F → Option F
  output_token_units result pair =
      elim (either result.actual_out_amount result.expected_out_amount) [
        | none ↦ none
        | some amount ↦ some (atomic_to_ui num amount pair.tokenized_decimals)
      ]
