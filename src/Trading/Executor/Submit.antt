-- ===== src/Trading/Executor/Submit.antt =====
-- `record`, `recordTerminal`, `executeViaJupiter` and `executeViaHeliusSender` of
-- services/stat-arb-bot/src/trade-executor.ts.
use sotama.Prelude.Int.{ℤ}
use sotama.Trading.Executions.{raw_jupiter, raw_sender, insert_trade_execution}
use sotama.Trading.Jupiter.{Js, OkOrder, OrderResult, order_ok}
use sotama.Trading.Jupiter.Client.{execute as jupiter_execute}
use sotama.Trading.Sender.{
  Kit, ok, err, Sent, Waited, waited, wait_threw, wait_for_confirmation, send_with_sender,
  prepare_sender_transaction, sign_wire_transaction,
}
use sotama.Trading.{TradeExecutionStatus, error, TradeExecutionInput, Executed, returned, threw}
use sotama.Prelude.{◌&&◌, ℕ, some, or_default, none, ltb, if◌then◌else◌, false, String, Option}
use sotama.Trading.Executor.{
  Config, Outside, ExecutorState, is_given, has_rpc, Details, only_message, result_of, input_mint,
  output_mint, request_time, in_order, if_retained, jupiter_status, in_execute, execute_time,
  jupiter_message, sender_status, sender_message, either,
}

module _ (js : Js) (kit : Kit) where
  open js use {num}
  open num use {F}
  open kit use {Signer, Transaction, Message}

  -- `record`
  unfoldable pub record_execution :
      Config Signer
      → Outside F Transaction Message
      → TradeExecutionInput F
      → OrderResult F
      → TradeExecutionStatus
      → Option ℤ
      → Details F
      → ExecutorState F
      → ℕ × ExecutorState F
  unfolding insert_trade_execution
  record_execution cfg out args o status expected details s =
      let inserted =
        insert_trade_execution
          (record {
            pair_id = args.pair.pair_id;
            signal_id = args.signal_id;
            action = args.action;
            side = args.side;
            size_usd = args.size_usd;
            mode = cfg.mode;
            status = status;
            edge_bps = args.edge_bps;
            base_price_usd = args.base_price_usd;
            token_price_usd = args.token_price_usd;
            in_mint = input_mint args.side args.pair;
            out_mint = output_mint args.side args.pair;
            in_amount = args.input_amount;
            expected_out_amount = either expected (in_order (λ x. some x.out_amount) o);
            actual_out_amount = details.actual_out_amount;
            router = in_order (λ x. x.router) o;
            order_request_id = in_order (λ x. x.request_id) o;
            order_quote_id = in_order (λ x. x.quote_id) o;
            signature = details.signature;
            slot = details.slot;
            error_code = details.error_code;
            error_message = details.error_message;
            order_request_ms = request_time o;
            sign_ms = details.sign_ms;
            sender_prepare_ms = details.sender_prepare_ms;
            execute_request_ms = details.execute_request_ms;
            request_started_at = out.now;
            order_response_at = some out.order_response_at;
            execute_response_at = details.execute_response_at;
            raw_order = if_retained cfg.retain_raw (in_order (λ x. some x.raw) o);
            raw_execute = if_retained cfg.retain_raw details.raw_execute;
          })
          s.executions in
      (inserted.0, record s { executions = inserted.1 })

  -- A row, and the result that repeats what it says.
  unfoldable pub record_result :
      Config Signer
      → Outside F Transaction Message
      → TradeExecutionInput F
      → OrderResult F
      → TradeExecutionStatus
      → Option ℤ
      → Details F
      → ExecutorState F
      → Executed × ExecutorState F
  unfolding record_execution
  record_result cfg out args o status expected details s =
      let recorded = record_execution cfg out args o status expected details s in
      (
        returned (
            result_of cfg.mode status (some recorded.0) expected details.actual_out_amount
              details.error_message),
        recorded.1,
      )

  -- `recordTerminal`
  abbrev pub record_terminal :
      Config Signer
      → Outside F Transaction Message
      → TradeExecutionInput F
      → OrderResult F
      → TradeExecutionStatus
      → Option ℤ
      → Option String
      → ExecutorState F
      → Executed × ExecutorState F
  record_terminal cfg out args o status expected message s =
      record_result cfg out args o status expected (only_message none message) s

  unfoldable pub execute_via_jupiter :
      Config Signer
      → Outside F Transaction Message
      → TradeExecutionInput F
      → OkOrder F
      → String
      → String
      → Signer
      → ExecutorState F
      → Executed × ExecutorState F
  execute_via_jupiter cfg out args o wire request_id signer s =
      elim (sign_wire_transaction kit wire signer) [
        | err message ↦
            record_terminal cfg out args (order_ok o) error (some o.out_amount) (some message) s
        | ok signed ↦
            let e = jupiter_execute js cfg.api_key out.execute_answer (record {
              signed_transaction = signed;
              request_id = request_id;
              last_valid_block_height = o.last_valid_block_height;
            }) in
            record_result cfg out args (order_ok o) (jupiter_status e) (some o.out_amount)
              (record {
                actual_out_amount = in_execute (λ x. x.output_amount_result) e;
                execute_response_at = some out.execute_response_at;
                sign_ms = some out.sign_ms;
                sender_prepare_ms = none;
                execute_request_ms = some (execute_time e);
                signature = in_execute (λ x. x.signature) e;
                slot = in_execute (λ x. x.slot) e;
                error_code = in_execute (λ x. x.code) e;
                error_message = jupiter_message e;
                raw_execute = in_execute (λ x. some (raw_jupiter x.raw)) e;
              })
              s
      ]

  -- `null` unless there is a signature to wait for; the wait's fuel is enough.
  abbrev pub confirmation : Config Signer → Outside F Transaction Message → Sent → Option Waited
  confirmation cfg out sent =
      if is_given sent.signature && has_rpc cfg && ltb 0 cfg.confirmation_timeout_ms
      then some (
          or_default (wait_for_confirmation cfg.confirmation_timeout_ms out.waiting)
            (waited false (some "confirmation timeout")))
      else none

  -- A poll that is rejected rejects the call: what was sent is not recorded.
  abbrev pub record_sent :
      Config Signer
      → Outside F Transaction Message
      → TradeExecutionInput F
      → OkOrder F
      → Sent
      → Option Waited
      → ExecutorState F
      → Executed × ExecutorState F
  record_sent cfg out args o sent (some (wait_threw message)) s = (threw message, s)
  record_sent cfg out args o sent confirmed s =
      record_result cfg out args (order_ok o) (sender_status sent confirmed) (some o.out_amount)
        (record {
          actual_out_amount = none;
          execute_response_at = some out.execute_response_at;
          sign_ms = some out.sign_ms;
          sender_prepare_ms = some out.prepare_ms;
          execute_request_ms = some sent.request_ms;
          signature = sent.signature;
          slot = none;
          error_code = none;
          error_message = sender_message sent confirmed;
          raw_execute = elim sent.raw [ none ↦ none | some body ↦ some (raw_sender body) ];
        })
        s

  unfoldable pub execute_via_helius_sender :
      Config Signer
      → Outside F Transaction Message
      → TradeExecutionInput F
      → OkOrder F
      → String
      → Signer
      → ExecutorState F
      → Executed × ExecutorState F
  execute_via_helius_sender cfg out args o wire signer s =
      let prepared =
        prepare_sender_transaction kit js (has_rpc cfg) out.decompile cfg.helius_sender_tip_lamports
          wire signer o.last_valid_block_height s.next_tip_index in
      let s' : ExecutorState F = record s { next_tip_index = prepared.1 } in
      elim prepared.0 [
        | err message ↦
            record_terminal cfg out args (order_ok o) error (some o.out_amount) (some message) s'
        | ok signed ↦
            let sent = send_with_sender js (out.sender_answer signed) in
            record_sent cfg out args o sent (confirmation cfg out sent) s'
      ]
