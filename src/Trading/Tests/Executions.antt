-- ===== src/Trading/Tests/Executions.antt =====
-- The executor's theorems at concrete calls.
use sotama.Trading.Sender.Wait.{wait_for_confirmation-some, wait_for_confirmation-first}
use sotama.Trading.Executor.Unrecorded.{sent_unrecorded}
use sotama.Trading.Sender.Transfer.{of_le_bytes, create_system_transfer_instruction_decodes}
use sotama.Trading.Jupiter.Answers.{order_result-Says, Says}
use sotama.Prelude.Int.{ℤ, pos}
use sotama.Trading.Tests.{
  sender_json, order_json, failing_wait, answered, js, kit, outside, waiting, config, no_executions,
  opening,
}
use sotama.Trading.{threw, jupiter_managed, helius_sender, returned, success, TradeExecutionResult}
use sotama.Trading.Jupiter.Client.{
  order_result, order, read_order, order_request, execute as jupiter_execute, execute_result,
  swap_status_of, execute_request, parse_finite_number, first_finite_number, parse_optional_big_int,
  parse_date,
}
use sotama.Trading.Jupiter.{OkOrder, first_string}
use sotama.Trading.Sender.{
  writable_signer, writable, waited, ok, decision, Waited, Instruction, wait_for_confirmation, wait,
  sign_wire_transaction, prepare_sender_transaction, send_with_sender,
  create_system_transfer_instruction, next_tip_account, parse_last_valid_block_height,
}
use sotama.Trading.Executor.{result_of}
use sotama.Trading.Executor.Submit.{record_result, execute_via_jupiter, execute_via_helius_sender}
use sotama.Trading.Executor.Execute.{execute}
use sotama.Trading.Executor.Recorded.{Attempted, execute-Recorded}
use sotama.Trading.Executor.Spacing.{attempts, attempts-Spaced, Spaced}
use sotama.Trading.Executor.Success.{Evidence, execute-Evidence}
use sotama.Prelude.{
  ◌<◌, ℕ, zero, true, take, suc, length, drop, arith, ◌≡◌, ◌∷◌, none, some, refl, [],
}

abbrev bought : TradeExecutionResult
bought = result_of jupiter_managed success (some 1) (some (pos 50)) (some (pos 50)) none

abbrev taken : TradeExecutionResult
taken = result_of helius_sender success (some 1) (some (pos 50)) none none

managed_buys :
    (execute js kit (config jupiter_managed) (outside 5000 waiting) opening no_executions).0
    ≡ returned bought
unfolding execute execute_via_jupiter record_result order order_result order_request read_order
    jupiter_execute execute_result execute_request swap_status_of first_string parse_finite_number
    first_finite_number parse_optional_big_int parse_date sign_wire_transaction
managed_buys = refl

sender_buys :
    (execute js kit (config helius_sender) (outside 5000 waiting) opening no_executions).0
    ≡ returned taken
unfolding execute execute_via_helius_sender record_result order order_result order_request
    read_order first_string parse_finite_number first_finite_number parse_date
    prepare_sender_transaction send_with_sender create_system_transfer_instruction next_tip_account
    parse_last_valid_block_height wait_for_confirmation wait
sender_buys = refl

execute-Evidence_example : Evidence js kit (config helius_sender) (outside 5000 waiting)
execute-Evidence_example =
    execute-Evidence js kit (config helius_sender) (outside 5000 waiting) opening no_executions
      taken sender_buys refl

execute-Recorded_example :
    Attempted js kit
      (config jupiter_managed)
      (outside 5000 waiting)
      opening
      no_executions
      (execute js kit (config jupiter_managed) (outside 5000 waiting) opening no_executions).0
      (execute js kit
        (config jupiter_managed)
        (outside 5000 waiting)
        opening
        no_executions).1.executions
execute-Recorded_example =
    execute-Recorded js kit (config jupiter_managed) (outside 5000 waiting) opening no_executions

attempts-Spaced_example : Spaced js kit (config jupiter_managed) (
    attempts js kit
      (config jupiter_managed)
      ((outside 5000 waiting, opening)
        ∷ (outside 5500 waiting, opening)
        ∷ (outside 6100 waiting, opening)
        ∷ [])
      no_executions)
attempts-Spaced_example =
    attempts-Spaced js kit (config jupiter_managed)
      ((outside 5000 waiting, opening)
        ∷ (outside 5500 waiting, opening)
        ∷ (outside 6100 waiting, opening)
        ∷ [])
      no_executions

-- The second call is in the cooldown of the first.
two_attempts :
    attempts js kit
      (config jupiter_managed)
      ((outside 5000 waiting, opening)
        ∷ (outside 5500 waiting, opening)
        ∷ (outside 6100 waiting, opening)
        ∷ [])
      no_executions
    ≡ (1 ∷ [], 5000) ∷ (1 ∷ [], 6100) ∷ []
unfolding attempts execute execute_via_jupiter record_result order order_result order_request
    read_order jupiter_execute execute_result execute_request swap_status_of first_string
    parse_finite_number first_finite_number parse_optional_big_int parse_date sign_wire_transaction
two_attempts = refl

abbrev ok_order : OkOrder ℤ
ok_order = record {
  out_amount = pos 50;
  in_amount = pos 50;
  price_impact_pct = none;
  router = none;
  quote_id = some "r1";
  request_id = some "r1";
  transaction = some "tx";
  last_valid_block_height = none;
  mode = none;
  expires_at = none;
  context_slot = none;
  request_ms = pos 20;
  raw = order_json;
}

prepared_tx :
    (prepare_sender_transaction kit js true (λ t height. ok t) (pos 5000) "tx" "key" none 0).0
    ≡ ok "tx"
unfolding prepare_sender_transaction create_system_transfer_instruction next_tip_account
    parse_last_valid_block_height
prepared_tx = refl

has_signature : (send_with_sender js (answered sender_json)).signature ≡ some "sig"
unfolding send_with_sender
has_signature = refl

sent_unrecorded_example :
    let r =
      execute_via_helius_sender js kit
        (config helius_sender)
        (outside 5000 failing_wait)
        opening
        ok_order
        "tx"
        "key"
        no_executions in
    (r.0 ≡ threw "RPC down") × (r.1.executions ≡ no_executions.executions)
sent_unrecorded_example =
    sent_unrecorded js kit (config helius_sender) (outside 5000 failing_wait) opening ok_order "tx"
      "tx" "sig" "RPC down" "key" no_executions refl prepared_tx has_signature refl (omega arith)
      refl

wait_for_confirmation-some_example : (r : Waited) × (wait_for_confirmation 2000 waiting ≡ some r)
wait_for_confirmation-some_example = wait_for_confirmation-some 2000 waiting

undecided : (i : ℕ) → i < 2 → decision (waiting.poll i) ≡ none
undecided zero h = refl
undecided (suc zero) h = refl
undecided (suc (suc i)) h = absurd (omega arith)

wait_for_confirmation-first_example : wait_for_confirmation 2000 waiting ≡ some (waited true none)
wait_for_confirmation-first_example =
    wait_for_confirmation-first 2000 2 waiting (waited true none) (omega arith) undecided refl

create_system_transfer_instruction_decodes_example :
    (t : Instruction) × (create_system_transfer_instruction "me" "tip" (pos 5000) ≡ ok t)
    × (length t.data_bytes ≡ 12)
    × (of_le_bytes (take 4 t.data_bytes) ≡ 2)
    × (of_le_bytes (drop 4 t.data_bytes) ≡ 5000)
    × (t.accounts ≡ ("me", writable_signer) ∷ ("tip", writable) ∷ [])
create_system_transfer_instruction_decodes_example =
    create_system_transfer_instruction_decodes "me" "tip" 5000 (omega arith)

order_result-Says_example :
    Says js (answered order_json) (order_result js "SyntaxError" (answered order_json))
order_result-Says_example = order_result-Says js "SyntaxError" (answered order_json)
