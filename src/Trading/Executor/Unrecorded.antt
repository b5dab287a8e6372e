-- ===== src/Trading/Executor/Unrecorded.antt =====
-- A transaction that is sent and not recorded.
use sotama.Trading.{threw, TradeExecutionInput}
use sotama.Trading.Jupiter.{given, Js, OkOrder, is_empty_text}
use sotama.Trading.Sender.{
  Kit, ok, Sent, wait_threw, poll_rejected, prepare_sender_transaction, send_with_sender,
}
use sotama.Trading.Sender.Wait.{wait_for_confirmation-first}
use sotama.Trading.Executor.{Config, Outside, ExecutorState, has_rpc}
use sotama.Trading.Executor.Submit.{execute_via_helius_sender, confirmation}
use sotama.Prelude.{false, ◌≡◌, ◌<◌, true, some, lt→ltb, refl, arith, false, String}

module _ (js : Js) (kit : Kit) where
  open js use {num}
  open num use {F}
  open kit use {Signer, Transaction, Message}

  confirmation_threw :
      (cfg : Config Signer) (out : Outside F Transaction Message) (sent : Sent)
      (signature message : String)
      → has_rpc cfg ≡ true
      → sent.signature ≡ some signature
      → is_empty_text signature ≡ false
      → out.waiting.lag 0 < cfg.confirmation_timeout_ms
      → out.waiting.poll 0 ≡ poll_rejected message
      → confirmation js kit cfg out sent ≡ some (wait_threw message)
  confirmation_threw cfg out sent signature message rpc is_sent given early fails =
      rw
        (
          is_sent,
          given,
          rpc,
          lt→ltb 0 cfg.confirmation_timeout_ms (omega arith),
          wait_for_confirmation-first cfg.confirmation_timeout_ms 0 out.waiting (wait_threw message)
              (omega arith) (λ i h. absurd (omega arith)) (rw fails refl),
        )
        refl

  -- If the sender took the transaction and gave its signature, and the first poll for its
  -- confirmation, in time, is rejected, then the call is rejected with that message and the table of
  -- executions stays as it was, although the transaction is sent.
  pub sent_unrecorded :
      (cfg : Config Signer) (out : Outside F Transaction Message) (args : TradeExecutionInput F)
      (o : OkOrder F) (wire signed signature message : String) (signer : Signer)
      (s : ExecutorState F)
      → has_rpc cfg ≡ true
      → (prepare_sender_transaction kit js
          (has_rpc cfg)
          out.decompile
          cfg.helius_sender_tip_lamports
          wire
          signer
          o.last_valid_block_height
          s.next_tip_index).0
        ≡ ok signed
      → (send_with_sender js (out.sender_answer signed)).signature ≡ some signature
      → is_empty_text signature ≡ false
      → out.waiting.lag 0 < cfg.confirmation_timeout_ms
      → out.waiting.poll 0 ≡ poll_rejected message
      → let r = execute_via_helius_sender js kit cfg out args o wire signer s in
        (r.0 ≡ threw message) × (r.1.executions ≡ s.executions)
  unfolding execute_via_helius_sender
  sent_unrecorded cfg out args o wire signed signature message signer s rpc prepared is_sent given
        early fails =
      rw
        (
          prepared,
          confirmation_threw cfg out (send_with_sender js (out.sender_answer signed)) signature
              message rpc is_sent given early fails,
          execute_via_helius_sender,
        )
        (refl, refl)
