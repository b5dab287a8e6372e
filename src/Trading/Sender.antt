-- ===== src/Trading/Sender.antt =====
-- The parts of services/stat-arb-bot/src/trade-executor.ts that sign a transaction, add the sender's
-- tip to it, send it, and wait for its confirmation. @solana/kit is the parameter `Kit`; what the
-- network answers is an argument.
pub mod Wait
pub mod Transfer
use sotama.Prelude.Int.{ℤ}
use sotama.Trading.Jupiter.{is_empty_text, is_ok_status, Js, text, Answer, rejected, no_json, json}
use sotama.Prelude.{
  ◌≡◌, ◌⊎◌, inl, inr, refl, ◌∷◌, ◌+◌, ◌*◌, ◌/◌, ◌%◌, ◌++◌, ◌&&◌, ◌||◌, ◌^◌, ℕ, zero, suc, true,
  some, or_default, not, none, leb, ltb, length, get_elem?, if◌then◌else◌, false, [], String,
  Option, List, Bool,
}

pub data Fallible (A : Type 0) : Type 0 where
  ok : A → Fallible A
  err : String → Fallible A

pub Fallible-cases :
    {A : Type 0} (x : Fallible A)
    → ((a : A) × (x ≡ ok a)) ⊎ ((message : String) × (x ≡ err message))
Fallible-cases (ok a) = inl (a, refl)
Fallible-cases (err message) = inr (message, refl)

abbrev pub also : {A B : Type 0} → Fallible A → (A → Fallible B) → Fallible B
also (ok a) f = f a
also (err message) f = err message

-- the little-endian bytes of a number, in a given width
abbrev pub le_bytes : ℕ → ℕ → List ℕ
le_bytes zero n = []
le_bytes (suc width) n = (n % 256) ∷ le_bytes width (n / 256)

pub data AccountRole : Type 0 where
  writable_signer writable : AccountRole

pub record Instruction : Type 0 where
  pub program_address : String
  pub accounts : List (String × AccountRole)
  pub data_bytes : List ℕ

-- `@solana/kit`: keys, and the decoding, signing, encoding and compiling of transactions.
pub record Kit : Type 1 where
  pub Signer : Type 0
  pub Transaction : Type 0
  pub Message : Type 0
  pub address_of : Signer → String
  pub decode : String → Fallible Transaction
  pub sign : Signer → Transaction → Fallible Transaction
  pub encode : Transaction → String
  pub append : Instruction → Message → Message
  pub compile : Message → Fallible Transaction

abbrev pub tip_accounts : List String
tip_accounts =
    "4ACfpUFoaSD9bfPdeu6DBt89gB6ENTeHBXCAi87NhDEE" ∷ "D2L6yPZ2FmmmTKPgzaMKdhu6EWZcTpLy1Vhx8uvZe7NZ"
    ∷ "9bnz4RShgq1hAnLnZbP8kbgBg1kEmcJBYQq3gQbmnSta"
    ∷ "5VY91ws6B2hMmBFRsXkoAAdsPHBJwRfBht4DXox3xkwn"
    ∷ "2nyhqdwKcJZR2vcqCyrYsaPVdAnFoJjiksCXJ7hfEYgD"
    ∷ "2q5pghRs6arqVjRvT5gfgWfWcHWmw1ZuCzphgd5KfWGJ" ∷ "wyvPkWjVZz1M8fHQnMMCDTQDbkManefNNhweYk5WkcF"
    ∷ "3KCKozbAaF75qEU33jtzozcJ29yJuaLJTy2jFdzUY8bT"
    ∷ "4vieeGHPYPG2MmyPRcYjdiDmmhN3ww7hsFNap8pVN3Ey"
    ∷ "4TQLFNWK8AovT1gFvda5jfw2oJeRMKEmw7aH6MGBJ3or" ∷ []

abbrev pub system_program_address : String
system_program_address = "11111111111111111111111111111111"

-- `nextTipAccount`, with the index after it
unfoldable pub next_tip_account : ℕ → String × ℕ
next_tip_account index =
    (or_default (get_elem? tip_accounts (index % length tip_accounts)) "", index + 1)

-- `Number.isSafeInteger(lamports) && lamports >= 0`; fractions of a lamport are not modelled.
abbrev pub is_safe_amount : ℤ → Bool
is_safe_amount (ℤ.pos n) = ltb n (2 ^ 53)
is_safe_amount (ℤ.negsuc n) = false

unfoldable pub create_system_transfer_instruction : String → String → ℤ → Fallible Instruction
create_system_transfer_instruction source destination (ℤ.negsuc n) =
    err "invalid Helius sender tip lamports"
create_system_transfer_instruction source destination (ℤ.pos n) =
    if is_safe_amount (ℤ.pos n)
    then ok (record {
      program_address = system_program_address;
      accounts = (source, writable_signer) ∷ (destination, writable) ∷ [];
      data_bytes = le_bytes 4 2 ++ le_bytes 8 n;
    })
    else err "invalid Helius sender tip lamports"

unfoldable pub parse_last_valid_block_height : Js → Option String → Option ℤ
parse_last_valid_block_height js none = none
parse_last_valid_block_height js (some value) =
    if is_empty_text value then none else js.big_int (text value)

module _ (kit : Kit) where
  open kit use {Signer, Transaction, Message, address_of, decode, sign, encode, append, compile}

  -- `signWireTransaction`; the time that it takes is measured outside
  unfoldable pub sign_wire_transaction : String → Signer → Fallible String
  sign_wire_transaction wire signer =
      also (decode wire) λ transaction. also (sign signer transaction) λ signed. ok (encode signed)

  abbrev tipped : Signer → ℤ → String → Message → Fallible String
  tipped signer lamports tip_account message =
      also (create_system_transfer_instruction (address_of signer) tip_account lamports) λ transfer.
        also (compile (append transfer message))
          λ transaction. also (sign signer transaction) λ signed. ok (encode signed)

  abbrev with_tip : Signer → ℤ → ℕ → Fallible Message → Fallible String × ℕ
  with_tip signer lamports index (err message) = (err message, index)
  with_tip signer lamports index (ok message) =
      (tipped signer lamports (next_tip_account index).0 message, (next_tip_account index).1)

  -- `prepareSenderTransaction`, with the tip index after it. `decompile` fetches the lookup tables
  -- over the network. The index moves on as soon as the account is chosen, also if a later step fails.
  unfoldable pub prepare_sender_transaction :
      Js
      → Bool
      → (Transaction → Option ℤ → Fallible Message)
      → ℤ
      → String
      → Signer
      → Option String
      → ℕ
      → Fallible String × ℕ
  prepare_sender_transaction js has_rpc decompile lamports wire signer height index =
      if has_rpc
      then with_tip signer lamports index (
          also (decode wire)
            λ transaction. decompile transaction (parse_last_valid_block_height js height))
      else (err "helius-sender requires HELIUS_RPC_URL for lookup tables and confirmation", index)

pub data SenderError : Type 0 where
  -- missing, or a value that counts as false
  no_error : SenderError
  error_text : String → SenderError
  -- any other value that counts as true, with the text of its field `message`
  error_value : Option String → SenderError

-- `result` if it is a text
pub record SenderJson : Type 0 where
  pub result : Option String
  pub error : SenderError

pub record Sent : Type 0 where
  pub is_ok : Bool
  pub signature : Option String
  pub request_ms : ℤ
  pub message : Option String
  pub raw : Option SenderJson

abbrev pub has_error : SenderError → Bool
has_error no_error = false
has_error (error_text s) = not (is_empty_text s)
has_error (error_value message) = true

abbrev pub error_message : String → SenderError → String
error_message http no_error = http
error_message http (error_text s) = s
error_message http (error_value message) = or_default message http

abbrev not_sent : ℤ → String → Option SenderJson → Sent
not_sent ms message raw = record {
  is_ok = false;
  signature = none;
  request_ms = ms;
  message = some message;
  raw = raw;
}

abbrev sent_body : ℤ → Bool → String → SenderJson → Sent
sent_body ms http_ok http body =
    if not http_ok || has_error body.error
    then not_sent ms (error_message http body.error) (some body)
    else record {
      is_ok = true;
      signature = body.result;
      request_ms = ms;
      message = none;
      raw = some body;
    }

-- `sendWithSender`, by what the sender's endpoint answered
unfoldable pub send_with_sender : Js → Answer SenderJson → Sent
send_with_sender js a = elim a.response [
  | rejected message ↦ not_sent a.caught_ms message none
  | no_json status message ↦ not_sent a.caught_ms message none
  | json status body ↦ sent_body a.request_ms (is_ok_status status) (js.http_message status) body
]

pub data Commitment : Type 0 where
  processed confirmed finalized : Commitment

-- `error_json` is the text of `status.err`, if there is one.
pub record SignatureStatus : Type 0 where
  pub error_json : Option String
  pub confirmation_status : Option Commitment

pub data Poll : Type 0 where
  poll_rejected : String → Poll
  polled : Option SignatureStatus → Poll

pub data Waited : Type 0 where
  waited : (is_ok : Bool) → (message : Option String) → Waited
  wait_threw : String → Waited

-- A wait: when it started, what the n-th poll answers, and how long the n-th turn takes beyond the
-- 250 milliseconds of its timer.
pub record Waiting : Type 0 where
  pub started_at : ℕ
  pub lag : ℕ → ℕ
  pub poll : ℕ → Poll

abbrev pub is_final : Option Commitment → Bool
is_final (some confirmed) = true
is_final (some finalized) = true
is_final _ = false

-- What a poll decides; `none` is another turn.
abbrev pub decision : Poll → Option Waited
decision (poll_rejected message) = some (wait_threw message)
decision (polled none) = none
decision (polled (some s)) = elim s.error_json [
  | some e ↦ some (waited false (some e))
  | none ↦ if is_final s.confirmation_status then some (waited true none) else none
]

-- The loop, at its n-th turn, on fuel: `none` is a loop that was not over.
unfoldable pub wait : ℕ → Waiting → ℕ → ℕ → ℕ → Option Waited
wait zero w deadline now n = none
wait (suc fuel) w deadline now n =
    let rest = wait fuel w deadline (now + 250 + w.lag (suc n)) (suc n) in
    if ltb now deadline
    then (elim (decision (w.poll n)) [ none ↦ rest | some r ↦ some r ])
    else some (waited false (some "confirmation timeout"))

-- Enough turns for any lag.
abbrev pub turns_for : ℕ → ℕ
turns_for timeout_ms = timeout_ms / 250 + 2

unfoldable pub wait_for_confirmation : ℕ → Waiting → Option Waited
wait_for_confirmation timeout_ms w =
    wait (turns_for timeout_ms) w (w.started_at + timeout_ms) (w.started_at + w.lag 0) 0
