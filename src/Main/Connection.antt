-- ===== src/Main/Connection.antt =====
-- src/main.rs: one TCP connection whose reads and writes may fail or time out. `Main.serve` is the
-- same loop where every write succeeds. A read takes its bytes from what the client sends; where
-- there are too few of them, it ends in an error or a timeout, and the connection ends either way. A
-- write puts out its bytes, or the first of them before it fails or its time is over.
pub mod Conversation
pub mod Handler
use safexip.Prelude.{
  ℕ, zero, suc, Option, none, some, List, [], ◌∷◌, ◌++◌, take, ◌==◌, if◌then◌else◌,
}
use safexip.Hickory.{Bytes}
use safexip.Main.{from_be_bytes, read_exact, read_message, reply}

-- How a write goes. `failed_after n`: an error or the timeout, when `n` bytes are out.
pub data WriteOutcome : Type 0 where
  written : WriteOutcome
  failed_after : ℕ → WriteOutcome

-- Why the task returns. `running` stands for more rounds than the fuel allows.
pub data Ending : Type 0 where
  no_length empty_message no_message no_response too_long write_failed panicked running : Ending

-- Why there is no message to handle.
unfoldable pub read_ending : Bytes → Ending
unfolding from_be_bytes read_exact
read_ending input = elim (read_exact 2 input) [
  | none ↦ no_length
  | some (len_buf, rest) ↦ if from_be_bytes len_buf == 0 then empty_message else no_message
]

module _ (handle : ℕ → Bytes → Option Bytes) (writes : ℕ → WriteOutcome) where
  -- Why there is nothing to write.
  unfoldable pub reply_ending : ℕ → Bytes → Ending
  reply_ending call message = elim (handle call message) [
    | none ↦ panicked
    | some [] ↦ no_response
    | some (byte ∷ rest) ↦ too_long
  ]

  -- The loop of the task: what is put out, and why it returns.
  unfoldable pub connect : ℕ → ℕ → Bytes → Bytes × Ending
  unfolding read_message reply
  connect zero call input = ([], running)
  connect (suc fuel) call input = elim (read_message input) [
    | none ↦ ([], read_ending input)
    | some (message, rest) ↦ elim (reply handle call message) [
      | none ↦ ([], reply_ending call message)
      | some framed ↦ elim (writes call) [
        | failed_after n ↦ (take n framed, write_failed)
        | written ↦
            let (output, ending) = connect fuel (suc call) rest in (framed ++ output, ending)
      ]
    ]
  ]
