-- ===== src/Main.antt =====
-- src/main.rs: the tasks that serve DNS over UDP and over one TCP connection. The socket's input is
-- a sequence of what the reads return. A read that fails or times out ends a connection, like the end
-- of its input. The handler is a parameter, given the number of the call, since its state and the
-- clock move on between two calls; `none` is a panic in it, which ends the task.
pub mod Startup
pub mod Challenge
pub mod Program
pub mod Frames
pub mod Datagrams
pub mod Accept
pub mod UdpTask
pub mod Connection
pub mod Exit
pub mod Rounds
use safexip.Prelude.{
  ℕ, zero, suc, ◌+◌, ◌*◌, ◌/◌, ◌%◌, Bool, Option, none, some, List, [], ◌∷◌, ◌++◌, length, take,
  drop, ltb, ◌==◌, if◌then◌else◌,
}
use safexip.Hickory.{Bytes}

-- `u16::from_be_bytes` and `u16::to_be_bytes`
unfoldable pub from_be_bytes : Bytes → ℕ
from_be_bytes (high ∷ low ∷ _) = high * 256 + low
from_be_bytes _ = 0

unfoldable pub to_be_bytes : ℕ → Bytes
to_be_bytes n = n / 256 ∷ n % 256 ∷ []

-- `read_exact` of `n` bytes: the bytes and the rest of the input, if it has as many.
unfoldable pub read_exact : ℕ → Bytes → Option (Bytes × Bytes)
read_exact n input = if ltb (length input) n then none else some (take n input, drop n input)

-- What `write_all` puts out for a response, or nothing where the connection ends instead.
unfoldable pub frame_response : Bytes → Option Bytes
frame_response [] = none
frame_response (byte ∷ rest) =
    let response = byte ∷ rest in
    if ltb 65535 (length response) then none else some (to_be_bytes (length response) ++ response)

-- The reads of one round: the message, and the rest of the input.
unfoldable pub read_message : Bytes → Option (Bytes × Bytes)
unfolding from_be_bytes read_exact
read_message input = elim (read_exact 2 input) [
  | none ↦ none
  | some (len_buf, rest) ↦
      if from_be_bytes len_buf == 0 then none else read_exact (from_be_bytes len_buf) rest
]

module _ (handle : ℕ → Bytes → Option Bytes) where
  -- One round without its reads: what is written, unless the connection ends.
  unfoldable pub reply : ℕ → Bytes → Option Bytes
  unfolding frame_response
  reply call message = elim (handle call message) [
    | none ↦ none
    | some response ↦ frame_response response
  ]

  -- The loop over the messages of a connection. Its output is what is written before it ends.
  unfoldable pub serve : ℕ → ℕ → Bytes → Bytes
  unfolding read_message reply
  serve zero call input = []
  serve (suc fuel) call input = elim (read_message input) [
    | none ↦ []
    | some (message, rest) ↦ elim (reply call message) [
      | none ↦ []
      | some written ↦ written ++ serve fuel (suc call) rest
    ]
  ]

  -- A connection. Each round takes two bytes at least, so the length of the input is fuel enough.
  unfoldable pub serve_connection : Bytes → Bytes
  unfolding serve
  serve_connection input = serve (length input) 0 input

-- The buffer of the UDP task; the rest of a longer datagram is lost.
abbrev pub udp_buffer : ℕ
udp_buffer = 1500

module _ {Address : Type 0} (handle_udp : ℕ → Bytes → Option Bytes) where
  -- The loop over what `recv_from` returns, `none` for an error. Its output is what is sent.
  unfoldable pub run_udp_dns : ℕ → List (Option (Bytes × Address)) → List (Bytes × Address)
  run_udp_dns call [] = []
  run_udp_dns call (none ∷ rest) = run_udp_dns call rest
  run_udp_dns call (some (datagram, source) ∷ rest) =
      elim (handle_udp call (take udp_buffer datagram)) [
        | none ↦ []
        | some [] ↦ run_udp_dns (suc call) rest
        | some (byte ∷ bytes) ↦ (byte ∷ bytes, source) ∷ run_udp_dns (suc call) rest
      ]
