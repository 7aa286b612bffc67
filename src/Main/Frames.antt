-- ===== src/Main/Frames.antt =====
-- src/main.rs: messages on a TCP connection, each behind its length.
use safexip.Prelude.{
  ℕ, zero, suc, ◌≤◌, ◌<◌, Option, some, List, [], ◌∷◌, ◌++◌, ◌≡◌, inl, inr, refl, ap, ◌∙◌, arith,
  length, length-append, Option-cases, take-append_length, drop-append_length,
}
use safexip.Hickory.{Bytes}
use safexip.Main.{
  from_be_bytes, to_be_bytes, read_exact, frame_response, read_message, reply, serve,
  serve_connection,
}

unfoldable pub frame : Bytes → Bytes
frame message = to_be_bytes (length message) ++ message

unfoldable pub frames : List Bytes → Bytes
frames [] = []
frames (m ∷ ms) = frame m ++ frames ms

-- A length of two bytes comes back from its bytes.
from_be_bytes-to_be_bytes : (n : ℕ) → from_be_bytes (to_be_bytes n) ≡ n
unfolding from_be_bytes to_be_bytes
from_be_bytes-to_be_bytes n = omega arith

read_message-frame :
    (m rest : Bytes) → 0 < length m → read_message (frame m ++ rest) ≡ some (m, rest)
unfolding read_message read_exact frame to_be_bytes from_be_bytes
read_message-frame m rest positive =
    ground (arith, length-append m rest, take-append_length m rest, drop-append_length m rest)

frame_response-frame :
    (r : Bytes) → 0 < length r → length r ≤ 65535 → frame_response r ≡ some (frame r)
unfolding frame_response frame
frame_response-frame [] p s = absurd (ground arith)
frame_response-frame (b ∷ bs) p s = ground arith

frame-positive : (m : Bytes) → 0 < length (frame m)
unfolding frame to_be_bytes
frame-positive m = ground arith

module _ (handle : ℕ → Bytes → Option Bytes) where
  -- From the given call on, the handler answers the messages with the responses, each of a length that
  -- the prefix can state.
  pub data Exchange : ℕ → List Bytes → List Bytes → Type 0 where
    done : {call : ℕ} → Exchange call [] []
    next :
        {call : ℕ} {messages responses : List Bytes} (m r : Bytes)
        → 0 < length m
        → length m ≤ 65535
        → 0 < length r
        → length r ≤ 65535
        → handle call m ≡ some r
        → Exchange (suc call) messages responses
        → Exchange call (m ∷ messages) (r ∷ responses)

  reply-frame :
      (call : ℕ) (m r : Bytes)
      → 0 < length r
      → length r ≤ 65535
      → handle call m ≡ some r
      → reply handle call m ≡ some (frame r)
  unfolding reply
  reply-frame call m r p s e = ground (arith, frame_response-frame r p s)

  pub serve-end : (fuel call : ℕ) → serve handle fuel call [] ≡ []
  unfolding serve read_message read_exact
  serve-end zero call = refl
  serve-end (suc fuel) call = refl

  serve-step :
      (fuel call : ℕ) (input m rest written : Bytes)
      → read_message input ≡ some (m, rest)
      → reply handle call m ≡ some written
      → serve handle (suc fuel) call input ≡ written ++ serve handle fuel (suc call) rest
  unfolding serve
  serve-step fuel call input m rest written e f = ground arith

  serve-Exchange :
      (fuel call : ℕ) (messages responses : List Bytes)
      → length (frames messages) ≤ fuel
      → Exchange call messages responses
      → serve handle fuel call (frames messages) ≡ frames responses
  unfolding serve frames
  serve-Exchange zero call _ _ enough done = refl
  serve-Exchange (suc fuel) call _ _ enough done = serve-end (suc fuel) call
  serve-Exchange zero call _ _ enough (next {messages = ms} m r pm sm pr sr e rest) =
      absurd (omega (arith, enough, length-append (frame m) (frames ms), frame-positive m))
  serve-Exchange (suc fuel) call _ _ enough
        (next {messages = ms} {responses = rs} m r pm sm pr sr e rest) =
      let smaller : (length (frames ms) ≤ fuel) =
        omega (arith, enough, length-append (frame m) (frames ms), frame-positive m) in
      serve-step fuel call (frame m ++ frames ms) m (frames ms) (frame r)
        (read_message-frame m (frames ms) pm) (reply-frame call m r pr sr e)
      ∙ ap (λ t. frame r ++ t) (serve-Exchange fuel (suc call) ms rs smaller rest)

  -- A client that sends messages of 1 to 65535 bytes, each behind its length, and closes the
  -- connection, reads the handler's responses in order, each behind its length, if each of them has
  -- 1 to 65535 bytes.
  pub serve_connection-Exchange :
      (messages responses : List Bytes)
      → Exchange 0 messages responses
      → serve_connection handle (frames messages) ≡ frames responses
  unfolding serve_connection
  serve_connection-Exchange messages responses e =
      serve-Exchange (length (frames messages)) 0 messages responses (omega arith) e

  -- A response that is sent is a frame: some bytes of the handler, 1 to 65535, behind their length.
  pub reply_sound :
      (call : ℕ) (m written : Bytes)
      → reply handle call m ≡ some written
      → (r : Bytes) × (handle call m ≡ some r)
        × (0 < length r)
        × (length r ≤ 65535)
        × (written ≡ frame r)
  unfolding reply frame_response frame
  reply_sound call m written e = elim (Option-cases (handle call m)) [
    | inl x ↦ absurd (ground arith)
    | inr ([], x) ↦ absurd (ground arith)
    | inr (b ∷ bs, x) ↦ (b ∷ bs, x, omega arith, ground arith, ground arith)
  ]

  pub data Sent : List Bytes → Type 0 where
    sent_none : Sent []
    sent_one :
        {rs : List Bytes} (call : ℕ) (m r : Bytes)
        → handle call m ≡ some r
        → 0 < length r
        → length r ≤ 65535
        → Sent rs
        → Sent (r ∷ rs)

  serve-Sent :
      (fuel call : ℕ) (input : Bytes)
      → (rs : List Bytes) × Sent rs × (serve handle fuel call input ≡ frames rs)
  unfolding serve frames
  serve-Sent zero call input = ([], sent_none, refl)
  serve-Sent (suc fuel) call input = elim (Option-cases (read_message input)) [
    | inl x ↦ ([], sent_none, ground arith)
    | inr ((m, rest), x) ↦ elim (Option-cases (reply handle call m)) [
      | inl y ↦ ([], sent_none, ground arith)
      | inr (written, y) ↦
          let (r, answered, p, s, same) = reply_sound call m written y in
          let (rs, all, later) = serve-Sent fuel (suc call) rest in
          (r ∷ rs, sent_one call m r answered p s all, ground arith)
    ]
  ]

  -- Whatever bytes a client sends, what it reads is a sequence of responses that the handler gave,
  -- each of 1 to 65535 bytes and behind its length.
  serve_connection-Sent :
      (input : Bytes) → (rs : List Bytes) × Sent rs × (serve_connection handle input ≡ frames rs)
  unfolding serve_connection
  serve_connection-Sent input = serve-Sent (length input) 0 input
