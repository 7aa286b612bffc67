-- ===== src/Main/Connection/Conversation.antt =====
-- src/main.rs, `run_tcp_dns`: what happens on one TCP connection, as a relation, and the loop.
use safexip.Prelude.{
  ℕ, zero, suc, ◌<◌, ◌≤◌, Option, none, some, List, [], ◌∷◌, ◌++◌, ◌≡◌, ◌⊎◌, inl, inr, refl, sym,
  ap, ◌∙◌, arith, length, take, drop, Option-cases, append_assoc, append-nil, append-take,
}
use safexip.Hickory.{Bytes}
use safexip.Main.{frame_response, read_message, reply, serve}
use safexip.Main.Frames.{frame, frames, reply_sound}
use safexip.Main.Rounds.{read_message-length}
use safexip.Main.Connection.{
  WriteOutcome, written, failed_after, Ending, panicked, no_response, too_long, write_failed,
  read_ending, reply_ending, connect,
}

WriteOutcome-cases : (w : WriteOutcome) → (w ≡ written) ⊎ ((n : ℕ) × (w ≡ failed_after n))
WriteOutcome-cases written = inl refl
WriteOutcome-cases (failed_after n) = inr (n, refl)

-- What happens on a connection, from the call with the given number on: the responses, and why it
-- ends. A response has 1 to 65535 bytes, and the next message is read when it is out.
pub data Conversation (handle : ℕ → Bytes → Option Bytes) (writes : ℕ → WriteOutcome)
    : ℕ → Bytes → List Bytes → Ending → Type 0 where
  unread :
      {call : ℕ} {input : Bytes}
      → read_message input ≡ none
      → Conversation handle writes call input [] (read_ending input)
  panics :
      {call : ℕ} {input message rest : Bytes}
      → read_message input ≡ some (message, rest)
      → handle call message ≡ none
      → Conversation handle writes call input [] panicked
  refuses :
      {call : ℕ} {input message rest : Bytes}
      → read_message input ≡ some (message, rest)
      → handle call message ≡ some []
      → Conversation handle writes call input [] no_response
  exceeds :
      {call : ℕ} {input message rest r : Bytes}
      → read_message input ≡ some (message, rest)
      → handle call message ≡ some r
      → 65535 < length r
      → Conversation handle writes call input [] too_long
  breaks :
      {call n : ℕ} {input message rest r : Bytes}
      → read_message input ≡ some (message, rest)
      → handle call message ≡ some r
      → 1 ≤ length r
      → length r ≤ 65535
      → writes call ≡ failed_after n
      → Conversation handle writes call input (r ∷ []) write_failed
  responds :
      {call : ℕ} {input message rest r : Bytes} {rs : List Bytes} {ending : Ending}
      → read_message input ≡ some (message, rest)
      → handle call message ≡ some r
      → 1 ≤ length r
      → length r ≤ 65535
      → writes call ≡ written
      → Conversation handle writes (suc call) rest rs ending
      → Conversation handle writes call input (r ∷ rs) ending

module _ (handle : ℕ → Bytes → Option Bytes) (writes : ℕ → WriteOutcome) where
  connect_unread :
      (fuel call : ℕ) (input : Bytes)
      → read_message input ≡ none
      → connect handle writes (suc fuel) call input ≡ ([], read_ending input)
  unfolding connect
  connect_unread fuel call input x = ground arith

  connect_unanswered :
      (fuel call : ℕ) (input message rest : Bytes)
      → read_message input ≡ some (message, rest)
      → reply handle call message ≡ none
      → connect handle writes (suc fuel) call input ≡ ([], reply_ending handle writes call message)
  unfolding connect
  connect_unanswered fuel call input message rest x y = ground arith

  connect_failed :
      (fuel call : ℕ) (input message rest framed : Bytes) (n : ℕ)
      → read_message input ≡ some (message, rest)
      → reply handle call message ≡ some framed
      → writes call ≡ failed_after n
      → connect handle writes (suc fuel) call input ≡ (take n framed, write_failed)
  unfolding connect
  connect_failed fuel call input message rest framed n x y w = ground arith

  connect_written :
      (fuel call : ℕ) (input message rest framed : Bytes)
      → read_message input ≡ some (message, rest)
      → reply handle call message ≡ some framed
      → writes call ≡ written
      → connect handle writes (suc fuel) call input ≡ (
        framed ++ (connect handle writes fuel (suc call) rest).0,
        (connect handle writes fuel (suc call) rest).1,
      )
  unfolding connect
  connect_written fuel call input message rest framed x y w = ground arith

  -- The bytes that are put out are the responses behind their lengths, or, where a write fails, the
  -- beginning of them.
  abbrev pub IsOutput : ℕ → Bytes → Bytes × Ending → Type 0
  IsOutput call input (output, ending) =
      (rs : List Bytes) × (rest : Bytes) × Conversation handle writes call input rs ending
      × (output ++ rest ≡ frames rs)
      × ((ending ≡ write_failed) ⊎ (rest ≡ []))

  unread-IsOutput :
      (call : ℕ) (input : Bytes)
      → read_message input ≡ none
      → IsOutput call input ([], read_ending input)
  unfolding frames
  unread-IsOutput call input x = ([], [], unread x, refl, inr refl)

  unanswered-IsOutput :
      (call : ℕ) (input message after : Bytes)
      → read_message input ≡ some (message, after)
      → reply handle call message ≡ none
      → IsOutput call input ([], reply_ending handle writes call message)
  unfolding frames reply_ending reply frame_response
  unanswered-IsOutput call input message after x y = elim (Option-cases (handle call message)) [
    | inl z ↦ rw (z, reply_ending) ([], [], panics x z, refl, inr refl)
    | inr ([], z) ↦ rw (z, reply_ending) ([], [], refuses x z, refl, inr refl)
    | inr (byte ∷ more, z) ↦
        rw (z, reply_ending) ([], [], exceeds x z (ground arith), refl, inr refl)
  ]

  append-IsOutput :
      (call : ℕ) (input message after framed output : Bytes) (ending : Ending)
      → read_message input ≡ some (message, after)
      → reply handle call message ≡ some framed
      → writes call ≡ written
      → IsOutput (suc call) after (output, ending)
      → IsOutput call input (framed ++ output, ending)
  unfolding frames
  append-IsOutput call input message after framed output ending x y w (rs, rest, all, whole, end) =
      let (r, answered, p, s, same) = reply_sound handle call message framed y in
      (
        r ∷ rs,
        rest,
        responds x answered p s w all,
        append_assoc framed output rest
            ∙ ap (λ m. framed ++ m) whole
            ∙ ap (λ m. m ++ frames rs) same,
        end,
      )

  take-IsOutput :
      (call : ℕ) (input message after framed : Bytes) (n : ℕ)
      → read_message input ≡ some (message, after)
      → reply handle call message ≡ some framed
      → writes call ≡ failed_after n
      → IsOutput call input (take n framed, write_failed)
  unfolding frames
  take-IsOutput call input message after framed n x y w =
      let (r, answered, p, s, same) = reply_sound handle call message framed y in
      (
        r ∷ [],
        drop n framed,
        breaks x answered p s w,
        append-take n framed ∙ same ∙ sym (append-nil (frame r)),
        inl refl,
      )

  connect-IsOutput :
      (fuel call : ℕ) (input : Bytes)
      → length input < fuel
      → IsOutput call input (connect handle writes fuel call input)
  connect-IsOutput zero call input enough = absurd (omega arith)
  connect-IsOutput (suc fuel) call input enough = elim (Option-cases (read_message input)) [
    | inl x ↦ rw (connect_unread fuel call input x) (unread-IsOutput call input x)
    | inr ((message, rest), x) ↦ elim (Option-cases (reply handle call message)) [
      | inl y ↦
          rw (connect_unanswered fuel call input message rest x y)
            (unanswered-IsOutput call input message rest x y)
      | inr (framed, y) ↦ elim (WriteOutcome-cases (writes call)) [
        | inl w ↦
            let (output, ending) = connect handle writes fuel (suc call) rest in
            let shorter = read_message-length input message rest x in
            rw (connect_written fuel call input message rest framed x y w) (
              append-IsOutput call input message rest framed output ending x y w
                (connect-IsOutput fuel (suc call) rest (omega arith)))
        | inr (n, w) ↦
            rw (connect_failed fuel call input message rest framed n x y w)
              (take-IsOutput call input message rest framed n x y w)
      ]
    ]
  ]

  -- However the writes to a connection go, each of which may fail or time out after any number of
  -- bytes, and whatever bytes the client sends before they end, the loop over the messages returns
  -- for one of the reasons of a conversation: the next message is read when the response to the one
  -- before is out, and the loop ends where there is no further whole message, where the handler
  -- panics, has no response or one above 65535 bytes, or where the write of a response fails. What
  -- is put out is the responses in order, each behind its length, or, if a write failed, the
  -- beginning of that.
  pub connect_answers :
      (input : Bytes) → IsOutput 0 input (connect handle writes (suc (length input)) 0 input)
  connect_answers input = connect-IsOutput (suc (length input)) 0 input (omega arith)

-- Where every write succeeds, the output is that of `serve`.
connect-serve :
    (handle : ℕ → Bytes → Option Bytes) (writes : ℕ → WriteOutcome) (fuel call : ℕ) (input : Bytes)
    → ((n : ℕ) → writes n ≡ written)
    → (connect handle writes fuel call input).0 ≡ serve handle fuel call input
unfolding connect serve
connect-serve handle writes zero call input w = refl
connect-serve handle writes (suc fuel) call input w = elim (Option-cases (read_message input)) [
  | inl x ↦ ground arith
  | inr ((message, rest), x) ↦ elim (Option-cases (reply handle call message)) [
    | inl y ↦ ground arith
    | inr (framed, y) ↦ ground (arith, w call, connect-serve handle writes fuel (suc call) rest w)
  ]
]
