-- ===== src/Main/Rounds.antt =====
-- src/main.rs: how many rounds the loop over one TCP connection takes.
use safexip.Prelude.{
  ℕ, zero, suc, ◌+◌, ◌≤◌, Option, some, ◌≡◌, inl, inr, arith, Option-cases, length, drop, [], ◌∷◌,
  ◌-◌,
}
use safexip.Hickory.{Bytes}
use safexip.Main.Frames.{serve-end}
use safexip.Main.{read_message, read_exact, from_be_bytes, reply, serve, serve_connection}

length-drop : (n : ℕ) (xs : Bytes) → length (drop n xs) ≡ length xs - n
length-drop zero xs = omega arith
length-drop (suc n) [] = omega arith
length-drop (suc n) (x ∷ xs) = omega (arith, length-drop n xs)

read_exact-length :
    (n : ℕ) (input bytes rest : Bytes)
    → read_exact n input ≡ some (bytes, rest)
    → length rest + n ≡ length input
unfolding read_exact
read_exact-length n input bytes rest e = ground (arith, length-drop n input)

pub read_message-length :
    (input message rest : Bytes)
    → read_message input ≡ some (message, rest)
    → length rest + 2 ≤ length input
unfolding read_message
read_message-length input message rest e = elim (Option-cases (read_exact 2 input)) [
  | inl x ↦ absurd (ground arith)
  | inr ((len_buf, after), x) ↦ ground (
    arith,
    read_exact-length 2 input len_buf after x,
    read_exact-length (from_be_bytes len_buf) after message rest,
  )
]

module _ (handle : ℕ → Bytes → Option Bytes) where
  serve_stable :
      (n m call : ℕ) (input : Bytes)
      → n ≤ m
      → length input ≤ n
      → serve handle m call input ≡ serve handle n call input
  unfolding serve
  serve_stable zero m call [] le enough = serve-end handle m call
  serve_stable zero m call (b ∷ bs) le enough = absurd (omega arith)
  serve_stable (suc n) zero call input le enough = absurd (omega arith)
  serve_stable (suc n) (suc m) call input le enough = elim (Option-cases (read_message input)) [
    | inl x ↦ ground arith
    | inr ((message, rest), x) ↦
        let shorter = read_message-length input message rest x in
        elim (Option-cases (reply handle call message)) [
          | inl y ↦ ground arith
          | inr (written, y) ↦ ground (arith, serve_stable n m (suc call) rest)
        ]
  ]

  -- The loop over the messages of a connection ends after as many rounds as its input has bytes, at
  -- the latest: more rounds write the same.
  serve_connection_rounds :
      (fuel : ℕ) (input : Bytes)
      → length input ≤ fuel
      → serve handle fuel 0 input ≡ serve_connection handle input
  unfolding serve_connection
  serve_connection_rounds fuel input enough =
      serve_stable (length input) fuel 0 input enough (omega arith)
