-- ===== src/Main/Datagrams.antt =====
-- src/main.rs: the replies of the UDP task.
use safexip.Prelude.{
  ℕ, suc, Bool, true, false, not, Option, none, some, List, [], ◌∷◌, ◌≡◌, refl, arith, map, take,
  retain,
}
use safexip.Hickory.{Bytes}
use safexip.Main.{run_udp_dns, udp_buffer}

unfoldable pub is_empty : Bytes → Bool
is_empty [] = true
is_empty (b ∷ bs) = false

module _ {Address : Type 0} where
  -- The datagrams that arrive, numbered.
  unfoldable pub received : ℕ → List (Option (Bytes × Address)) → List (ℕ × (Bytes × Address))
  received call [] = []
  received call (none ∷ rest) = received call rest
  received call (some d ∷ rest) = (call, d) ∷ received (suc call) rest

  -- The reply to a datagram, to the address that it came from.
  unfoldable pub reply_to : (ℕ → Bytes → Bytes) → ℕ × (Bytes × Address) → Bytes × Address
  reply_to answer (call, (datagram, source)) = (answer call (take udp_buffer datagram), source)

  unfoldable pub has_bytes : Bytes × Address → Bool
  unfolding is_empty
  has_bytes (bytes, source) = not (is_empty bytes)

  -- Where the handler does not panic, the UDP task sends to the address of each datagram what the
  -- handler answers to its first 1500 bytes, in order, and leaves out the empty answers and the
  -- failed receptions.
  pub run_udp_dns_lem :
      (handle_udp : ℕ → Bytes → Option Bytes) (answer : ℕ → Bytes → Bytes)
      → ((call : ℕ) (sent : Bytes) → handle_udp call sent ≡ some (answer call sent))
      → (call : ℕ) (input : List (Option (Bytes × Address)))
      → run_udp_dns handle_udp call input
        ≡ retain has_bytes (map (reply_to answer) (received call input))
  unfolding run_udp_dns received reply_to has_bytes
  run_udp_dns_lem handle_udp answer e call [] = refl
  run_udp_dns_lem handle_udp answer e call (none ∷ rest) =
      run_udp_dns_lem handle_udp answer e call rest
  run_udp_dns_lem handle_udp answer e call (some (datagram, source) ∷ rest) = ground (
    arith,
    e call (take udp_buffer datagram),
    run_udp_dns_lem handle_udp answer e (suc call) rest,
  )
