-- ===== src/Main/UdpTask.antt =====
-- src/main.rs: the UDP task with the handler of src/dns.rs. The zone and the clock move on between
-- two calls of the handler; they are arbitrary functions of the number of the call.
use safexip.Prelude.{
  ℕ, true, Option, [], none, some, List, ◌≡◌, refl, arith, map, retain, is_ok, is_some,
}
use safexip.Config.{Config}
use safexip.Config.Validate.{IsValidated}
use safexip.State.{ZoneState}
use safexip.Hickory.{Hickory, Bytes}
use safexip.Dns.{handle_udp}
use safexip.Dns.Total.{handlers_total}
use safexip.Main.{run_udp_dns}
use safexip.Main.Datagrams.{received, reply_to, has_bytes, run_udp_dns_lem}

abbrev pub or_nothing : Option Bytes → Bytes
or_nothing none = []
or_nothing (some bytes) = bytes

some-or_nothing : (o : Option Bytes) → is_some o ≡ true → o ≡ some (or_nothing o)
some-or_nothing none e = absurd (ground arith)
some-or_nothing (some bytes) e = refl

module _ (h : Hickory) (config : Config) (clock : ℕ → ℕ) (zones : ℕ → ZoneState) where
  abbrev pub call_handler : ℕ → Bytes → Option Bytes
  call_handler call datagram = (handle_udp h config (clock call) datagram (zones call)).0

  -- With a validated configuration, and a second nameserver that parses: the UDP task sends to the
  -- address of each datagram what the handler answers to its first 1500 bytes, in order, and leaves
  -- out the empty answers and the failed receptions. No datagram ends it, whatever the zone and the
  -- clock are at each call.
  pub udp_task_answers :
      {Address : Type 0} (input : List (Option (Bytes × Address)))
      → IsValidated h config
      → is_ok (h.from_ascii config.ns_hostname2) ≡ true
      → run_udp_dns call_handler 0 input
        ≡ retain has_bytes (
            map
              (reply_to (λ call datagram. or_nothing (call_handler call datagram)))
              (received 0 input))
  udp_task_answers input valid second =
      run_udp_dns_lem call_handler (λ call datagram. or_nothing (call_handler call datagram))
        (λ call datagram.
          some-or_nothing (call_handler call datagram)
            (handlers_total h config (clock call) datagram (zones call) valid second).1)
        0 input
