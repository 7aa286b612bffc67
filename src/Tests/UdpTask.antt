-- ===== src/Tests/UdpTask.antt =====
-- The UDP task with the small DNS library.
use safexip.Prelude.{ℕ, Option, none, some, List, [], ◌∷◌, ◌≡◌, refl, map, retain}
use safexip.Text.{codes}
use safexip.Hickory.{Bytes}
use safexip.Main.{run_udp_dns}
use safexip.Main.Datagrams.{received, reply_to, has_bytes}
use safexip.Main.UdpTask.{or_nothing, call_handler, udp_task_answers}
use safexip.Tests.Fixtures.{small_config, small_hickory}
use safexip.Tests.Config.{valid}
use safexip.Tests.Main.{start_state}

-- A query, a failed reception, and a datagram that is no message.
abbrev datagrams : List (Option (Bytes × ℕ))
datagrams = some (0 ∷ codes "x.io", 9) ∷ none ∷ some ([], 8) ∷ []

abbrev small_handler : ℕ → Bytes → Option Bytes
small_handler = call_handler small_hickory small_config (λ call. call) (λ call. start_state)

udp_task_answers_example :
    run_udp_dns small_handler 0 datagrams
    ≡ retain has_bytes (
        map
          (reply_to (λ call datagram. or_nothing (small_handler call datagram)))
          (received 0 datagrams))
udp_task_answers_example =
    udp_task_answers small_hickory small_config (λ call. call) (λ call. start_state) datagrams valid
      refl
