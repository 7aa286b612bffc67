-- ===== src/Tests/Exit.antt =====
-- The end of the program and of a connection, at small inputs.
use safexip.Prelude.{
  ℕ, true, [], ◌∷◌, inl, some, ◌≡◌, ◌≢◌, ◌↔◌, refl, ok, is_some, if◌then◌else◌, ◌==◌,
}
use safexip.Main.Connection.{
  WriteOutcome, written, failed_after, write_failed, panicked, running, connect,
}
use safexip.Main.Connection.Conversation.{IsOutput, connect_answers}
use safexip.Main.Connection.Handler.{call_handler, dns_connection_returns}
use safexip.Tests.Config.{valid}
use safexip.Hickory.{Bytes}
use safexip.Text.{codes}
use safexip.Main.Exit.{Sockets, shut_down, shutdown_signal, ctrl_c_failed, main}
use safexip.Main.Exit.Returns.{HasAscii, Succeeds, main_exits}
use safexip.Main.{read_message, reply, frame_response, read_exact, from_be_bytes, to_be_bytes}
use safexip.Tests.Fixtures.{small_config, small_hickory}
use safexip.Tests.Outside.{small_clap, small_clap-HasRanges, small_args, configured}
use safexip.Tests.Main.{echo, started, start_state, starts}

-- The second write fails when three bytes are out.
abbrev some_writes : ℕ → WriteOutcome
some_writes call = if call == 1 then failed_after 3 else written

connect_answers_example :
    IsOutput echo some_writes 0
      (0 ∷ 1 ∷ 5 ∷ 0 ∷ 1 ∷ 6 ∷ 0 ∷ 1 ∷ [])
      (connect echo some_writes 9 0 (0 ∷ 1 ∷ 5 ∷ 0 ∷ 1 ∷ 6 ∷ 0 ∷ 1 ∷ []))
connect_answers_example = connect_answers echo some_writes (0 ∷ 1 ∷ 5 ∷ 0 ∷ 1 ∷ 6 ∷ 0 ∷ 1 ∷ [])

cut_short :
    connect echo some_writes 9 0 (0 ∷ 1 ∷ 5 ∷ 0 ∷ 1 ∷ 6 ∷ 0 ∷ 1 ∷ [])
    ≡ (0 ∷ 2 ∷ 0 ∷ 5 ∷ 0 ∷ 2 ∷ 1 ∷ [], write_failed)
unfolding connect read_message reply frame_response read_exact from_be_bytes to_be_bytes
cut_short = refl

abbrev some_input : Bytes
some_input = 0 ∷ 5 ∷ 0 ∷ codes "x.io"

dns_connection_returns_example :
    ((connect
        (call_handler small_hickory small_config (λ call. call) (λ call. start_state))
        some_writes
        8
        0
        some_input).1
      ≢ panicked)
    × ((connect
          (call_handler small_hickory small_config (λ call. call) (λ call. start_state))
          some_writes
          8
          0
          some_input).1
        ≢ running)
dns_connection_returns_example =
    dns_connection_returns small_hickory small_config (λ call. call) (λ call. start_state)
      some_writes some_input valid refl

small_hickory-HasAscii : HasAscii small_hickory
small_hickory-HasAscii s name some_text parses admin = refl

abbrev all_bound : Sockets
all_bound = record { udp = true; tcp = true; api = true }

main_exits_example :
    (is_some (main small_hickory small_clap small_args 7 all_bound (shut_down [])) ≡ true)
    × ((main small_hickory small_clap small_args 7 all_bound (shut_down []) ≡ some (ok tt))
        ↔ Succeeds small_hickory small_clap small_args 7 all_bound (shut_down []))
main_exits_example =
    main_exits small_hickory small_clap small_clap-HasRanges small_hickory-HasAscii small_args 7
      all_bound (shut_down [])

succeeds : Succeeds small_hickory small_clap small_args 7 all_bound (shut_down [])
succeeds = record {
  config = small_config;
  parts = (started, start_state);
  parsed = configured;
  started = starts;
  bound = refl;
  no_failure = inl ([], refl);
}

-- Without a signal.
not_listening :
    shutdown_signal true ctrl_c_failed ≡ some (shut_down ("failed to listen for Ctrl-C" ∷ []))
unfolding shutdown_signal
not_listening = refl
