-- ===== src/Tests/Main.antt =====
-- The start and the listeners, at small inputs.
use safexip.Prelude.{ℕ, ◌*◌, ◌^◌, Option, some, List, [], ◌∷◌, ◌≡◌, refl, arith, ok}
use safexip.Text.{codes}
use safexip.Config.{acme_name, token_lifetime}
use safexip.Hickory.{Bytes}
use safexip.Wire.{from_config}
use safexip.State.{AcmeRecords, ZoneState, new, with_serial}
use safexip.State.History.{Event, adding, reading, asking}
use safexip.Main.{
  serve, read_message, reply, frame_response, read_exact, from_be_bytes, to_be_bytes,
  serve_connection,
}
use safexip.Main.Startup.{start, wire_test}
use safexip.Main.Frames.{frames, done, next, serve_connection-Exchange}
use safexip.Tests.Fixtures.{small_config, small_hickory}
use safexip.Tests.WireFixtures.{small_wire}
use safexip.Tests.Config.{validated}

abbrev pub started : AcmeRecords
started = record {
  lifetime = 100 * 10 ^ 9;
  max_tokens = 1;
  wire_fits = wire_test small_hickory small_wire;
}

abbrev pub start_state : ZoneState
start_state = record { records = []; serial = 7 }

pub starts : start small_hickory small_config 7 ≡ some (ok (started, start_state))
unfolding start new with_serial from_config acme_name token_lifetime
starts = rw (validated, start) refl

abbrev some_events : List Event
some_events = adding 10 11 (codes "a") (codes "w") ∷ reading 20 (codes "a") ∷ asking 40 ∷ []

-- A handler that sends the bytes back behind the number of the call.
abbrev pub echo : ℕ → Bytes → Option Bytes
echo call message = some (call ∷ message)

serve_connection-Exchange_example :
    serve_connection echo (frames ((5 ∷ []) ∷ (6 ∷ 7 ∷ []) ∷ []))
    ≡ frames ((0 ∷ 5 ∷ []) ∷ (1 ∷ 6 ∷ 7 ∷ []) ∷ [])
serve_connection-Exchange_example =
    serve_connection-Exchange echo ((5 ∷ []) ∷ (6 ∷ 7 ∷ []) ∷ [])
      ((0 ∷ 5 ∷ []) ∷ (1 ∷ 6 ∷ 7 ∷ []) ∷ [])
      (next (5 ∷ []) (0 ∷ 5 ∷ []) (omega arith) (omega arith) (omega arith) (omega arith) refl (
        next (6 ∷ 7 ∷ []) (1 ∷ 6 ∷ 7 ∷ []) (omega arith) (omega arith) (omega arith) (omega arith)
          refl done))

cut_off : serve_connection echo (0 ∷ 1 ∷ 5 ∷ 0 ∷ 9 ∷ 1 ∷ []) ≡ 0 ∷ 2 ∷ 0 ∷ 5 ∷ []
unfolding serve_connection serve read_message reply frame_response read_exact from_be_bytes
    to_be_bytes
cut_off = refl
