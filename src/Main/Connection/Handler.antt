-- ===== src/Main/Connection/Handler.antt =====
-- src/main.rs: one TCP connection with the handler of src/dns.rs. The zone and the clock move on
-- between two calls of the handler; they are arbitrary functions of the number of the call.
use safexip.Prelude.{ℕ, suc, true, Option, List, ◌≡◌, ◌≢◌, arith, length, is_ok, is_some}
use safexip.Config.{Config}
use safexip.Config.Validate.{IsValidated}
use safexip.State.{ZoneState}
use safexip.Hickory.{Hickory, Bytes}
use safexip.Dns.{handle}
use safexip.Dns.Total.{handlers_total}
use safexip.Main.Connection.{WriteOutcome, Ending, panicked, running, read_ending, connect}
use safexip.Main.Connection.Conversation.{
  Conversation, unread, panics, refuses, exceeds, breaks, responds, connect_answers,
}

-- Why a task returns that neither panics nor runs on.
abbrev IsRegular : Ending → Type 0
IsRegular ending = (ending ≢ panicked) × (ending ≢ running)

read_ending-IsRegular : (input : Bytes) → IsRegular (read_ending input)
unfolding read_ending
read_ending-IsRegular input = (λ e. ground arith, λ e. ground arith)

Conversation-IsRegular :
    (handle : ℕ → Bytes → Option Bytes) (writes : ℕ → WriteOutcome) (call : ℕ) (input : Bytes)
    (rs : List Bytes) (ending : Ending)
    → ((n : ℕ) (message : Bytes) → is_some (handle n message) ≡ true)
    → Conversation handle writes call input rs ending
    → IsRegular ending
Conversation-IsRegular handle writes call input rs ending total (unread x) =
    read_ending-IsRegular input
Conversation-IsRegular handle writes call input rs ending total (panics {message = message} x y) =
    absurd (ground (arith, total call message))
Conversation-IsRegular handle writes call input rs ending total (refuses x y) = (λ e. cc, λ e. cc)
Conversation-IsRegular handle writes call input rs ending total (exceeds x y z) = (λ e. cc, λ e. cc)
Conversation-IsRegular handle writes call input rs ending total (breaks x y p q w) =
    (λ e. cc, λ e. cc)
Conversation-IsRegular handle writes call input rs ending total
      (responds {rest = after} {rs = later} x y p q w c) =
    Conversation-IsRegular handle writes (suc call) after later ending total c

module _ (h : Hickory) (config : Config) (clock : ℕ → ℕ) (zones : ℕ → ZoneState) where
  abbrev pub call_handler : ℕ → Bytes → Option Bytes
  call_handler call message = (handle h config (clock call) message (zones call)).0

  -- With a validated configuration, and a second nameserver that parses: one round for each byte of
  -- the input, and one more, is enough for the loop over the messages of a TCP connection with the
  -- DNS handler to return, and it does not end by a panic, whatever the client sends, however the
  -- writes go, and whatever the zone and the clock are at each call.
  pub dns_connection_returns :
      (writes : ℕ → WriteOutcome) (input : Bytes)
      → IsValidated h config
      → is_ok (h.from_ascii config.ns_hostname2) ≡ true
      → ((connect call_handler writes (suc (length input)) 0 input).1 ≢ panicked)
        × ((connect call_handler writes (suc (length input)) 0 input).1 ≢ running)
  dns_connection_returns writes input valid second =
      let (output, ending) = connect call_handler writes (suc (length input)) 0 input in
      let (rs, rest, happened, same, end) = connect_answers call_handler writes input in
      Conversation-IsRegular call_handler writes 0 input rs ending
        (λ n message. (handlers_total h config (clock n) message (zones n) valid second).0) happened
