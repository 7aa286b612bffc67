-- ===== src/Lib.antt =====
-- safexip: a DNS server for one delegated zone. It answers address queries for names that have an
-- IPv4 address written into them, and ACME challenges (TXT), which clients present and clean up
-- over an HTTP API. The parts, and the files that model them:
--
-- - src/state.rs, the challenge tokens and the zone's serial: State.antt. `AcmeRecords` is split
--   into the constants (`AcmeRecords`) and what the lock guards (`ZoneState`). `add`, `remove`,
--   `get_with_serial` and `serial` are functions of the state, for each holds the lock from its
--   first line to its last; State/History.antt has their sequences (`Event`, `run`), and
--   State/Period.antt is about the serial over a sequence. State/Valid.antt has the invariant of
--   the map and the abstract view, a partial map from names and values to expiry times (`expiry`).
-- - src/wire.rs, how many TXT values fit into one response: Wire.antt; Wire/Search.antt has the two
--   loops of `maximum_token_count`, over any test, and Wire/Rounds.antt how many rounds they take.
-- - src/xip.rs, names of the zone and addresses in names: Xip.antt, with Xip/Windows.antt for which
--   names have an address.
-- - src/config.rs, the configuration: Config.antt, Config/Values.antt (the value parsers),
--   Config/Args.antt (the attributes of `Config`: from texts to a configuration),
--   Config/Configured.antt (what holds of such a configuration), Config/Validate.antt
--   (`Config::validate`).
-- - src/dns.rs, the DNS handler: Dns.antt, and Dns/Zone.antt for what the zone has.
--   `build_response` is split where its early returns are: `build_response`, `respond`,
--   `answer_query`, `answer`. Dns/Total.antt is about panics.
-- - src/api.rs, the HTTP API: Api.antt (handlers, token bucket, Basic auth), Api/Utf8.antt
--   (`String::from_utf8`), Api/Admission.antt (the middleware, and overlapping requests as a step
--   relation), Api/Router.antt (`router`: the routes and their layers), Api/Allowed.antt (what a
--   request has passed), Api/Window.antt (the token bucket over a span of time), Api/Client.antt (a
--   request that passes every test).
-- - src/main.rs: Main.antt (the UDP loop and one TCP connection), Main/Startup.antt (the start),
--   Main/Exit.antt (`main`, with what binding, signals and `select!` come to), Main/UdpTask.antt
--   (the UDP loop with the handler), Main/Connection.antt (one TCP connection whose reads and
--   writes may fail; as a relation in Main/Connection/Conversation.antt, with the handler in
--   Main/Connection/Handler.antt), Main/Accept.antt (the accept loops of TCP and HTTP as step
--   relations); Main/Challenge.antt is about the HTTP API and the DNS handler together, and
--   Main/Program.antt about all tasks of the program, as a step relation whose steps are what one
--   task does under one lock; Main/Program/Answers.antt joins the start, a presentation and a
--   query, and Main/Program/Outsiders.antt is about clients without the key, and
--   Main/Program/View.antt about the zone over a run, by the changes of Main/Program/Changes.antt.
--
-- The parts meet as in the program: the DNS handler and the API call the operations of State on one
-- state, State calls the wire test, `validate` calls `maximum_token_count`, and the listeners of
-- Main call the handler. Text.antt and Map.antt have what Rust's strings and `HashMap` do,
-- Hickory.antt the crate hickory_proto, Tests.antt the examples. Suite.antt has the unit tests of
-- src/*.rs as functions into Bool, with stand-ins for the libraries that they run with.
--
-- Text is a list of bytes, and `to_lowercase` that of ASCII. Numbers are natural; a serial is cut
-- to 32 bits where the program wraps it, and an octet to 8. Times are natural numbers of
-- nanoseconds, and an operation that reads the clock takes each time it reads as an argument;
-- nothing is assumed of their order. A map is a list of entries, in an order that is left open in
-- what is stated. A panic is `none`. In State, the wire test is a function into Bool; a panic in it
-- counts as false. The fuel of the two loops of the search is the largest count, 65535: each round
-- of the first raises the upper bound, each round of the second narrows the interval
-- (Wire/Rounds.antt). The fuel of a TCP connection is the length of its input, of which each round
-- takes two bytes or more (Main/Rounds.antt).
--
-- Parameters, with what their documentation says as hypotheses: hickory_proto (`Hickory`,
-- `HasBuilders`, `HasAscii`), base64 and subtle (`Codecs`, `IsExact`), `f64` (`Float`, `HasOrder`),
-- clap and the parsers of addresses (`Clap`, `HasRanges`), axum and tower_http (`Axum`,
-- `HasLimit`). For the bounds over a span of time, Api/Window.antt has exact numbers in place of
-- `f64`, without its rounding. Of the arguments, the first that is wrong in the order of the fields
-- is reported; clap may report another. A semaphore is the number of its permits.
--
-- Not modelled: in src/main.rs, hyper's HTTP connection, the delivery of signals, logging, how long
-- a timeout is, and the addresses that are bound; in src/api.rs, how a body is read and decoded,
-- and what axum answers in the place of a handler. Main/Connection.antt has writes that fail, and
-- the theorems on exchanges over TCP have writes that succeed; a read that fails or times out is
-- the end of the input.
pub mod Prelude
pub mod Text
pub mod Map
pub mod State
pub mod Xip
pub mod Hickory
pub mod Config
pub mod Wire
pub mod Dns
pub mod Api
pub mod Main
pub mod Tests
pub mod Suite
