-- ===== src/Main/Program/Changes.antt =====
-- What a step of the program does to the zone as a partial map from names and values to expiry times,
-- by the bytes that arrive and the answer that the client gets.
use safexip.Prelude.{
  ℕ, Bool, ◌&&◌, ltb, leb, length, ◌+◌, not, Option, some, none, ◌==◌, Result, ok, err,
  if◌then◌else◌,
}
use safexip.Text.{Text, text_eq, to_lowercase, trim_end}
use safexip.Config.{Config, acme_name}
use safexip.State.{AcmeRecords}
use safexip.State.Refine.{write, expire}
use safexip.Hickory.{Hickory, Message, Bytes}
use safexip.Dns.{is_query_message}
use safexip.Dns.Response.{refusal}
use safexip.Api.{Float, Codecs, PresentRequest, Response, present}
use safexip.Api.Router.{Axum, max_request_body_len, request_timeout}
use safexip.Main.Program.{
  Program, Step, udp, tcp, arrive, run_present, run_cleanup, give_up, leave, Reach, here, next,
}

-- When the value at the name expires, `none` where there is none.
abbrev pub View : Type 0
View = Text → Text → Option ℕ

-- What a step does to the view, with the time at which it drops what has expired.
pub data Change : Type 0 where
  nothing : Change
  looking : ℕ → Change
  -- the value at the challenge name, until the second time
  presenting : ℕ → ℕ → Text → Change
  cleaning : ℕ → Text → Change

abbrev pub effect : Config → Change → View → View
effect config nothing z = z
effect config (looking now) z = expire now z
effect config (presenting now until value) z =
    write (acme_name config) value (some until) (expire now z)
effect config (cleaning now value) z = write (acme_name config) value none (expire now z)

module _ (h : Hickory) (config : Config) where
  -- A request for which the zone is read: a query that no test refuses.
  abbrev pub reads : Message h.Name h.Edns → ℕ → Change
  reads request now =
      if not (is_query_message request.message_type)
      then nothing
      else elim (refusal h config request) [ some code ↦ nothing | none ↦ looking now ]

  abbrev pub query_change : ℕ → Bytes → Change
  query_change now raw = elim (h.from_vec raw) [ none ↦ nothing | some request ↦ reads request now ]

-- The name is the challenge name, in any case of letters and with or without final dots, and the
-- value can stand in a TXT record.
abbrev pub is_challenge : Config → PresentRequest → Bool
is_challenge config r =
    text_eq (to_lowercase (trim_end b'.' r.fqdn)) (acme_name config)
    && ltb 0 (length r.value)
    && leb (length r.value) 255

-- What a presentation does, by the status of its answer.
abbrev pub present_change : Config → ℕ → ℕ → PresentRequest → ℕ → Change
present_change config now until r status =
    if not (is_challenge config r)
    then nothing
    else if status == 200
    then presenting now until r.value
    else looking now

abbrev pub cleanup_change : Config → ℕ → PresentRequest → Change
cleanup_change config now r = if not (is_challenge config r) then nothing else cleaning now r.value

-- A request whose body is refused does nothing.
abbrev pub body_change : (PresentRequest → Change) → Result Response PresentRequest → Change
body_change each (err response) = nothing
body_change each (ok r) = each r

module _ (h : Hickory) (f : Float) (k : Codecs) (ax : Axum) (config : Config)
    (acme : AcmeRecords) where
  abbrev pub change_of : {s t : Program f.F64} → Step h f k ax config acme s t → Change
  change_of (udp now raw) = query_change h config now raw
  change_of (tcp now raw) = query_change h config now raw
  change_of (arrive authorization now) = nothing
  change_of {s = s} (run_present now later body e) =
      body_change
        (λ r.
          present_change config now (later + acme.lifetime) r
            (present config acme now later r s.zone).0.status)
        (ax.extract max_request_body_len request_timeout body)
  change_of (run_cleanup now body e) =
      body_change (cleanup_change config now) (ax.extract max_request_body_len request_timeout body)
  change_of (give_up e) = nothing
  change_of (leave e) = nothing

  -- The changes of the steps, one after the other.
  abbrev pub view_after : {s t : Program f.F64} → Reach h f k ax config acme s t → View → View
  view_after here z = z
  view_after (next r step) z = effect config (change_of step) (view_after r z)
