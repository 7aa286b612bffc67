-- ===== src/Main/Program/Answers.antt =====
-- The program from its arguments on: a challenge that a client presents, and a query for it.
use safexip.Prelude.{
  ℕ, ◌+◌, ◌<◌, true, some, none, Option, List, ◌≡◌, sym, ap, ◌∙◌, ok, is_some-value, map,
}
use mathlib.Core.Path.{subst}
use safexip.Text.{Text}
use safexip.Config.{Config, acme_name}
use safexip.Config.Args.{Clap, HasRanges, Args, from_args}
use safexip.Config.Configured.{from_args-IsConfigured}
use safexip.State.{AcmeRecords, ZoneState}
use safexip.State.Valid.{IsValid}
use safexip.State.Served.{contains, Spares, run-IsValid}
use safexip.State.History.{run, nil-IsValid}
use safexip.Hickory.{Hickory, HasBuilders, Message, Query, txt_type}
use safexip.Wire.{txt_record}
use safexip.Dns.{build_response, only_query}
use safexip.Dns.Response.{name_of, refusal}
use safexip.Dns.Total.{build_response-total}
use safexip.Api.{Float, Codecs, PresentRequest, Response, present}
use safexip.Api.Router.{Axum, with_body, with_body_ok, max_request_body_len, request_timeout}
use safexip.Main.Startup.{start, start_ok}
use safexip.Main.Challenge.{present-answered}
use safexip.Main.Program.{Program, Reach, opened}
use safexip.Main.Program.Sound.{AllEmit, Reach-All, Reach-IsRun}
use safexip.Main.Program.Launch.{start-records}

module _ (h : Hickory) (f : Float) (k : Codecs) (ax : Axum) where
  pub Reach-IsValid :
      (config : Config) (acme : AcmeRecords) (s t : Program f.F64)
      → IsValid s.zone.records
      → Reach h f k ax config acme s t
      → IsValid t.zone.records
  Reach-IsValid config acme s t valid r =
      let (events, e) = Reach-IsRun h f k ax config acme s t r in
      subst (λ (z : ZoneState). IsValid z.records) (sym e) (run-IsValid acme events s.zone valid)

module _ (h : Hickory) (f : Float) (k : Codecs) (ax : Axum) (c : Clap) (ranges : HasRanges c)
    (builders : HasBuilders h) where
  -- If the arguments are accepted and the start succeeds, then at any time of the program: if a
  -- request to `/present` whose body is extracted reaches its handler and is answered with status
  -- 200, then the tasks may go on in any order, and a request that no test refuses and whose one
  -- query asks for the TXT records of the challenge name gets a response, without a panic, with one
  -- TXT record for each value of a list that has the presented one. It is assumed that the query
  -- comes before the expiry of the value, and that each query and request between happens before it
  -- too and neither presents nor removes that value. It is also assumed that what clap accepts is
  -- in the stated range and that an address has four octets, that the builders of messages do what
  -- their documentation says, and that the challenge name parses to the given name.
  pub presented_answers :
      (args : Args) (config : Config) (timestamp opened_at : ℕ) (acme : AcmeRecords)
      (zone : ZoneState) (s u t : Program f.F64) (now later : ℕ) (body : ax.Body)
      (r : PresentRequest) (query : ℕ) (request : Message h.Name h.Edns) (q : Query h.Name)
      (name : h.Name)
      → from_args h c args ≡ ok config
      → start h config timestamp ≡ some (ok (acme, zone))
      → Reach h f k ax config acme (opened f config opened_at zone) s
      → ax.extract max_request_body_len request_timeout body ≡ ok r
      → (with_body f k ax (present config acme now later) body s.zone).0.status ≡ 200
      → u.zone ≡ (with_body f k ax (present config acme now later) body s.zone).1
      → (steps : Reach h f k ax config acme u t)
      → AllEmit h f k ax config acme
          (Spares (later + acme.lifetime) (acme_name config) r.value)
          steps
      → query < later + acme.lifetime
      → refusal h config request ≡ none
      → only_query request.queries ≡ some q
      → q.query_type ≡ txt_type
      → name_of h q ≡ acme_name config
      → h.from_ascii (acme_name config) ≡ ok name
      → (m : Message h.Name h.Edns) × (values : List Text) × ((build_response h config query request
            t.zone).0
          ≡ some m)
        × (contains r.value values ≡ true)
        × (m.answers ≡ map (txt_record h name config.txt_ttl) values)
  presented_answers args config timestamp opened_at acme zone s u t now later body r query request q
        name parsed started first extracted accepted same steps spared early served only is_txt
        at_challenge parses =
      let configured = from_args-IsConfigured h c ranges args config parsed in
      let (validated, _) = start_ok h config timestamp (acme, zone) started in
      let handled = with_body_ok f k ax (present config acme now later) body s.zone r extracted in
      let at_start : IsValid zone.records =
        rw (start-records h f k ax c ranges config timestamp acme zone started) nil-IsValid in
      let valid =
        Reach-IsValid h f k ax config acme (opened f config opened_at zone) s at_start first in
      let (events, all, e) = Reach-All h f k ax config acme _ u t steps spared in
      let history : (t.zone ≡ run acme events (present config acme now later r s.zone).1) =
        e ∙ ap (run acme events) (same ∙ ap (λ (p : Response × ZoneState). p.1) handled) in
      let (m, found) = is_some-value (build_response h config query request t.zone).0 (
        build_response-total h config query request t.zone validated
          configured.ns_hostname2_normalized.dns_name) in
      let z = (build_response h config query request t.zone).1 in
      let built : (build_response h config query request
            (run acme events (present config acme now later r s.zone).1)
          ≡ (some m, z)) =
        subst (λ (w : ZoneState). build_response h config query request w ≡ (some m, z)) history
          (ap (λ (o : Option (Message h.Name h.Edns)). (o, z)) found) in
      let (values, has, answers) =
        present-answered h config acme now later r s.zone events query request m q z name builders
          valid (ap (λ (p : Response × ZoneState). p.0.status) (sym handled) ∙ accepted) all early
          served only is_txt at_challenge parses built in
      (m, values, found, has, answers)
