-- ===== src/Suite.antt =====
-- The unit tests of src/*.rs, as functions of the libraries into Bool, and their runs with stand-ins
-- for the libraries. A test that panics is `false`.
mod Encoding
mod Decoding
mod Library
mod Fixtures
mod Handler
mod DnsNames
mod DnsAnswers
mod DnsErrors
mod ApiFixtures
mod ApiRequests
mod ApiLimits
mod ApiLibrary
mod ApiRuns
mod Units
mod Records
mod Program
mod DnsRuns
mod UnitRuns
