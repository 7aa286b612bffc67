-- ===== src/Tests.antt =====
-- Small runs of the program's parts at concrete inputs, with a small DNS library and small codecs.
mod Fixtures
mod WireFixtures
pub mod Outside
mod State
mod Xip
mod Dns
pub mod Challenge
pub mod Api
pub mod Gate
pub mod Config
pub mod Main
pub mod Program
mod Answers
mod Bounds
mod UdpTask
mod Exit
