-- ===== src/Main/Exit.antt =====
-- src/main.rs, `main` from its first line to its last: the arguments, the checks, the three sockets,
-- and the `select!` over the tasks. A panic is `none`.
pub mod Returns
use safexip.Prelude.{
  ℕ, Bool, true, false, not, Option, none, some, List, [], ◌∷◌, String, Result, ok, err,
  if◌then◌else◌,
}
use safexip.Config.Args.{Clap, Args, ArgError, from_args}
use safexip.Config.Validate.{ConfigError}
use safexip.Hickory.{Hickory}
use safexip.Main.Startup.{start}

-- Which of the three sockets can be bound.
pub record Sockets : Type 0 where
  pub udp : Bool
  pub tcp : Bool
  pub api : Bool

-- What `shutdown_signal` waits for: the return of `ctrl_c`, with or without an error, and SIGTERM.
pub data SignalEvent : Type 0 where
  ctrl_c_pressed ctrl_c_failed terminate_received : SignalEvent

-- The branch of `select!` that is taken; that of the HTTP API has the result of its task.
pub data Finished : Type 0 where
  udp_finished tcp_finished : Finished
  -- with the errors that `shutdown_signal` logs
  shut_down : List String → Finished
  api_finished : Bool → Finished

-- clap ends the process itself where it refuses the arguments.
pub data MainError (E : Type 0) : Type 0 where
  refused_arguments : ArgError E → MainError E
  invalid_configuration : ConfigError E → MainError E
  udp_bind_failed tcp_bind_failed api_bind_failed udp_stopped tcp_stopped api_failed : MainError E

-- The branch that an event leads to, if it ends the wait; the first argument says whether the listener
-- for SIGTERM could be made.
unfoldable pub shutdown_signal : Bool → SignalEvent → Option Finished
shutdown_signal true ctrl_c_pressed = some (shut_down [])
shutdown_signal true ctrl_c_failed = some (shut_down ("failed to listen for Ctrl-C" ∷ []))
shutdown_signal true terminate_received = some (shut_down [])
shutdown_signal false ctrl_c_pressed = some (shut_down ("failed to listen for SIGTERM" ∷ []))
shutdown_signal false ctrl_c_failed =
    some (shut_down ("failed to listen for SIGTERM" ∷ "failed to listen for Ctrl-C" ∷ []))
shutdown_signal false terminate_received = none

unfoldable pub select_result : {E : Type 0} → Finished → Result (MainError E) (Unit {0})
select_result udp_finished = err udp_stopped
select_result tcp_finished = err tcp_stopped
select_result (api_finished true) = ok tt
select_result (api_finished false) = err api_failed
select_result (shut_down errors) = ok tt

unfoldable pub bind_all : {E : Type 0} → Sockets → Finished → Result (MainError E) (Unit {0})
unfolding select_result
bind_all sockets finished =
    if not sockets.udp
    then err udp_bind_failed
    else if not sockets.tcp
    then err tcp_bind_failed
    else if not sockets.api
    then err api_bind_failed
    else select_result finished

module _ (h : Hickory) (c : Clap) where
  unfoldable pub main :
      Args → ℕ → Sockets → Finished → Option (Result (MainError h.NameError) (Unit {0}))
  main args timestamp sockets finished = elim (from_args h c args) [
    | err e ↦ some (err (refused_arguments e))
    | ok config ↦ elim (start h config timestamp) [
      | none ↦ none
      | some (err e) ↦ some (err (invalid_configuration e))
      | some (ok _) ↦ some (bind_all sockets finished)
    ]
  ]
