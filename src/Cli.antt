-- ===== src/Cli.antt =====
-- src/main.rs: from the parsed command line to the exit code, with the entry points of
-- src/pipeline.rs that it calls. Parsing the arguments is clap's; the build is that for Linux.
pub mod Exit
mod Tests
use chromecast_sink.Base.{ℕ, Bool, Option, none, some, List, ◌∷◌, [], ◌++◌, codes, if◌then◌else◌}
use chromecast_sink.Base.Result.{Result, ok, err}
use chromecast_sink.Json.{Json}
use chromecast_sink.Channel.Utf8.{Text}
use chromecast_sink.Discovery.{Device, DiscoveryError}
use chromecast_sink.Pipeline.{Failure, IpAddr, Answers, World, host_device, run_with_device, run}

pub record Cli : Type 0 where
  pub device : Option Text
  pub host : Option Text
  pub port : ℕ
  pub verbose : Bool

pub data Level : Type 0 where
  debug warn : Level

pub level_of : Cli → Level
level_of cli = if cli.verbose then debug else warn

-- What is outside: what `discover` returns for a name, what a host resolves to, and the rest of the
-- session's answers. `decimal` prints a port.
pub record Outside : Type 0 where
  pub discovered : Option Text → Result DiscoveryError (List Device)
  pub addresses : Text → Option (List IpAddr)
  pub decimal : ℕ → Text
  pub answers : Answers

-- The exit code, `none` while the session still waits.
abbrev pub code_of : Option (Result Failure (Unit {0})) → Option ℕ
code_of none = none
code_of (some (ok u)) = some 0
code_of (some (err e)) = some 1

-- A session that found no connection has no world.
unfoldable pub exit_of : Result Failure (Option World) → Option ℕ
exit_of (err e) = some 1
exit_of (ok none) = some 1
exit_of (ok (some w)) = code_of w.outcome

module _ (json : Json) (local_id : Text) (hex_encode : List ℕ → Text) where
  -- `run_with_host`
  pub run_with_host : Text → ℕ → Outside → Result Failure (Option World)
  run_with_host host port o =
      elim (host_device (host ++ codes ":" ++ o.decimal port) port (o.addresses host)) [
        | err e ↦ err e
        | ok device ↦ ok (run_with_device json local_id hex_encode device o.answers)
      ]

  -- `match cli.host`
  unfoldable pub dispatch : Cli → Outside → Result Failure (Option World)
  dispatch cli o = elim cli.host [
    | some host ↦ run_with_host host cli.port o
    | none ↦ run json local_id hex_encode (o.discovered cli.device) o.answers
  ]

  pub main : Cli → Outside → Option ℕ
  main cli o = exit_of (dispatch cli o)
