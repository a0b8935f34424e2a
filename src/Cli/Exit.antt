-- ===== src/Cli/Exit.antt =====
-- When the program of src/main.rs exits with 0.
use chromecast_sink.Base.{ℕ, ◌≡◌, refl, Option, none, some, List, ◌++◌, codes, arith}
use chromecast_sink.Base.Result.{Result, ok, err, ok-injective}
use chromecast_sink.Json.{Json}
use chromecast_sink.Channel.Utf8.{Text}
use chromecast_sink.Channel.Handle.{CastChannel}
use chromecast_sink.Discovery.{Device}
use chromecast_sink.Pipeline.{
  Failure, Answers, World, host_device, listed, device_of, run_with_device, run,
}
use chromecast_sink.Pipeline.Success.{AllWent, run_with_device-AllWent}
use chromecast_sink.Cli.{Cli, Outside, run_with_host, dispatch, code_of, exit_of, main}

-- The device that the session is with: the host's, where one is named, and else the one that was
-- discovered.
abbrev pub Selects : Outside → Option Text → Cli → Device → Type 0
Selects o (some host) cli d =
    host_device (host ++ codes ":" ++ o.decimal cli.port) cli.port (o.addresses host) ≡ ok d
Selects o none cli d = device_of (listed (o.discovered cli.device)) ≡ ok d

code_of-zero : (o : Option (Result Failure (Unit {0}))) → code_of o ≡ some 0 → o ≡ some (ok tt)
code_of-zero none h = absurd (ground arith)
code_of-zero (some (ok u)) h = refl
code_of-zero (some (err e)) h = absurd (ground arith)

exit_of-zero :
    (r : Result Failure (Option World))
    → exit_of r ≡ some 0
    → (w : World) × (r ≡ ok (some w)) × (w.outcome ≡ some (ok tt))
unfolding exit_of
exit_of-zero (err e) h = absurd (ground arith)
exit_of-zero (ok none) h = absurd (ground arith)
exit_of-zero (ok (some w)) h = (w, refl, code_of-zero w.outcome h)

module _ (json : Json) (local_id : Text) (hex_encode : List ℕ → Text) where
  abbrev run_chosen : Answers → Result Failure Device → Result Failure (Option World)
  run_chosen a (err e) = err e
  run_chosen a (ok d) = ok (run_with_device json local_id hex_encode d a)

  -- What is run with a device, or not.
  runs_with :
      (a : Answers) (chosen : Result Failure Device) (w : World)
      → run_chosen a chosen ≡ ok (some w)
      → (d : Device) × (chosen ≡ ok d) × (run_with_device json local_id hex_encode d a ≡ some w)
  runs_with a (err e) w h = absurd (cc)
  runs_with a (ok d) w h = (d, refl, ok-injective h)

  abbrev run_host : Cli → Outside → Option Text → Result Failure (Option World)
  run_host cli o (some host) = run_with_host json local_id hex_encode host cli.port o
  run_host cli o none = run json local_id hex_encode (o.discovered cli.device) o.answers

  dispatch-Selects :
      (cli : Cli) (o : Outside) (w : World)
      → dispatch json local_id hex_encode cli o ≡ ok (some w)
      → (d : Device) × Selects o cli.host cli d
        × (run_with_device json local_id hex_encode d o.answers ≡ some w)
  unfolding dispatch run_with_host run
  dispatch-Selects cli o w h = by_host cli.host h
    where
      by_host :
          (host : Option Text)
          → (elim host [
            | some host ↦ run_with_host json local_id hex_encode host cli.port o
            | none ↦ run json local_id hex_encode (o.discovered cli.device) o.answers
          ])
            ≡ ok (some w)
          → (d : Device) × Selects o host cli d
            × (run_with_device json local_id hex_encode d o.answers ≡ some w)
      by_host (some host) h = runs_with o.answers _ w h
      by_host none h = runs_with o.answers _ w h

  -- If the program exits with 0, it ran a session with the device of the host that was named, or else
  -- with the one that was discovered, the connection was opened, the sink, the socket and the signal
  -- handler were made, and the capture loop ended without an error.
  pub main-zero :
      (cli : Cli) (o : Outside)
      → main json local_id hex_encode cli o ≡ some 0
      → (d : Device) × (w : World) × Selects o cli.host cli d
        × (run_with_device json local_id hex_encode d o.answers ≡ some w)
        × (w.outcome ≡ some (ok tt))
        × ((ch : CastChannel) × (o.answers.connected ≡ some ch) × AllWent o.answers)
  unfolding main
  main-zero cli o h =
      let (w, ran, over) = exit_of-zero (dispatch json local_id hex_encode cli o) h in
      let (d, selected, ran_with) = dispatch-Selects cli o w ran in
      (
        d,
        w,
        selected,
        ran_with,
        over,
        run_with_device-AllWent json local_id hex_encode o.answers d w ran_with over,
      )
