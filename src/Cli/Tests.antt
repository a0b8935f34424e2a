-- ===== src/Cli/Tests.antt =====
-- The program of src/main.rs on a concrete command line.
use chromecast_sink.Base.{◌≡◌, ap, ◌∙◌, false, none, some, [], ◌∷◌, codes}
use chromecast_sink.Base.Result.{ok}
use chromecast_sink.Channel.Handle.{CastChannel}
use chromecast_sink.Discovery.{Device}
use chromecast_sink.Pipeline.{World, run_with_device, run, device_of, pick_device, listed}
use chromecast_sink.Pipeline.Success.{AllWent}
use chromecast_sink.Pipeline.Samples.{
  status_json, in_time, answers, speaker, final_world, ran, is_over,
}
use chromecast_sink.Cli.{Cli, Outside, code_of, exit_of, main, dispatch}
use chromecast_sink.Cli.Exit.{Selects, main-zero}

-- chromecast-sink --device Kitchen
abbrev cli : Cli
cli = record { device = some (codes "Kitchen"); host = none; port = 8009; verbose = false }

abbrev outside : Outside
outside = record {
  discovered = λ name. ok (speaker ∷ []);
  addresses = λ host. none;
  decimal = λ port. [];
  answers = answers in_time;
}

ran_speaker :
    dispatch status_json (codes "me") (λ bytes. bytes) cli outside ≡ ok (some (final_world in_time))
unfolding dispatch run device_of pick_device listed
ran_speaker = ap ok (ran in_time)

exits_well : main status_json (codes "me") (λ bytes. bytes) cli outside ≡ some 0
unfolding main exit_of
exits_well = ap exit_of ran_speaker ∙ ap code_of is_over

main-zero_example :
    (d : Device) × (w : World) × Selects outside none cli d
    × (run_with_device status_json (codes "me") (λ bytes. bytes) d (answers in_time) ≡ some w)
    × (w.outcome ≡ some (ok tt))
    × ((ch : CastChannel) × ((answers in_time).connected ≡ some ch) × AllWent (answers in_time))
main-zero_example = main-zero status_json (codes "me") (λ bytes. bytes) cli outside exits_well
