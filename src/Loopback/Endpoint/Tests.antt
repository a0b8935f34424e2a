-- ===== src/Loopback/Endpoint/Tests.antt =====
-- The playback devices of src/virtual_sink_windows.rs at concrete answers.
use chromecast_sink.Base.{ℕ, zero, suc, ◌≡◌, refl, true, Option, none, some, [], ◌∷◌, codes}
use chromecast_sink.Base.Result.{ok, err}
use chromecast_sink.Channel.Utf8.{Text}
use chromecast_sink.Discovery.{contains, begins_with}
use chromecast_sink.Loopback.Endpoint.{
  other_call, several_match, Answered, named, items_from, render_endpoints, default_render_endpoint,
  matching, single, find_render_endpoint, captured_endpoint, list_capture_devices,
}
use chromecast_sink.Loopback.Endpoint.Only.{IsOnly, find_render_endpoint-IsOnly}

abbrev device_at : ℕ → Option (ℕ × Option Text)
device_at zero = some (10, some (codes "Speakers (USB)"))
device_at (suc zero) = some (11, some (codes "Headphones"))
device_at (suc (suc i)) = some (12, some (codes "Speakers (HDMI)"))

abbrev answered : Answered ℕ
answered = record {
  entered = true;
  created = true;
  enumerated = true;
  count = some 3;
  item = device_at;
  by_default = some (11, none);
}

abbrev as_is : Text → Text
as_is t = t

find_test : find_render_endpoint as_is (codes "HDMI") answered ≡ ok (12, codes "Speakers (HDMI)")
unfolding find_render_endpoint render_endpoints items_from named matching single contains
    begins_with
find_test = refl

several_test :
    captured_endpoint as_is (some (codes "Speakers")) answered
    ≡ err (several_match (codes "Speakers (USB)" ∷ codes "Speakers (HDMI)" ∷ []))
unfolding captured_endpoint find_render_endpoint render_endpoints items_from named matching single
    contains begins_with
several_test = refl

-- The default device has no name
default_test : captured_endpoint as_is none answered ≡ err other_call
unfolding captured_endpoint default_render_endpoint named
default_test = refl

list_test :
    list_capture_devices answered
    ≡ ok (codes "Speakers (USB)" ∷ codes "Headphones" ∷ codes "Speakers (HDMI)" ∷ [])
unfolding list_capture_devices render_endpoints items_from named
list_test = refl

find_render_endpoint-IsOnly_example :
    (n : ℕ) × (some 3 ≡ some n)
    × IsOnly as_is (codes "HDMI") device_at 0 n 12 (codes "Speakers (HDMI)")
find_render_endpoint-IsOnly_example =
    find_render_endpoint-IsOnly as_is (codes "HDMI") answered 12 (codes "Speakers (HDMI)") find_test
