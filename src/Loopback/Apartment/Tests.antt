-- ===== src/Loopback/Apartment/Tests.antt =====
-- The apartment of src/virtual_sink_windows.rs at concrete answers and schedules.
use chromecast_sink.Base.{◌≡◌, true, false, some, [], ◌∷◌, replicate}
use chromecast_sink.Loopback.Apartment.{agile, capture, whole}
use chromecast_sink.Loopback.Apartment.Process.{follow, nobody}
use chromecast_sink.Loopback.Apartment.Whole.{whole-follow}

-- The second of two devices is captured; both threads in turn; the third agile reference cannot be
-- resolved
whole-follow_example :
    follow (agile capture) nobody (
      whole
        (some 2)
        (true ∷ false ∷ false ∷ true ∷ [])
        (replicate 30 true)
        (true ∷ true ∷ true ∷ false ∷ []))
    ≡ some nobody
whole-follow_example =
    whole-follow (agile capture) (some 2) (replicate 30 true) (true ∷ false ∷ false ∷ true ∷ [])
      (true ∷ true ∷ true ∷ false ∷ [])
