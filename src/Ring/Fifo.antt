-- ===== src/Ring/Fifo.antt =====
-- A series of whole calls of src/audio_ring.rs against the interleaved system.
use mathlib.Core.List.{foldl}
use chromecast_sink.Base.{ℕ, ◌<◌, List, [], ◌∷◌}
use chromecast_sink.Ring.Steps.{System, Run, done}
use chromecast_sink.Ring.Sequence.{
  Call, call, IsWhole, IsResting, call-IsResting, call-Run, Run-append,
}

abbrev pub calls : System → List Call → System
calls s cs = foldl call s cs

abbrev pub AreWhole : ℕ → List Call → Type 0
AreWhole channels [] = Unit
AreWhole channels (c ∷ cs) = IsWhole channels c × AreWhole channels cs

-- Writes, reads of whole frames and skips, one after the other on a ring at rest, are a run of the
-- interleaved system: each call's result is one that its accesses give.
pub calls-Run :
    (channels : ℕ) (s : System) (cs : List Call)
    → 0 < channels
    → IsResting channels s
    → AreWhole channels cs
    → Run s (calls s cs)
calls-Run channels s [] some_channels h whole = done
calls-Run channels s (c ∷ cs) some_channels h (whole, others) =
    Run-append s (call s c) (calls s (c ∷ cs)) (call-Run channels s c some_channels h whole)
      (calls-Run channels (call s c) cs some_channels (call-IsResting channels s c h) others)
