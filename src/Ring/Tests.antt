-- ===== src/Ring/Tests.antt =====
-- The theorems on src/audio_ring.rs at concrete inputs.
use chromecast_sink.Base.{◌≡◌, ◌^◌, ◌<◌, refl, some, [], ◌∷◌, false, List, length, replicate, arith}
use chromecast_sink.Ring.{
  AudioRing, channel, is_power_of_two, power_of_two_loop, accept, advance_read, reserve, publish,
  store_all, store_at, load_all, load_at, samples_of, write_s16le, read_frames,
}
use chromecast_sink.Ring.Steps.{first_sample, Run, at_rest}
use chromecast_sink.Ring.Calls.{after_read, accepted}
use chromecast_sink.Ring.Sequence.{Call, write, read, call, IsResting}
use chromecast_sink.Ring.Fifo.{calls, AreWhole, calls-Run}
use chromecast_sink.Ring.Invariant.{IsTold}
use chromecast_sink.Ring.Untorn.{Run-IsTold}

abbrev mono : AudioRing
mono = record {
  buf = replicate 2 0;
  capacity = 2;
  channels = 1;
  sample_mask = 1;
  reserved = 0;
  write = 0;
  read = 0;
  closed = false;
}

-- Two samples written, one read, two more written, two read
abbrev some_calls : List Call
some_calls =
    write (1 ∷ 0 ∷ 2 ∷ 0 ∷ []) ∷ read (0 ∷ []) ∷ write (3 ∷ 0 ∷ []) ∷ read (0 ∷ 0 ∷ []) ∷ []

some_calls-AreWhole : AreWhole 1 some_calls
some_calls-AreWhole = (tt, (refl, (tt, (refl, tt))))

mono-IsResting : IsResting 1 (at_rest mono)
mono-IsResting = record { of_channels = refl; producer_out = refl; consumer_out = refl }

mono-channel : channel 2 1 ≡ some mono
unfolding channel is_power_of_two power_of_two_loop
mono-channel = refl

delivered_both : (calls (at_rest mono) some_calls).delivered ≡ (1, 2 ∷ 3 ∷ []) ∷ (0, 1 ∷ []) ∷ []
unfolding call after_read read_frames write_s16le accept advance_read reserve publish store_all
    store_at load_all load_at samples_of
delivered_both = refl

calls-Run_example : Run (at_rest mono) (calls (at_rest mono) some_calls)
calls-Run_example =
    calls-Run 1 (at_rest mono) some_calls (omega arith) mono-IsResting some_calls-AreWhole

few_logged : length (calls (at_rest mono) some_calls).log < 2 ^ 64
unfolding call after_read read_frames write_s16le accept advance_read reserve publish store_all
    store_at load_all load_at samples_of accepted
few_logged = omega arith

Run-IsTold_example :
    IsTold
      (calls (at_rest mono) some_calls).log
      (first_sample (calls (at_rest mono) some_calls).ring)
      (calls (at_rest mono) some_calls).delivered
Run-IsTold_example =
    Run-IsTold 2 1 mono (calls (at_rest mono) some_calls) (omega arith) mono-channel
      (calls-Run 1 (at_rest mono) some_calls (omega arith) mono-IsResting some_calls-AreWhole)
      few_logged
