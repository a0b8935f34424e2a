-- ===== src/Pipeline/Held.antt =====
-- What a session of src/pipeline.rs holds, and the order of its events.
use chromecast_sink.Base.{
  ◌≡◌, refl, ap, ◌∙◌, sym, Bool, true, false, not, ◌&&◌, Option, none, some, List, [], ◌∷◌, ◌++◌,
}
use chromecast_sink.Pipeline.{
  Event, channel_opened, sink_created, session_launched, sender_bound, sender_started,
  monitor_spawned, captured, sender_stopped, session_dropped, channel_dropped, monitor_joined,
  sink_dropped, sender_dropped, World, happens,
}

-- What is held.
pub record Held : Type 0 where
  pub channel : Bool
  pub sink : Bool
  pub session : Bool
  pub sender : Bool
  pub sending : Bool
  pub monitor : Bool

abbrev pub nothing_held : Held
nothing_held = record {
  channel = false;
  sink = false;
  session = false;
  sender = false;
  sending = false;
  monitor = false;
}

abbrev only_if : Bool → Held → Option Held
only_if true h = some h
only_if false h = none

-- What an event needs and leaves; none where it is out of order. A session needs its channel to the
-- end, for its last messages; the threads that send stop before it; the monitor, which waits for the
-- channel's dispatcher to be gone, is joined after the channel is closed.
unfoldable pub follow_one : Held → Event → Option Held
follow_one h channel_opened = only_if (not h.channel) (record h { channel = true })
follow_one h sink_created = only_if (h.channel && not h.sink) (record h { sink = true })
follow_one h session_launched = only_if (h.channel && not h.session) (record h { session = true })
follow_one h sender_bound = only_if (h.session && not h.sender) (record h { sender = true })
follow_one h sender_started = only_if (h.sender && not h.sending) (record h { sending = true })
follow_one h monitor_spawned = only_if (h.session && not h.monitor) (record h { monitor = true })
follow_one h captured = only_if (h.sink && h.sending && h.monitor) h
follow_one h sender_stopped = only_if h.sending (record h { sending = false })
follow_one h session_dropped =
    only_if (h.session && h.channel && not h.sending) (record h { session = false })
follow_one h channel_dropped = only_if (h.channel && not h.session) (record h { channel = false })
follow_one h monitor_joined = only_if (h.monitor && not h.channel) (record h { monitor = false })
follow_one h sink_dropped = only_if h.sink (record h { sink = false })
follow_one h sender_dropped = only_if (h.sender && not h.sending) (record h { sender = false })

abbrev pub follow : Option Held → List Event → Option Held
follow h [] = h
follow none (e ∷ es) = none
follow (some h) (e ∷ es) = follow (follow_one h e) es

follow-none : (es : List Event) → follow none es ≡ none
follow-none [] = refl
follow-none (e ∷ es) = refl

follow-append :
    (h : Option Held) (es fs : List Event) → follow h (es ++ fs) ≡ follow (follow h es) fs
follow-append h [] fs = refl
follow-append none (e ∷ es) fs = sym (follow-none fs)
follow-append (some h) (e ∷ es) fs = follow-append (follow_one h e) es fs

-- Where the events have led.
abbrev pub Holds : World → Held → Type 0
Holds w h = follow (some nothing_held) w.events ≡ some h

pub extend :
    (h : Held) (es fs : List Event)
    → follow (some nothing_held) es ≡ some h
    → follow (some nothing_held) (es ++ fs) ≡ follow (some h) fs
extend h es fs e = follow-append (some nothing_held) es fs ∙ ap (λ x. follow x fs) e

pub happens-Holds :
    (w : World) (h : Held) (es : List Event)
    → Holds w h
    → follow (some nothing_held) (happens w es).events ≡ follow (some h) es
happens-Holds w h es e = extend h w.events es e
