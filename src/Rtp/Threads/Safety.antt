-- ===== src/Rtp/Threads/Safety.antt =====
-- What holds of the wire in every reachable state.
use chromecast_sink.Base.{ℕ, refl}
use chromecast_sink.Rtp.Packet.{Config}
use chromecast_sink.Rtp.History.Window.{new-IsHistory, get_mut-new}
use chromecast_sink.Rtp.Sender.{Cipher}
use chromecast_sink.Rtp.Threads.{
  System, Step, by_caller, by_reporter, by_server, Reach, created, next,
}
use chromecast_sink.Rtp.Threads.Wire.{IsWire}
use chromecast_sink.Rtp.Threads.Invariant.{IsSound}
use chromecast_sink.Rtp.Threads.Invariant.ByCaller.{CallerStep-IsSound}
use chromecast_sink.Rtp.Threads.Invariant.ByReporter.{ReporterStep-IsSound}
use chromecast_sink.Rtp.Threads.Invariant.ByServer.{ServerStep-IsSound}

module _ (c : Cipher) (cfg : Config) (peer_ip : ℕ) where
  Step-IsSound : {s t : System} → Step c cfg peer_ip s t → IsSound c cfg s → IsSound c cfg t
  Step-IsSound (by_caller m) v = CallerStep-IsSound c cfg peer_ip m v
  Step-IsSound (by_reporter m) v = ReporterStep-IsSound c cfg peer_ip m v
  Step-IsSound (by_server m) v = ServerStep-IsSound c cfg peer_ip m v

  pub Reach-IsSound : {s : System} → Reach c cfg peer_ip s → IsSound c cfg s
  Reach-IsSound created = record {
    wired = tt;
    shared = record {
      ids = (refl, tt);
      octets = (refl, tt);
      caller = (refl, refl);
      reporter = tt;
      sized = new-IsHistory;
      held = λ f p h. absurd (cc (get_mut-new f));
    };
  }
  Reach-IsSound (next r m) = Step-IsSound m (Reach-IsSound r)

  -- In every interleaving of the three threads, whichever stored values the loads return and however
  -- the socket answers: each new packet is the encrypted frame under the number of frames before it,
  -- each resent packet is that of an earlier frame byte for byte, and each report's frame id and
  -- byte count are values that the frames before it account for.
  pub Reach-IsWire : {s : System} → Reach c cfg peer_ip s → IsWire c cfg s.wire
  Reach-IsWire r = (Reach-IsSound r).wired
