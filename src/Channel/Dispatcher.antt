-- ===== src/Channel/Dispatcher.antt =====
-- `dispatcher` of src/cast_channel.rs. Each round is given what it meets outside: what `tls.read`
-- answers, the messages that reach the outbound channel, the times, and the answers of the writes.
pub mod Incoming
pub mod Forwarded
pub mod Outgoing
pub mod Written
pub mod Kept
pub mod Delivered
pub mod Liveness
mod Tests
use chromecast_sink.Base.{
  ℕ, zero, suc, ◌+◌, ◌-◌, ◌*◌, Bool, true, false, ◌||◌, Option, none, some, List, [], ◌∷◌, ◌++◌,
  length, leb, next_answer, later_answers, same_text, if◌then◌else◌,
}
use chromecast_sink.Base.Result.{ok, err}
use chromecast_sink.Channel.Error.{Fallible}
use chromecast_sink.Channel.Utf8.{Text}
use chromecast_sink.Channel.Message.{CastMessage, decode_cast_message}
use chromecast_sink.Channel.Frame.{take_frame}

-- "urn:x-cast:com.google.cast.tp.heartbeat"
abbrev pub ns_heartbeat : Text
ns_heartbeat =
    0x75 ∷ 0x72 ∷ 0x6e ∷ 0x3a ∷ 0x78 ∷ 0x2d ∷ 0x63 ∷ 0x61 ∷ 0x73 ∷ 0x74 ∷ 0x3a ∷ 0x63 ∷ 0x6f ∷ 0x6d
    ∷ 0x2e ∷ 0x67 ∷ 0x6f ∷ 0x6f ∷ 0x67 ∷ 0x6c ∷ 0x65 ∷ 0x2e ∷ 0x63 ∷ 0x61 ∷ 0x73 ∷ 0x74 ∷ 0x2e
    ∷ 0x74 ∷ 0x70 ∷ 0x2e ∷ 0x68 ∷ 0x65 ∷ 0x61 ∷ 0x72 ∷ 0x74 ∷ 0x62 ∷ 0x65 ∷ 0x61 ∷ 0x74 ∷ []

-- "receiver-0"
abbrev pub platform_receiver_id : Text
platform_receiver_id = 0x72 ∷ 0x65 ∷ 0x63 ∷ 0x65 ∷ 0x69 ∷ 0x76 ∷ 0x65 ∷ 0x72 ∷ 0x2d ∷ 0x30 ∷ []

-- "PING"
abbrev pub ping_type : Text
ping_type = 0x50 ∷ 0x49 ∷ 0x4e ∷ 0x47 ∷ []

-- {"type":"PING"}
abbrev pub ping_payload : Text
ping_payload =
    0x7b ∷ 0x22 ∷ 0x74 ∷ 0x79 ∷ 0x70 ∷ 0x65 ∷ 0x22 ∷ 0x3a ∷ 0x22 ∷ 0x50 ∷ 0x49 ∷ 0x4e ∷ 0x47 ∷ 0x22
    ∷ 0x7d ∷ []

-- {"type":"PONG"}
abbrev pub pong_payload : Text
pong_payload =
    0x7b ∷ 0x22 ∷ 0x74 ∷ 0x79 ∷ 0x70 ∷ 0x65 ∷ 0x22 ∷ 0x3a ∷ 0x22 ∷ 0x50 ∷ 0x4f ∷ 0x4e ∷ 0x47 ∷ 0x22
    ∷ 0x7d ∷ []

-- In nanoseconds.
abbrev pub heartbeat_interval : ℕ
heartbeat_interval = 5_000_000_000

abbrev pub liveness_timeout : ℕ
liveness_timeout = 10_000_000_000

pub data ReadResult : Type 0 where
  end_of_file would_block unexpected_eof failed : ReadResult
  bytes : List ℕ → ReadResult

-- What a round meets: whether `stop` was set from outside before it, the read and its time, the
-- messages that reach the outbound channel until `try_recv` finds no more and whether the senders
-- are gone then, and the times of the heartbeat's two looks at the clock and of the liveness check.
pub record Tick : Type 0 where
  pub stopped : Bool
  pub read : ReadResult
  pub read_at : ℕ
  pub enqueued : List CastMessage
  pub disconnected : Bool
  pub ping_checked_at : ℕ
  pub ping_at : ℕ
  pub live_at : ℕ

-- `wire` holds every message given to `write_message` with its success, `forwarded` those sent on
-- `incoming`, both in order; `queue` what is enqueued and not received yet.
pub record Session : Type 0 where
  pub acc : List ℕ
  pub last_ping : ℕ
  pub last_rx : ℕ
  pub stop : Bool
  pub queue : List CastMessage
  pub answers : List Bool
  pub wire : List (CastMessage × Bool)
  pub forwarded : List CastMessage

-- `write_message`, and whether it succeeds.
abbrev pub write : Session → CastMessage → Session × Bool
write s msg = (
  record s {
    answers = later_answers s.answers;
    wire = s.wire ++ ((msg, next_answer s.answers) ∷ []);
  },
  next_answer s.answers,
)

-- `json_type` is the string under "type" in a JSON text (`serde_json`), `local_id` the sender id.
module _ (json_type : Text → Option Text) (local_id : Text) where
  abbrev pub payload_type_is : Text → Text → Bool
  payload_type_is payload expected = elim (json_type payload) [
    | none ↦ false
    | some t ↦ same_text t expected
  ]

  abbrev pub pong : Text → CastMessage
  pong destination = record {
    source = local_id;
    destination = destination;
    namespace = ns_heartbeat;
    payload = pong_payload;
  }

  abbrev pub ping : CastMessage
  ping = record {
    source = local_id;
    destination = platform_receiver_id;
    namespace = ns_heartbeat;
    payload = ping_payload;
  }

  -- `match decode_cast_message(&body)`
  unfoldable pub handle : Session → Fallible CastMessage → Session
  handle s (err e) = s
  handle s (ok msg) =
      if same_text msg.namespace ns_heartbeat
      then if payload_type_is msg.payload ping_type then (write s (pong msg.source)).0 else s
      else record s { forwarded = s.forwarded ++ (msg ∷ []) }

  -- The loop around `take_frame`, and whether the framing is broken.
  unfoldable pub frames_loop : ℕ → Session → Session × Bool
  frames_loop zero s = (s, false)
  frames_loop (suc fuel) s = elim (take_frame s.acc) [
    | err e ↦ (s, true)
    | ok (none, acc) ↦ (record s { acc = acc }, false)
    | ok (some body, acc) ↦
        frames_loop fuel (handle (record s { acc = acc }) (decode_cast_message body))
  ]

  -- A frame takes four bytes at least.
  unfoldable pub handle_frames : Session → Session × Bool
  handle_frames s = frames_loop (length s.acc) s

  -- `match tls.read(&mut buf)`; `none` ends the session.
  unfoldable pub take_read : Session → Tick → Option Session
  take_read s t = elim t.read [
    | bytes chunk ↦ some (record s { acc = s.acc ++ chunk; last_rx = t.read_at })
    | would_block ↦ some s
    | _ ↦ none
  ]

  -- The loop around `outbound.try_recv`, on the messages that it finds.
  unfoldable pub drain : Bool → Session → List CastMessage → Session
  drain disconnected s [] = record s { queue = []; stop = s.stop || disconnected }
  drain disconnected s (msg ∷ rest) =
      let (s', sent) = write s msg in
      let later = drain disconnected s' rest in
      if sent then later else record s' { queue = rest; stop = true }

  unfoldable pub heartbeat : Tick → Session → Session
  heartbeat t s =
      if leb heartbeat_interval (t.ping_checked_at - s.last_ping)
      then record (write s ping).0 { last_ping = t.ping_at }
      else s

  -- The round behind the read, and whether it ends the session.
  unfoldable pub round : Tick → Session → Session × Bool
  round t s =
      let (handled, broken) = handle_frames s in
      let drained = drain t.disconnected handled (handled.queue ++ t.enqueued) in
      let beaten = heartbeat t drained in
      if broken
      then (record handled { queue = handled.queue ++ t.enqueued }, true)
      else (beaten, leb liveness_timeout (t.live_at - beaten.last_rx))

  -- The rounds until one ends the session, or those observed are over.
  pub rounds : List Tick → Session → Session
  rounds [] s = s
  rounds (t ∷ ts) s =
      let s' = record s { stop = s.stop || t.stopped } in
      if s'.stop then s' else elim (take_read s' t) [
        | none ↦ s'
        | some read ↦
            let (next, ends) = round t read in
            let later = rounds ts next in if ends then next else later
      ]

  -- The messages that are left, up to the first failure.
  pub flush : Session → List CastMessage → Session
  flush s [] = record s { queue = [] }
  flush s (msg ∷ rest) =
      let (s', sent) = write s msg in
      let later = flush s' rest in if sent then later else record s' { queue = rest }

  -- `late` arrives after the last round.
  pub dispatcher : List Tick → List CastMessage → Session → Session
  dispatcher ticks late s = let ended = rounds ticks s in flush ended (ended.queue ++ late)
