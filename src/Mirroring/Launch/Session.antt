-- ===== src/Mirroring/Launch/Session.antt =====
-- The session that `launch_mirroring` of src/mirroring.rs returns.
use chromecast_sink.Base.{
  ℕ, ◌+◌, ◌<◌, ◌≡◌, Option, none, some, List, ◌∷◌, ◌++◌, inl, inr, Bool-cases, Option-cases,
  same_text, same_text-eq, next_answer,
}
use chromecast_sink.Base.Result.{Result, ok}
use chromecast_sink.Json.{Json}
use chromecast_sink.Channel.Utf8.{Text}
use chromecast_sink.Channel.Message.{CastMessage}
use chromecast_sink.Channel.Handle.{ns_receiver, send_json, send}
use chromecast_sink.Mirroring.{
  StreamMode, app_id, MirroringSession, Trouble, message, Poll, Control, new_request_id, on_message,
  wait_for_json_message,
}
use chromecast_sink.Mirroring.Wait.{wait_for_json_message-IsFirstEnd}
use chromecast_sink.Mirroring.Launch.{launch_mirroring, launch_reply}
use chromecast_sink.Mirroring.Launch.Status.{IsStatus, launch_reply-IsStatus}

module _ (json : Json) where
  -- A message among the rounds before the deadline, in this namespace and with this JSON value.
  abbrev pub IsReceived : Text → ℕ → List Poll → json.Value → Type 0
  IsReceived namespace deadline ps v =
      (before : List Poll) × (p : Poll) × (after : List Poll) × (msg : CastMessage) × (ps
        ≡ before ++ (p ∷ after))
      × (p.now < deadline)
      × (p.received ≡ message msg)
      × (msg.namespace ≡ namespace)
      × (json.from_str msg.payload ≡ some v)

  on_message_lem :
      {T : Type 0} (namespace : Text) (predicate : json.Value → Option (Result Trouble T))
      (msg : CastMessage) (r : Result Trouble T)
      → on_message json namespace predicate msg ≡ some r
      → (msg.namespace ≡ namespace)
        × ((v : json.Value) × (json.from_str msg.payload ≡ some v) × (predicate v ≡ some r))
  on_message_lem namespace predicate msg r e =
      elim (Bool-cases (same_text msg.namespace namespace)) [
        | inr other ↦ let f : none ≡ some r = rw other at e in cc
        | inl same ↦ elim (Option-cases (json.from_str msg.payload)) [
          | inl no_json ↦ let f : none ≡ some r = rw (same, no_json) at e in cc
          | inr (v, f) ↦ (same_text-eq msg.namespace namespace same, (v, f, rw (same, f) at e))
        ]
      ]

  -- A success is what the predicate says of a message received in time.
  pub wait_for_json_message-ok :
      {T : Type 0} (namespace : Text) (deadline : ℕ)
      (predicate : json.Value → Option (Result Trouble T)) (ps : List Poll) (t : T)
      → (wait_for_json_message json namespace deadline predicate ps).0 ≡ some (ok t)
      → (v : json.Value) × IsReceived namespace deadline ps v × (predicate v ≡ some (ok t))
  wait_for_json_message-ok namespace deadline predicate ps t e =
      let (before, p, after, f, passed, ends) =
        wait_for_json_message-IsFirstEnd json namespace deadline predicate ps (ok t) e in
      elim ends [
        | inl (late, bad) ↦ cc
        | inr (early, inl (lost, bad)) ↦ cc
        | inr (early, inr (msg, got, says)) ↦
            let (named, (v, parsed, decided)) =
              on_message_lem namespace predicate msg (ok t) says in
            (v, (before, p, after, msg, f, early, got, named, parsed), decided)
      ]

-- A session that is launched is the one asked for: it comes from a message on the receiver's
-- namespace, received before the deadline, that answers this very request with a status listing the
-- mode's application, and it has that application's two identifiers. A status of a session left over
-- from an earlier run is not taken.
pub launch_mirroring-IsStatus :
    (json : Json) (local_id : Text) (mode : StreamMode) (now timeout : ℕ) (s : Control)
    (session : MirroringSession)
    → (launch_mirroring json local_id mode now timeout s).0 ≡ some (ok session)
    → (v : json.Value) × IsReceived json ns_receiver (now + timeout) s.incoming v
      × IsStatus json (app_id mode) s.counter v session
unfolding launch_mirroring new_request_id send_json send
launch_mirroring-IsStatus json local_id mode now timeout s session e =
    elim (Bool-cases (next_answer s.channel.answers)) [
      | inl sent ↦
          let (v, received, says) =
            wait_for_json_message-ok json ns_receiver (now + timeout)
              (launch_reply json (app_id mode) s.counter) s.incoming session
              (rw (sent, launch_mirroring, new_request_id, send_json, send) at e) in
          (v, received, launch_reply-IsStatus json (app_id mode) s.counter v session says)
      | inr gone ↦ let f = rw (gone, launch_mirroring, send_json, send) at e in cc
    ]
