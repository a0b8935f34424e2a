-- ===== src/Pipeline/Monitor.antt =====
-- The session monitor of src/pipeline.rs.
use mathlib.Core.Option.{some-injective}
use chromecast_sink.Base.{
  ◌≡◌, refl, ap, ◌∙◌, Bool, true, false, ◌&&◌, Option, none, some, List, [], ◌∷◌, ◌++◌, codes,
  same_text, same_text-eq, same_text_refl, Option-cases, arith, if◌then◌else◌, ◌↔◌, Bool-cases, inl,
  inr,
}
use chromecast_sink.Json.{Json, get_str}
use chromecast_sink.Channel.Utf8.{Text}
use chromecast_sink.Channel.Message.{CastMessage}
use chromecast_sink.Channel.Dispatcher.{payload_type_is}
use chromecast_sink.Channel.Handle.{ns_connection}

pub data Reason : Type 0 where
  connection_lost closed_by_receiver : Reason

module _ (json : Json) (local_id : Text) where
  abbrev pub json_type : Text → Option Text
  json_type payload = elim (json.from_str payload) [
    | none ↦ none
    | some v ↦ get_str json v (codes "type")
  ]

  pub is_close : Text → CastMessage → Bool
  is_close transport msg =
      same_text msg.namespace ns_connection
      && same_text msg.source transport
      && payload_type_is json_type local_id msg.payload (codes "CLOSE")

  -- The messages until the queue's other end is gone, and those left unread.
  pub watch : Text → List CastMessage → Reason × List CastMessage
  watch transport [] = (connection_lost, [])
  watch transport (msg ∷ msgs) =
      let later = watch transport msgs in
      if is_close transport msg then (closed_by_receiver, msgs) else later

-- The swap of the stop flag: the flag, and what is reported.
pub report : Bool → Reason → Bool × Option Reason
report stop reason = (true, if stop then none else some reason)

module _ (json : Json) (local_id : Text) where
  -- The thread's body on the messages it receives, and the flag at the swap.
  pub session_monitor : Text → List CastMessage → Bool → Bool × Option Reason
  session_monitor transport msgs stop = report stop (watch json local_id transport msgs).0

  -- A CLOSE from the session's transport, on the connection namespace: its payload is JSON with that
  -- string under "type".
  abbrev pub IsClose : Text → CastMessage → Type 0
  IsClose transport msg =
      (msg.namespace ≡ ns_connection)
      × (msg.source ≡ transport)
      × ((v : json.Value) × (x : json.Value) × (json.from_str msg.payload ≡ some v)
          × (json.get v (codes "type") ≡ some x)
          × (json.as_str x ≡ some (codes "CLOSE")))

  -- The test of the thread finds just these.
  is_close-IsClose :
      (transport : Text) (msg : CastMessage)
      → is_close json local_id transport msg ≡ true
      → IsClose transport msg
  unfolding is_close
  is_close-IsClose transport msg h = elim (Option-cases (json.from_str msg.payload)) [
    | inl no_json ↦ absurd (ground arith)
    | inr (v, parsed) ↦ elim (Option-cases (json.get v (codes "type"))) [
      | inl no_type ↦ absurd (ground arith)
      | inr (x, got) ↦ elim (Option-cases (json.as_str x)) [
        | inl no_text ↦ absurd (ground arith)
        | inr (t, text) ↦ (
          same_text-eq msg.namespace ns_connection (ground arith),
          same_text-eq msg.source transport (ground arith),
          (v, x, parsed, got, text ∙ ap some (same_text-eq t (codes "CLOSE") (ground arith))),
        )
      ]
    ]
  ]

  IsClose-is_close :
      (transport : Text) (msg : CastMessage)
      → IsClose transport msg
      → is_close json local_id transport msg ≡ true
  unfolding is_close
  IsClose-is_close transport msg (namespace, source, (v, x, parsed, got, text)) =
      ground (arith, namespace, source, parsed, got, text, same_text_refl transport)

  abbrev pub HasClose : Text → List CastMessage → Type 0
  HasClose transport msgs =
      (before : List CastMessage) × (msg : CastMessage) × (after : List CastMessage) × (msgs
        ≡ before ++ (msg ∷ after))
      × IsClose transport msg

  watch-HasClose :
      (transport : Text) (msgs : List CastMessage)
      → (watch json local_id transport msgs).0 ≡ closed_by_receiver
      → HasClose transport msgs
  unfolding watch
  watch-HasClose transport [] e = cc
  watch-HasClose transport (msg ∷ msgs) e =
      elim (Bool-cases (is_close json local_id transport msg)) [
        | inl close ↦ ([], msg, msgs, refl, is_close-IsClose transport msg close)
        | inr other ↦
            let (before, m, after, f, close) =
              watch-HasClose transport msgs (rw (other, watch) at e) in
            (msg ∷ before, m, after, ap (λ t. msg ∷ t) f, close)
      ]

  close-watch :
      (transport : Text) (before : List CastMessage) (msg : CastMessage) (after : List CastMessage)
      → is_close json local_id transport msg ≡ true
      → (watch json local_id transport (before ++ (msg ∷ after))).0 ≡ closed_by_receiver
  unfolding watch
  close-watch transport [] msg after close = rw (close, watch) refl
  close-watch transport (m ∷ before) msg after close =
      elim (Bool-cases (is_close json local_id transport m)) [
        | inl first ↦ rw (first, watch) refl
        | inr other ↦ rw (other, watch) (close-watch transport before msg after close)
      ]

  -- The monitor reports that the receiver closed the session exactly if nothing had asked for the
  -- stop before, and among the messages is a CLOSE from the session's own transport, on the
  -- connection namespace.
  pub session_monitor-closed :
      (transport : Text) (msgs : List CastMessage) (stop : Bool)
      → ((session_monitor transport msgs stop).1 ≡ some closed_by_receiver)
        ↔ ((stop ≡ false) × HasClose transport msgs)
  unfolding session_monitor report
  session_monitor-closed transport msgs true = (λ e. cc, λ (e, h). cc)
  session_monitor-closed transport msgs false = (
    λ e. (refl, watch-HasClose transport msgs (some-injective _ _ e)),
    λ (e, (before, msg, after, f, close)). ap some (
        ap (λ t. (watch json local_id transport t).0) f
        ∙ close-watch transport before msg after (IsClose-is_close transport msg close)),
  )
