-- ===== src/Mirroring/Offer/Answer.antt =====
-- Which ANSWER of src/mirroring.rs is accepted.
use mathlib.Core.Option.{some-injective}
use chromecast_sink.Base.{
  ℕ, ◌+◌, ◌≤◌, ◌≡◌, refl, ap, ◌∙◌, sym, none, some, List, codes, inl, inr, Bool-cases, arith,
  next_answer, ◌==◌, ltb, ◌||◌, ◌↔◌,
}
use chromecast_sink.Base.Result.{ok, >>=-eq-ok, ok-injective}
use chromecast_sink.Json.{Json, get_str, get_u64}
use chromecast_sink.Channel.Utf8.{Text}
use chromecast_sink.Channel.Handle.{ns_webrtc, send_json, send}
use chromecast_sink.Mirroring.{StreamOffer, StreamAnswer, Control, new_request_id}
use chromecast_sink.Mirroring.Replies.{is_some_text, text-same, ok_or-eq-ok}
use chromecast_sink.Mirroring.Launch.Session.{IsReceived, wait_for_json_message-ok}
use chromecast_sink.Mirroring.Offer.{
  answer_of, parse_answer, port_of, send_indexes_of, offer_reply, send_offer,
}

module _ (json : Json) where
  -- An answer with a usable port
  abbrev pub IsAnswer : json.Value → StreamAnswer → Type 0
  IsAnswer v a =
      (get_str json v (codes "result") ≡ some (codes "ok"))
      × ((answer : json.Value) × (json.get v (codes "answer") ≡ some answer)
          × (get_u64 json answer (codes "udpPort") ≡ some a.udp_port)
          × (1 ≤ a.udp_port)
          × (a.udp_port ≤ 65535)
          × (a.send_indexes ≡ send_indexes_of json answer))

  port_of_lem : (n p : ℕ) → port_of json n ≡ ok p → (n ≡ p) × (1 ≤ p) × (p ≤ 65535)
  unfolding port_of
  port_of_lem n p e = elim (Bool-cases (n == 0 || ltb 65535 n)) [
    | inl bad ↦ let f = rw (bad, port_of) at e in cc
    | inr good ↦
        let f = ok-injective (rw (good, port_of) at e) in
        (f, ground (arith, good, f), ground (arith, good, f))
  ]

  port_of_usable : (p : ℕ) → 1 ≤ p → p ≤ 65535 → port_of json p ≡ ok p
  unfolding port_of
  port_of_usable p low high = ground arith

  -- A reply is accepted exactly if it says ok and holds an answer whose UDP port is from 1 to 65535;
  -- the result is that port and the answer's send indexes.
  pub parse_answer-eq-ok :
      (v : json.Value) (a : StreamAnswer) → (parse_answer json v ≡ ok a) ↔ IsAnswer v a
  unfolding parse_answer answer_of
  parse_answer-eq-ok v a = (read, accept)
    where
      read : parse_answer json v ≡ ok a → IsAnswer v a
      read e = elim (Bool-cases (is_some_text (get_str json v (codes "result")) (codes "ok"))) [
        | inr other ↦ let f = rw (other, parse_answer) at e in cc
        | inl says_ok ↦
            let f : answer_of json v ≡ ok a = rw (says_ok, parse_answer) at e in
            let (answer, has, e') = >>=-eq-ok _ _ a f in
            let (raw, port, e'') = >>=-eq-ok _ _ a e' in
            let (udp_port, usable, e''') = >>=-eq-ok _ _ a e'' in
            let same = ok-injective e''' in
            let (is_port, low, high) = port_of_lem raw udp_port usable in
            let named : udp_port ≡ a.udp_port = ap (λ (x : StreamAnswer). x.udp_port) same in
            (
              text-same _ (codes "ok") says_ok,
              (
                answer,
                ok_or-eq-ok _ _ _ has,
                ok_or-eq-ok _ _ _ port ∙ ap (λ (n : ℕ). some n) (is_port ∙ named),
                omega (arith, low, named),
                omega (arith, high, named),
                ap (λ (x : StreamAnswer). x.send_indexes) (sym same),
              ),
            )
      ]

      accept : IsAnswer v a → parse_answer json v ≡ ok a
      accept (says_ok, (answer, has, port, low, high, indexes)) =
          rw
            (
              says_ok,
              has,
              port,
              port_of_usable a.udp_port low high,
              sym indexes,
              parse_answer,
              answer_of,
            )
            refl

-- An offer succeeds only with an answer of the session's transport's namespace, received before the
-- deadline, that says ok; the port it names is from 1 to 65535 and becomes the stream's.
pub send_offer-IsAnswer :
    (json : Json) (local_id : Text) (hex_encode : List ℕ → Text) (transport_id : Text)
    (offer : StreamOffer) (now timeout : ℕ) (s : Control) (a : StreamAnswer)
    → (send_offer json local_id hex_encode transport_id offer now timeout s).0 ≡ some (ok a)
    → (v : json.Value) × IsReceived json ns_webrtc (now + timeout) s.incoming v
      × (get_str json v (codes "type") ≡ some (codes "ANSWER"))
      × IsAnswer json v a
unfolding send_offer new_request_id send_json send offer_reply
send_offer-IsAnswer json local_id hex_encode transport_id offer now timeout s a e =
    elim (Bool-cases (next_answer s.channel.answers)) [
      | inl sent ↦
          let (v, received, says) =
            wait_for_json_message-ok json ns_webrtc (now + timeout) (offer_reply json) s.incoming a
              (rw (sent, send_offer, new_request_id, send_json, send) at e) in
          let (typed, parsed) = offer_reply_lem v says in
          (v, received, typed, (parse_answer-eq-ok json v a).0 parsed)
      | inr gone ↦ let f = rw (gone, send_offer, new_request_id, send_json, send) at e in cc
    ]
  where
    offer_reply_lem :
        (v : json.Value)
        → offer_reply json v ≡ some (ok a)
        → (get_str json v (codes "type") ≡ some (codes "ANSWER")) × (parse_answer json v ≡ ok a)
    offer_reply_lem v h =
        elim (Bool-cases (is_some_text (get_str json v (codes "type")) (codes "ANSWER"))) [
          | inl is_answer ↦ (
            text-same _ (codes "ANSWER") is_answer,
            some-injective _ _ (rw (is_answer, offer_reply) at h),
          )
          | inr other ↦ let f : none ≡ some (ok a) = rw (other, offer_reply) at h in cc
        ]
