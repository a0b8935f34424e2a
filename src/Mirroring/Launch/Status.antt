-- ===== src/Mirroring/Launch/Status.antt =====
-- What LAUNCH of src/mirroring.rs returns.
use mathlib.Core.Option.{some-injective}
use chromecast_sink.Base.{
  ℕ, ◌≡◌, ap, ◌∙◌, sym, Option, none, some, List, [], ◌∷◌, ◌++◌, codes, inl, inr, Bool-cases,
  Option-cases,
}
use chromecast_sink.Base.Result.{ok, >>=-eq-ok, ok-injective}
use chromecast_sink.Json.{Json, get_str, get_u64}
use chromecast_sink.Channel.Utf8.{Text}
use chromecast_sink.Mirroring.{MirroringSession}
use chromecast_sink.Mirroring.Launch.{find_app, session_of, first_app, applications, launch_reply}
use chromecast_sink.Mirroring.Replies.{
  is_some_text, is_some_number, text-same, number-same, ok_or-eq-ok,
}

module _ (json : Json) where
  find_app-member :
      (app : Text) (vs : List json.Value) (v : json.Value)
      → find_app json app vs ≡ some v
      → ((before after : List json.Value) × (vs ≡ before ++ (v ∷ after)))
        × (get_str json v (codes "appId") ≡ some app)
  unfolding find_app
  find_app-member app [] v e = cc
  find_app-member app (w ∷ vs) v e =
      elim (Bool-cases (is_some_text (get_str json w (codes "appId")) app)) [
        | inl same ↦
            let here : some w ≡ some v = rw (same, find_app) at e in
            let it : w ≡ v = cc in
            (
              ([], vs, ap (λ x. x ∷ vs) it),
              ap (λ x. get_str json x (codes "appId")) (sym it) ∙ text-same _ app same,
            )
        | inr other ↦
            let ((before, after, f), g) = find_app-member app vs v (rw (other, find_app) at e) in
            ((w ∷ before, after, ap (λ t. w ∷ t) f), g)
      ]

  -- An application of a status: the one that was launched, with both of its identifiers.
  abbrev pub IsApplication : Text → json.Value → MirroringSession → Type 0
  IsApplication app v session =
      (get_str json v (codes "appId") ≡ some app)
      × (get_str json v (codes "transportId") ≡ some session.transport_id)
      × (get_str json v (codes "sessionId") ≡ some session.session_id)

  -- A status in answer to this request that lists the session's application.
  abbrev pub IsStatus : Text → ℕ → json.Value → MirroringSession → Type 0
  IsStatus app request_id v session =
      (get_u64 json v (codes "requestId") ≡ some request_id)
      × (get_str json v (codes "type") ≡ some (codes "RECEIVER_STATUS"))
      × ((before : List json.Value) × (a : json.Value) × (after : List json.Value) × (applications
              json v
            ≡ some (before ++ (a ∷ after)))
          × IsApplication app a session)

  session_of_lem :
      (a : json.Value) (session : MirroringSession)
      → session_of json a ≡ ok session
      → (get_str json a (codes "transportId") ≡ some session.transport_id)
        × (get_str json a (codes "sessionId") ≡ some session.session_id)
  unfolding session_of
  session_of_lem a session e =
      let (t, t_ok, e') = >>=-eq-ok _ _ session e in
      let (s, s_ok, e'') = >>=-eq-ok _ _ session e' in
      (
        ok_or-eq-ok _ _ _ t_ok
            ∙ ap (λ (x : MirroringSession). some x.transport_id) (ok-injective e''),
        ok_or-eq-ok _ _ _ s_ok
            ∙ ap (λ (x : MirroringSession). some x.session_id) (ok-injective e''),
      )

  first_app_lem :
      (app : Text) (apps : Option (List json.Value)) (session : MirroringSession)
      → first_app json app apps ≡ some (ok session)
      → (before : List json.Value) × (a : json.Value) × (after : List json.Value) × (apps
          ≡ some (before ++ (a ∷ after)))
        × IsApplication app a session
  first_app_lem app none session e = cc
  first_app_lem app (some apps) session e = elim (Option-cases (find_app json app apps)) [
    | inl f ↦ let g : none ≡ some (ok session) = rw f at e in cc
    | inr (a, f) ↦
        let g : some (session_of json a) ≡ some (ok session) = rw f at e in
        let ((before, after, h), named) = find_app-member app apps a f in
        let (transport, id) = session_of_lem a session (some-injective _ _ g) in
        (before, a, after, ap (λ t. some t) h, (named, transport, id))
  ]

  pub launch_reply-IsStatus :
      (app : Text) (request_id : ℕ) (v : json.Value) (session : MirroringSession)
      → launch_reply json app request_id v ≡ some (ok session)
      → IsStatus app request_id v session
  unfolding launch_reply
  launch_reply-IsStatus app request_id v session e =
      elim (Bool-cases (is_some_number (get_u64 json v (codes "requestId")) request_id)) [
        | inr other ↦ let f : none ≡ some (ok session) = rw (other, launch_reply) at e in cc
        | inl mine ↦
            elim (Bool-cases
              (is_some_text (get_str json v (codes "type")) (codes "RECEIVER_STATUS"))) [
                | inr other ↦
                    elim (Bool-cases
                      (is_some_text (get_str json v (codes "type")) (codes "LAUNCH_ERROR"))) [
                        | inl bad ↦ let f = rw (mine, other, bad, launch_reply) at e in cc
                        | inr none_of ↦ let f = rw (mine, other, none_of, launch_reply) at e in cc
                      ]
                | inl status ↦ (
                  number-same _ request_id mine,
                  text-same _ _ status,
                  first_app_lem app (applications json v) session
                      (rw (mine, status, launch_reply) at e),
                )
              ]
      ]
