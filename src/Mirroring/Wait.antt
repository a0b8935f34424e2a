-- ===== src/Mirroring/Wait.antt =====
-- The wait of src/mirroring.rs for a reply: what it answers to, and when it gives up.
use mathlib.Core.Path.{subst}
use chromecast_sink.Base.{
  ℕ, ◌≤◌, ◌<◌, ◌≡◌, refl, ap, ◌∙◌, sym, false, Option, none, some, List, [], ◌∷◌, ◌++◌, All, leb,
  arith, Bool-cases, Option-cases, inl, inr, ◌⊎◌,
}
use chromecast_sink.Base.Result.{Result, err}
use chromecast_sink.Json.{Json}
use chromecast_sink.Channel.Utf8.{Text}
use chromecast_sink.Channel.Message.{CastMessage}
use chromecast_sink.Mirroring.{
  Trouble, connection_lost, timed_out, Received, message, timeout, disconnected, Poll, on_message,
  wait_for_json_message,
}

module _ (json : Json) {T : Type 0} (namespace : Text) (deadline : ℕ)
    (predicate : json.Value → Option (Result Trouble T)) where
  -- A round that the wait goes past.
  abbrev pub IsPassed : Poll → Type 0
  IsPassed p =
      (p.now < deadline)
      × ((p.received ≡ timeout)
          ⊎ (msg : CastMessage) × (p.received ≡ message msg)
            × (on_message json namespace predicate msg ≡ none))

  -- A round that ends it with this result.
  abbrev pub IsEnd : Poll → Result Trouble T → Type 0
  IsEnd p r =
      ((deadline ≤ p.now) × (r ≡ err timed_out))
      ⊎ ((p.now < deadline)
          × ((p.received ≡ disconnected) × (r ≡ err connection_lost)
              ⊎ (msg : CastMessage) × (p.received ≡ message msg)
                × (on_message json namespace predicate msg ≡ some r)))

  abbrev pub IsFirstEnd : List Poll → Result Trouble T → Type 0
  IsFirstEnd ps r =
      (before : List Poll) × (p : Poll) × (after : List Poll) × (ps ≡ before ++ (p ∷ after))
      × All IsPassed before
      × IsEnd p r

  abbrev pub wait : List Poll → Option (Result Trouble T) × List Poll
  wait = wait_for_json_message json namespace deadline predicate

  IsFirstEnd-push :
      (p : Poll) (ps : List Poll) (r : Result Trouble T)
      → IsPassed p
      → IsFirstEnd ps r
      → IsFirstEnd (p ∷ ps) r
  IsFirstEnd-push p ps r h (before, q, after, e, passed, ends) =
      (p ∷ before, q, after, ap (λ t. p ∷ t) e, (h, passed), ends)

  -- Each round ends the wait or is passed.
  pub poll-cases :
      (p : Poll) (ps : List Poll)
      → ((r : Result Trouble T) × IsEnd p r × ((wait (p ∷ ps)).0 ≡ some r))
        ⊎ (IsPassed p × (wait (p ∷ ps) ≡ wait ps))
  unfolding wait_for_json_message
  poll-cases p ps = elim (Bool-cases (leb deadline p.now)) [
    | inl late ↦
        inl (err timed_out, inl (ground arith, refl), rw (late, wait_for_json_message) refl)
    | inr early ↦ by_received p.received refl early
  ]
    where
      by_received :
          (m : Received)
          → p.received ≡ m
          → leb deadline p.now ≡ false
          → ((r : Result Trouble T) × IsEnd p r × ((wait (p ∷ ps)).0 ≡ some r))
            ⊎ (IsPassed p × (wait (p ∷ ps) ≡ wait ps))
      by_received timeout e early =
          inr ((ground arith, inl e), rw (early, e, wait_for_json_message) refl)
      by_received disconnected e early = inl (
        err connection_lost,
        inr (ground arith, inl (e, refl)),
        rw (early, e, wait_for_json_message) refl,
      )
      by_received (message msg) e early =
          elim (Option-cases (on_message json namespace predicate msg)) [
            | inl f ↦
                inr ((ground arith, inr (msg, e, f)), rw (early, e, f, wait_for_json_message) refl)
            | inr (r, f) ↦ inl (
              r,
              inr (ground arith, inr (msg, e, f)),
              rw (early, e, f, wait_for_json_message) refl,
            )
          ]

  -- The result is that of the first round that is past the deadline, finds the dispatcher gone, or
  -- brings a message that the predicate decides on.
  pub wait_for_json_message-IsFirstEnd :
      (ps : List Poll) (r : Result Trouble T) → (wait ps).0 ≡ some r → IsFirstEnd ps r
  unfolding wait_for_json_message
  wait_for_json_message-IsFirstEnd [] r e = cc
  wait_for_json_message-IsFirstEnd (p ∷ ps) r e = elim (poll-cases p ps) [
    | inl (q, ends, f) ↦ let same : q ≡ r = cc in ([], p, ps, refl, tt, subst (IsEnd p) same ends)
    | inr (passed, f) ↦
        IsFirstEnd-push p ps r passed
          (wait_for_json_message-IsFirstEnd ps r (ap (λ w. w.0) (sym f) ∙ e))
  ]
