-- ===== src/Mirroring/Deadline.antt =====
-- How long the wait of src/mirroring.rs lasts.
use chromecast_sink.Base.{
  ℕ, suc, ◌+◌, ◌-◌, ◌/◌, ◌≤◌, ◌<◌, ◌≡◌, ap, ◌∙◌, min, Option, some, List, [], ◌∷◌, length, arith,
  inl, inr,
}
use chromecast_sink.Base.Result.{Result}
use chromecast_sink.Json.{Json}
use chromecast_sink.Channel.Utf8.{Text}
use chromecast_sink.Mirroring.{Trouble, Received, message, timeout, Poll, wait_for_json_message}
use chromecast_sink.Mirroring.Wait.{poll-cases}

-- `Duration::from_millis(500)`
abbrev pub slice_time : ℕ
slice_time = 500_000_000

-- The earliest time of the next round: `recv_timeout` times out after what it is given.
abbrev pub earliest : ℕ → ℕ → Received → ℕ
earliest deadline now timeout = now + min (deadline - now) slice_time
earliest deadline now other = now

-- Rounds from time `t` on, by a clock that does not go back.
abbrev pub IsClocked : ℕ → ℕ → List Poll → Type 0
IsClocked deadline t [] = Unit
IsClocked deadline t (p ∷ ps) =
    (t ≤ p.now) × IsClocked deadline (earliest deadline p.now p.received) ps

abbrev pub one_if_message : Received → ℕ
one_if_message (message msg) = 1
one_if_message other = 0

abbrev pub messages : List Poll → ℕ
messages [] = 0
messages (p ∷ ps) = one_if_message p.received + messages ps

-- The slices of 500 ms that the time left is made of.
abbrev pub slices : ℕ → ℕ
slices time = (time + 499_999_999) / slice_time

module _ (json : Json) {T : Type 0} (namespace : Text) (deadline : ℕ)
    (predicate : json.Value → Option (Result Trouble T)) where
  -- The wait does not spin: by a clock that does not go back, and a receiver that times out no
  -- sooner than it is told, it has a result once there are more rounds than messages received and
  -- slices of 500 ms up to the deadline.
  pub wait_for_json_message-returns :
      (t : ℕ) (ps : List Poll)
      → IsClocked deadline t ps
      → messages ps + slices (deadline - t) < length ps
      → (r : Result Trouble T) × ((wait_for_json_message json namespace deadline predicate ps).0
          ≡ some r)
  wait_for_json_message-returns t [] c h = absurd (omega arith)
  wait_for_json_message-returns t (p ∷ ps) (le, c) h =
      elim (poll-cases json namespace deadline predicate p ps) [
        | inl (r, ends, e) ↦ (r, e)
        | inr ((early, inl e), f) ↦
            let c' : IsClocked deadline (p.now + min (deadline - p.now) slice_time) ps =
              rw e at c in
            let h' : 0 + messages ps + slices (deadline - t) < suc (length ps) = rw e at h in
            let (r, g) =
              wait_for_json_message-returns (p.now + min (deadline - p.now) slice_time) ps c'
                (omega arith) in
            (r, ap (λ w. w.0) f ∙ g)
        | inr ((early, inr (msg, e, quiet)), f) ↦
            let c' : IsClocked deadline p.now ps = rw e at c in
            let h' : 1 + messages ps + slices (deadline - t) < suc (length ps) = rw e at h in
            let (r, g) = wait_for_json_message-returns p.now ps c' (omega arith) in
            (r, ap (λ w. w.0) f ∙ g)
      ]
