-- ===== src/Rtp/Sender/Due.antt =====
-- `serve_nacks` of src/cast_rtp.rs resends what is due.
use mathlib.Core.List.{foldl}
use chromecast_sink.Base.{
  ℕ, zero, suc, ◌+◌, ◌≤◌, ◌≡◌, refl, Bool, true, false, ◌||◌, ◌&&◌, some, List, [], ◌∷◌, length,
  ◌==◌, next_answer, later_answers, arith, Bool-cases, inl, inr, eq→==, ==→eq,
}
use chromecast_sink.Rtp.Feedback.{parse_nacked_frames}
use chromecast_sink.Rtp.History.{History, SentPacket, get_mut}
use chromecast_sink.Rtp.History.Window.{IsHistory}
use chromecast_sink.Rtp.Sender.{Resending, min_resend_interval, resend_frame, serve_datagram}
use chromecast_sink.Rtp.Sender.Resend.{resent_id, IsBatch, before_batch, resend_frame-IsBatch}

-- The coming `n` sends succeed.
abbrev pub grants : ℕ → List Bool → Bool
grants zero answers = true
grants (suc n) [] = false
grants (suc n) (a ∷ answers) = a && grants n answers

abbrev pub names : ℕ → List ℕ → Bool
names f [] = false
names f (g ∷ ids) = g == f || names f ids

grants-less :
    (n : ℕ) (answers : List Bool) → grants (suc n) answers ≡ true → grants n answers ≡ true
grants-less zero answers h = refl
grants-less (suc n) [] h = h
grants-less (suc n) (true ∷ answers) h = grants-less n answers h
grants-less (suc n) (false ∷ answers) h = h

grants-next :
    (n : ℕ) (answers : List Bool)
    → grants (suc n) answers ≡ true
    → (next_answer answers ≡ true) × (grants n (later_answers answers) ≡ true)
grants-next n [] h = cc
grants-next n (true ∷ answers) h = (refl, h)
grants-next n (false ∷ answers) h = cc

resend_frame-grants :
    (n now : ℕ) (r : Resending) (g : ℕ)
    → grants (suc n) r.answers ≡ true
    → grants n (resend_frame now r g).answers ≡ true
unfolding resend_frame
resend_frame-grants n now r g h =
    ground (arith, grants-next n r.answers h, grants-less n r.answers h)

still_resent :
    (now : ℕ) (r : Resending) (g f : ℕ)
    → resent_id f r.resent ≡ true
    → resent_id f (resend_frame now r g).resent ≡ true
unfolding resend_frame
still_resent now r g f h = ground arith

all_still_resent :
    (now : ℕ) (r : Resending) (ids : List ℕ) (f : ℕ)
    → resent_id f r.resent ≡ true
    → resent_id f (foldl (resend_frame now) r ids).resent ≡ true
all_still_resent now r [] f h = h
all_still_resent now r (g ∷ ids) f h =
    all_still_resent now (resend_frame now r g) ids f (still_resent now r g f h)

module _ (h : History) (now f : ℕ) (sent : SentPacket) (held : get_mut h f ≡ some sent)
    (long_ago : sent.sent_at + min_resend_interval ≤ now) where
  resent_now :
      (n : ℕ) (r : Resending)
      → IsBatch h now r
      → grants (suc n) r.answers ≡ true
      → resent_id f (resend_frame now r f).resent ≡ true
  unfolding resend_frame
  resent_now n r b g = elim (Bool-cases (resent_id f r.resent)) [
    | inl already ↦ still_resent now r f f already
    | inr not_yet ↦ ground (arith, b.kept f, grants-next n r.answers g, eq→== f f refl)
  ]

  all_resent :
      (ids : List ℕ) (r : Resending)
      → IsBatch h now r
      → grants (length ids) r.answers ≡ true
      → names f ids ≡ true
      → resent_id f (foldl (resend_frame now) r ids).resent ≡ true
  all_resent [] r b g named = cc
  all_resent (x ∷ ids) r b g named = elim (Bool-cases (x == f)) [
    | inl here ↦
        let same : x ≡ f = ==→eq x f here in
        all_still_resent now (resend_frame now r x) ids f (rw same (resent_now (length ids) r b g))
    | inr later ↦
        all_resent ids (resend_frame now r x) (resend_frame-IsBatch h now r x b)
          (resend_frame-grants (length ids) now r x g) (ground arith)
  ]

-- A frame that the receiver's feedback names, that the history holds, and whose packet was last sent
-- at least 20 ms ago is resent, if the socket takes as many packets as frames are named.
pub serve_datagram_due :
    (h : History) (answers : List Bool) (peer_ip ssrc now last_sent f : ℕ) (bytes : List ℕ)
    (sent : SentPacket)
    → IsHistory h
    → h.last_sent ≡ some last_sent
    → names f (parse_nacked_frames bytes ssrc last_sent) ≡ true
    → get_mut h f ≡ some sent
    → sent.sent_at + min_resend_interval ≤ now
    → grants (length (parse_nacked_frames bytes ssrc last_sent)) answers ≡ true
    → resent_id f (serve_datagram peer_ip ssrc now peer_ip bytes (before_batch h answers)).resent
      ≡ true
unfolding serve_datagram
serve_datagram_due h answers peer_ip ssrc now last_sent f bytes sent v e named held long_ago g =
    let none_yet : IsBatch h now (before_batch h answers) = record {
      sized = v;
      kept = λ x. refl;
      due = tt;
      distinct = tt;
    } in
    let same : (peer_ip == peer_ip) ≡ true = eq→== peer_ip peer_ip refl in
    rw (same, e, serve_datagram)
      (all_resent h now f sent held long_ago (parse_nacked_frames bytes ssrc last_sent) _ none_yet g
        named)
