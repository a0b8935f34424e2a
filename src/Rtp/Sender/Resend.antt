-- ===== src/Rtp/Sender/Resend.antt =====
-- What `serve_nacks` resends: known packets only, byte for byte, none too soon and none twice.
use mathlib.Core.Option
use mathlib.Core.List.{foldl}
use chromecast_sink.Base.{
  next_answer, ℕ, ◌+◌, ◌-◌, ◌≤◌, ◌≡◌, ◌≢◌, refl, Bool, false, ◌||◌, some, List, [], ◌∷◌, All, ltb,
  ◌==◌, if◌then◌else◌, arith, Bool-cases, Option-cases, inl, inr,
}
use chromecast_sink.Rtp.Feedback.{parse_nacked_frames}
use chromecast_sink.Rtp.History.{History, SentPacket, get_mut}
use chromecast_sink.Rtp.History.Window.{IsHistory, get_mut-set_sent_at, set_sent_at-IsHistory}
use chromecast_sink.Rtp.Sender.{
  Resending, min_resend_interval, try_send, resend_frame, serve_datagram,
}

abbrev pub resent_id : ℕ → List (ℕ × List ℕ) → Bool
resent_id g [] = false
resent_id g ((f, pkt) ∷ rest) = f == g || resent_id g rest

-- No frame twice.
abbrev pub IsDistinct : List (ℕ × List ℕ) → Type 0
IsDistinct [] = Unit
IsDistinct ((f, pkt) ∷ rest) = (resent_id f rest ≡ false) × IsDistinct rest

-- The packet that the history holds for the frame, and last sent at least 20 ms ago.
abbrev pub WasDue : History → ℕ → ℕ × List ℕ → Type 0
WasDue h now (f, pkt) =
    (sent : SentPacket) × (get_mut h f ≡ some sent)
    × (sent.packet ≡ pkt)
    × (sent.sent_at + min_resend_interval ≤ now)

-- The packet, sent now.
abbrev pub touch : ℕ → SentPacket → SentPacket
touch now sent = record sent { sent_at = now }

-- The history `h` before the batch, and the state within it.
pub record IsBatch (h : History) (now : ℕ) (r : Resending) : Type 0 where
  pub sized : IsHistory r.history
  pub kept :
      (g : ℕ)
      → get_mut r.history g
        ≡ (if resent_id g r.resent then Option.map (touch now) (get_mut h g) else get_mut h g)
  pub due : All (WasDue h now) r.resent
  pub distinct : IsDistinct r.resent

-- A frame that was resent in this batch is not due again.
not_again :
    (h : History) (now : ℕ) (r : Resending) (f : ℕ) (sent : SentPacket)
    → IsBatch h now r
    → get_mut r.history f ≡ some sent
    → ltb (now - sent.sent_at) min_resend_interval ≡ false
    → (resent_id f r.resent ≡ false)
      × (get_mut h f ≡ some sent)
      × (sent.sent_at + min_resend_interval ≤ now)
not_again h now r f sent b e late = ground (arith, b.kept f)

try_send-IsBatch :
    (h : History) (now : ℕ) (r : Resending) (f : ℕ) (sent : SentPacket)
    → IsBatch h now r
    → get_mut r.history f ≡ some sent
    → ltb (now - sent.sent_at) min_resend_interval ≡ false
    → IsBatch h now (try_send now r f sent)
try_send-IsBatch h now r f sent b e late = elim (Bool-cases (next_answer r.answers)) [
  | inl sends ↦ rw sends (record {
    sized = set_sent_at-IsHistory r.history sent now b.sized;
    kept = λ g. ground (
      arith,
      get_mut-set_sent_at r.history f g sent now b.sized e,
      b.kept g,
      not_again h now r f sent b e late,
    );
    due =
        let (fresh, old, long) = not_again h now r f sent b e late in
        ((sent, old, refl, long), b.due);
    distinct = ((not_again h now r f sent b e late).0, b.distinct);
  })
  | inr fails ↦
      rw fails (record { sized = b.sized; kept = b.kept; due = b.due; distinct = b.distinct })
]

pub resend_frame-IsBatch :
    (h : History) (now : ℕ) (r : Resending) (f : ℕ)
    → IsBatch h now r
    → IsBatch h now (resend_frame now r f)
unfolding resend_frame
resend_frame-IsBatch h now r f b = elim (Option-cases (get_mut r.history f)) [
  | inl e ↦ rw (e, resend_frame) b
  | inr (sent, e) ↦ elim (Bool-cases (ltb (now - sent.sent_at) min_resend_interval)) [
    | inl soon ↦ rw (e, resend_frame, soon) b
    | inr late ↦ rw (e, resend_frame, late) (try_send-IsBatch h now r f sent b e late)
  ]
]

resend_all-IsBatch :
    (h : History) (now : ℕ) (ids : List ℕ) (r : Resending)
    → IsBatch h now r
    → IsBatch h now (foldl (resend_frame now) r ids)
resend_all-IsBatch h now [] r b = b
resend_all-IsBatch h now (f ∷ ids) r b =
    resend_all-IsBatch h now ids (resend_frame now r f) (resend_frame-IsBatch h now r f b)

abbrev pub before_batch : History → List Bool → Resending
before_batch h answers = record { history = h; answers = answers; resent = [] }

serve_datagram-IsBatch :
    (h : History) (peer_ip ssrc now src_ip : ℕ) (bytes : List ℕ) (r : Resending)
    → IsBatch h now r
    → IsBatch h now (serve_datagram peer_ip ssrc now src_ip bytes r)
unfolding serve_datagram
serve_datagram-IsBatch h peer_ip ssrc now src_ip bytes r b = elim (Bool-cases (src_ip == peer_ip)) [
  | inr stranger ↦ rw (stranger, serve_datagram) b
  | inl peer ↦ elim (Option-cases r.history.last_sent) [
    | inl e ↦ rw (peer, e, serve_datagram) b
    | inr (last_sent, e) ↦
        rw (peer, e, serve_datagram)
          (resend_all-IsBatch h now (parse_nacked_frames bytes ssrc last_sent) r b)
  ]
]

-- Whatever datagram arrives and however the socket answers: what is resent are packets of the
-- history, byte for byte, each last sent at least 20 ms ago and none twice; and afterwards the
-- history finds the same packets, with the time of those resent set to now.
pub serve_datagram_resends :
    (h : History) (answers : List Bool) (peer_ip ssrc now src_ip : ℕ) (bytes : List ℕ)
    → IsHistory h
    → let r = serve_datagram peer_ip ssrc now src_ip bytes (before_batch h answers) in
      All (WasDue h now) r.resent
      × IsDistinct r.resent
      × ((g : ℕ)
          → get_mut r.history g
            ≡ (if resent_id g r.resent then Option.map (touch now) (get_mut h g) else get_mut h g))
serve_datagram_resends h answers peer_ip ssrc now src_ip bytes v =
    let none_yet : IsBatch h now (before_batch h answers) = record {
      sized = v;
      kept = λ g. refl;
      due = tt;
      distinct = tt;
    } in
    let b = serve_datagram-IsBatch h peer_ip ssrc now src_ip bytes _ none_yet in
    (b.due, b.distinct, b.kept)

-- A datagram from any other address does nothing.
pub serve_datagram_stranger :
    (peer_ip ssrc now src_ip : ℕ) (bytes : List ℕ) (r : Resending)
    → src_ip ≢ peer_ip
    → serve_datagram peer_ip ssrc now src_ip bytes r ≡ r
unfolding serve_datagram
serve_datagram_stranger peer_ip ssrc now src_ip bytes r h = ground arith
