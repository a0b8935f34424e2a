-- ===== src/Rtp/Feedback/Compound.antt =====
-- `parse_nacked_frames` against compound RTCP packets as data.
use chromecast_sink.Base.{
  ℕ, zero, suc, ◌+◌, ◌*◌, ◌/◌, ◌%◌, ◌^◌, ◌<◌, ◌≡◌, ◌≢◌, refl, ap, u32, be16, be32, from_be32-be32,
  from_be16-be16, All, some, List, [], ◌∷◌, ◌++◌, length, take, ◌==◌, ◌||◌, ◌&&◌, not,
  if◌then◌else◌, arith,
}
use chromecast_sink.Rtp.Feedback.{
  cast_feedback_magic, all_packets_lost, expand_le, Scan, nacks_of, older_than, take_feedback,
  scan_block,
}

-- A NACK: the low bits of a frame id, a packet of that frame, and a bit mask of further packets.
pub record Loss : Type 0 where
  pub frame_low : ℕ
  pub packet_id : ℕ
  pub bits : ℕ

pub record Report : Type 0 where
  pub receiver_ssrc : ℕ
  pub sender_ssrc : ℕ
  pub checkpoint_low : ℕ
  pub delay : ℕ
  pub losses : List Loss

-- A block of another kind, or Cast feedback.
pub data Block : Type 0 where
  other : (fmt pt : ℕ) (payload : List ℕ) → Block
  feedback : Report → Block

pub loss_bytes : List Loss → List ℕ
loss_bytes [] = []
loss_bytes (l ∷ ls) =
    l.frame_low ∷ l.packet_id / 256 % 256 ∷ l.packet_id % 256 ∷ l.bits ∷ loss_bytes ls

unfoldable pub report_bytes : Report → List ℕ
report_bytes r =
    be32 r.receiver_ssrc
    ++ (be32 r.sender_ssrc
        ++ (be32 cast_feedback_magic
            ++ (r.checkpoint_low ∷ length r.losses ∷ (be16 r.delay ++ loss_bytes r.losses))))

-- Version 2, no padding, the format, the type, the length in words, the payload.
unfoldable pub packet_of : ℕ → ℕ → List ℕ → List ℕ
packet_of fmt pt payload = (128 + fmt) ∷ pt ∷ (be16 (length payload / 4) ++ payload)

unfoldable pub block_bytes : Block → List ℕ
unfolding packet_of report_bytes loss_bytes
block_bytes (other fmt pt payload) = packet_of fmt pt payload
block_bytes (feedback r) = packet_of 15 206 (report_bytes r)

unfoldable pub compound : List Block → List ℕ
compound [] = []
compound (b ∷ bs) = block_bytes b ++ compound bs

abbrev pub IsLoss : Loss → Type 0
IsLoss l = (l.frame_low < 256) × (l.packet_id < 2 ^ 16)

abbrev pub IsBlock : Block → Type 0
IsBlock (other fmt pt payload) =
    (fmt < 32) × (length payload % 4 ≡ 0) × (length payload < 2 ^ 18) × ((pt ≡ 206 → fmt ≢ 15))
IsBlock (feedback r) =
    (r.receiver_ssrc < 2 ^ 32)
    × (r.sender_ssrc < 2 ^ 32)
    × (r.checkpoint_low < 256)
    × (length r.losses < 256)
    × All IsLoss r.losses

-- The frames whose packet 0 a report names.
abbrev pub nacked_ids : ℕ → List Loss → List ℕ
nacked_ids ck [] = []
nacked_ids ck (l ∷ ls) =
    let rest = nacked_ids ck ls in
    if l.packet_id == 0 || l.packet_id == all_packets_lost
    then expand_le (u32 (ck + 256)) l.frame_low ∷ rest
    else rest

-- What a block does: feedback for this sender replaces what was known, unless its checkpoint is
-- behind that of an earlier report.
abbrev pub apply_block : ℕ → ℕ → Scan → Block → Scan
apply_block ssrc last_sent s (other fmt pt payload) = s
apply_block ssrc last_sent s (feedback r) =
    let ck = expand_le last_sent r.checkpoint_low in
    if r.sender_ssrc == ssrc && not (older_than ck s.checkpoint)
    then record { checkpoint = some ck; nacked = nacked_ids ck r.losses }
    else s

nacks_of-loss_bytes :
    (ck : ℕ) (ls : List Loss) → All IsLoss ls → nacks_of ck (loss_bytes ls) ≡ nacked_ids ck ls
unfolding nacks_of loss_bytes
nacks_of-loss_bytes ck [] h = refl
nacks_of-loss_bytes ck (l ∷ ls) (hl, hls) =
    ground (arith, from_be16-be16 l.packet_id hl.1, nacks_of-loss_bytes ck ls hls)

pub length-loss_bytes : (ls : List Loss) → length (loss_bytes ls) ≡ 4 * length ls
unfolding loss_bytes
length-loss_bytes [] = omega arith
length-loss_bytes (l ∷ ls) = omega (arith, length-loss_bytes ls)

take_all {ℓ} : {A : Type ℓ} (n : ℕ) (xs : List A) → n ≡ length xs → take n xs ≡ xs
take_all zero [] e = refl
take_all zero (x ∷ xs) e = absurd (omega arith)
take_all (suc n) [] e = refl
take_all (suc n) (x ∷ xs) e = ap (λ t. x ∷ t) (take_all n xs (omega arith))

pub scan_block-report :
    (ssrc last_sent : ℕ) (r : Report) (s : Scan)
    → IsBlock (feedback r)
    → scan_block ssrc last_sent 15 206 (report_bytes r) s
      ≡ some (apply_block ssrc last_sent s (feedback r))
unfolding scan_block take_feedback report_bytes
scan_block-report ssrc last_sent r s h = ground (
  arith,
  from_be32-be32 r.sender_ssrc h.1,
  length-loss_bytes r.losses,
  take_all (length r.losses * 4) (loss_bytes r.losses) (omega (arith, length-loss_bytes r.losses)),
  nacks_of-loss_bytes (expand_le last_sent r.checkpoint_low) r.losses h.4,
)
