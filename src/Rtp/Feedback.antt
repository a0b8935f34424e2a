-- ===== src/Rtp/Feedback.antt =====
-- Cast feedback in src/cast_rtp.rs: `expand_le` and `parse_nacked_frames`.
pub mod Expand
pub mod Bounds
pub mod Compound
pub mod Parse
use mathlib.Core.Option
use chromecast_sink.Base.{
  ℕ, zero, suc, ◌+◌, ◌-◌, ◌*◌, ◌/◌, ◌%◌, ◌^◌, bit_and, u8, u32, sub8, sub32, from_be16, from_be32,
  Bool, true, false, not, ◌&&◌, ◌||◌, Option, none, some, List, [], ◌∷◌, length, get_or, take, drop,
  ltb, leb, ◌==◌, if◌then◌else◌,
}

abbrev pub rtcp_pt_payload_specific : ℕ
rtcp_pt_payload_specific = 206

abbrev pub rtcp_fmt_cast_feedback : ℕ
rtcp_fmt_cast_feedback = 15

abbrev pub cast_feedback_magic : ℕ
cast_feedback_magic = 0x4341_5354

abbrev pub all_packets_lost : ℕ
all_packets_lost = 0xffff

unfoldable pub expand_le : ℕ → ℕ → ℕ
expand_le max truncated = sub32 max (sub8 (u8 max) truncated)

-- `checkpoint` and `nacked`
pub record Scan : Type 0 where
  pub checkpoint : Option ℕ
  pub nacked : List ℕ

-- `for field in fields.chunks_exact(4)`
pub nacks_of : ℕ → List ℕ → List ℕ
nacks_of ck (f ∷ p ∷ q ∷ _ ∷ fields) =
    let frame_id = expand_le (u32 (ck + 256)) f in
    let packet_id = from_be16 p q in
    let rest = nacks_of ck fields in
    if packet_id == 0 || packet_id == all_packets_lost then frame_id ∷ rest else rest
nacks_of ck _ = []

-- `checkpoint.is_some_and(|prev| (ck.wrapping_sub(prev) as i32) < 0)`
abbrev pub older_than : ℕ → Option ℕ → Bool
older_than ck none = false
older_than ck (some prev) = leb (2 ^ 31) (sub32 ck prev)

-- The rest of a round on feedback for this sender, `none` for `return Vec::new()`.
pub take_feedback : ℕ → List ℕ → Scan → Option Scan
take_feedback last_sent payload s =
    let ck = expand_le last_sent (get_or payload 12 0) in
    let loss_fields = get_or payload 13 0 in
    if older_than ck s.checkpoint
    then some s
    else if ltb (length payload) (16 + loss_fields * 4)
    then none
    else some (record {
      checkpoint = some ck;
      nacked = nacks_of ck (take (loss_fields * 4) (drop 16 payload));
    })

abbrev pub word_at : List ℕ → ℕ → ℕ
word_at bytes i =
    from_be32 (get_or bytes i 0) (get_or bytes (suc i) 0) (get_or bytes (suc (suc i)) 0)
      (get_or bytes (suc (suc (suc i))) 0)

-- One block of the compound packet.
pub scan_block : ℕ → ℕ → ℕ → ℕ → List ℕ → Scan → Option Scan
scan_block ssrc last_sent fmt pt payload s =
    if not (pt == rtcp_pt_payload_specific) || not (fmt == rtcp_fmt_cast_feedback)
    then some s
    else if ltb (length payload) 16
    then none
    else if not (word_at payload 4 == ssrc)
    then some s
    else if not (word_at payload 8 == cast_feedback_magic)
    then none
    else take_feedback last_sent payload s

abbrev pub payload_len : List ℕ → ℕ
payload_len buf = from_be16 (get_or buf 2 0) (get_or buf 3 0) * 4

-- `buf.len() < 4 || buf[0] >> 5 != 0b100`, and the payload that `buf.get` does not find.
abbrev pub bad_block : List ℕ → Bool
bad_block buf =
    ltb (length buf) 4
    || (not (get_or buf 0 0 / 2 ^ 5 == 4) || ltb (length buf) (4 + payload_len buf))

-- One round of `while !buf.is_empty()`: the scan and the bytes behind the block.
pub scan_round : ℕ → ℕ → List ℕ → Scan → Option (Scan × List ℕ)
scan_round ssrc last_sent buf s =
    let fmt = bit_and (get_or buf 0 0) 0x1f in
    let payload = take (payload_len buf) (drop 4 buf) in
    let rest = drop (4 + payload_len buf) buf in
    if bad_block buf
    then none
    else Option.map (λ s'. (s', rest)) (scan_block ssrc last_sent fmt (get_or buf 1 0) payload s)

parse_loop : ℕ → ℕ → ℕ → List ℕ → Scan → List ℕ
parse_loop fuel ssrc last_sent [] s = s.nacked
parse_loop zero ssrc last_sent (b ∷ bs) s = []
parse_loop (suc fuel) ssrc last_sent (b ∷ bs) s = elim (scan_round ssrc last_sent (b ∷ bs) s) [
  | none ↦ []
  | some (s', rest) ↦ parse_loop fuel ssrc last_sent rest s'
]

-- A block takes four bytes at least, so there are no more rounds than bytes.
pub parse_nacked_frames : List ℕ → ℕ → ℕ → List ℕ
parse_nacked_frames buf ssrc last_sent =
    parse_loop (length buf) ssrc last_sent buf (record { checkpoint = none; nacked = [] })
