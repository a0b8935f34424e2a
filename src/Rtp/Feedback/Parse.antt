-- ===== src/Rtp/Feedback/Parse.antt =====
-- `parse_nacked_frames` on compound packets, well formed or cut short.
use mathlib.Core.List.{foldl}
use mathlib.Core.Option
use chromecast_sink.Base.{
  ℕ, zero, suc, ◌+◌, ◌*◌, ◌%◌, ◌^◌, ◌≤◌, ◌<◌, ◌≡◌, ◌≢◌, refl, ap, ◌∙◌, sym, All, none, some, List,
  [], ◌∷◌, ◌++◌, append_assoc, append-nil, length, length-append, length-drop, drop, take-append,
  drop-append, true, arith,
}
use chromecast_sink.Base.Bits.{bit_and-mask}
use chromecast_sink.Rtp.Feedback.{
  Scan, scan_block, scan_round, payload_len, bad_block, parse_loop, parse_nacked_frames,
}
use chromecast_sink.Rtp.Feedback.Bounds.{scan_round_left}
use chromecast_sink.Rtp.Feedback.Compound.{
  Report, Block, other, feedback, packet_of, report_bytes, block_bytes, compound, IsBlock,
  apply_block, scan_block-report, length-loss_bytes,
}

payload_len-packet_of :
    (fmt pt : ℕ) (payload rest : List ℕ)
    → length payload % 4 ≡ 0
    → length payload < 2 ^ 18
    → payload_len (packet_of fmt pt payload ++ rest) ≡ length payload
unfolding packet_of
payload_len-packet_of fmt pt payload rest whole small = omega arith

drop-packet_of :
    (n fmt pt : ℕ) (payload rest : List ℕ)
    → n ≡ length payload
    → drop (4 + n) (packet_of fmt pt payload ++ rest) ≡ rest
unfolding packet_of
drop-packet_of n fmt pt payload rest e =
    let four : 4 + n ≡ suc (suc (suc (suc (length payload)))) = omega arith in
    rw four (drop-append payload rest)

-- One round on a block, whatever follows it.
scan_round-packet_of :
    (ssrc last_sent fmt pt : ℕ) (payload rest : List ℕ) (s : Scan)
    → fmt < 32
    → length payload % 4 ≡ 0
    → length payload < 2 ^ 18
    → scan_round ssrc last_sent (packet_of fmt pt payload ++ rest) s
      ≡ Option.map (λ s'. (s', rest)) (scan_block ssrc last_sent fmt pt payload s)
scan_round-packet_of ssrc last_sent fmt pt payload rest s hf whole small =
    unfold scan_round packet_of in
    ground (
      arith,
      payload_len-packet_of fmt pt payload rest whole small,
      drop-packet_of _ fmt pt payload rest (payload_len-packet_of fmt pt payload rest whole small),
      take-append payload rest,
      length-append payload rest,
      bit_and-mask 5 (128 + fmt) 0x1f refl,
    )

scan_block-other :
    (ssrc last_sent fmt pt : ℕ) (payload : List ℕ) (s : Scan)
    → (pt ≡ 206 → fmt ≢ 15)
    → scan_block ssrc last_sent fmt pt payload s ≡ some s
unfolding scan_block
scan_block-other ssrc last_sent fmt pt payload s h = ground arith

length-report_bytes : (r : Report) → length (report_bytes r) ≡ 16 + 4 * length r.losses
unfolding report_bytes
length-report_bytes r = omega (arith, length-loss_bytes r.losses)

-- One round takes a block off, and does with it what `apply_block` says.
scan_round-block_bytes :
    (ssrc last_sent : ℕ) (b : Block) (rest : List ℕ) (s : Scan)
    → IsBlock b
    → scan_round ssrc last_sent (block_bytes b ++ rest) s
      ≡ some (apply_block ssrc last_sent s b, rest)
unfolding block_bytes
scan_round-block_bytes ssrc last_sent (other fmt pt payload) rest s h =
    scan_round-packet_of ssrc last_sent fmt pt payload rest s h.0 h.1 h.2
    ∙ ap (Option.map (λ s'. (s', rest))) (scan_block-other ssrc last_sent fmt pt payload s h.3)
scan_round-block_bytes ssrc last_sent (feedback r) rest s h =
    let size = length-report_bytes r in
    scan_round-packet_of ssrc last_sent 15 206 (report_bytes r) rest s (omega arith) (omega arith)
      (omega arith)
    ∙ ap (Option.map (λ s'. (s', rest))) (scan_block-report ssrc last_sent r s h)

parse_loop-step :
    (fuel ssrc last_sent : ℕ) (buf : List ℕ) (s s' : Scan) (rest : List ℕ)
    → scan_round ssrc last_sent buf s ≡ some (s', rest)
    → parse_loop (suc fuel) ssrc last_sent buf s ≡ parse_loop fuel ssrc last_sent rest s'
unfolding parse_loop
parse_loop-step fuel ssrc last_sent [] s s' rest e =
    absurd (omega (arith, scan_round_left ssrc last_sent [] s s' rest e))
parse_loop-step fuel ssrc last_sent (b ∷ bs) s s' rest e = rw (e, parse_loop)

module _ (ssrc last_sent : ℕ) (tail : List ℕ) (result : Scan → List ℕ)
    (at_tail : (fuel : ℕ) (s : Scan) → parse_loop fuel ssrc last_sent tail s ≡ result s) where
  regroup :
      (b : Block) (bs : List Block)
      → length ((block_bytes b ++ compound bs) ++ tail)
        ≡ length (block_bytes b ++ (compound bs ++ tail))
  regroup b bs = ap length (append_assoc (block_bytes b) (compound bs) tail)

  block_takes :
      (b : Block) (rest : List ℕ) (s : Scan)
      → IsBlock b
      → length rest < length (block_bytes b ++ rest)
  block_takes b rest s h =
      let (e, fits) =
        scan_round_left ssrc last_sent (block_bytes b ++ rest) s _ rest
          (scan_round-block_bytes ssrc last_sent b rest s h) in
      omega (
        arith,
        ap length e,
        length-drop (4 + payload_len (block_bytes b ++ rest)) (block_bytes b ++ rest),
      )

  parse_loop-compound :
      (bs : List Block) (fuel : ℕ) (s : Scan)
      → All IsBlock bs
      → length (compound bs ++ tail) ≤ fuel
      → parse_loop fuel ssrc last_sent (compound bs ++ tail) s
        ≡ result (foldl (apply_block ssrc last_sent) s bs)
  unfolding compound
  parse_loop-compound [] fuel s h enough = at_tail fuel s
  parse_loop-compound (b ∷ bs) zero s (hb, hbs) enough =
      absurd (omega (arith, block_takes b (compound bs ++ tail) s hb, regroup b bs))
  parse_loop-compound (b ∷ bs) (suc fuel) s (hb, hbs) enough =
      rw (append_assoc (block_bytes b) (compound bs) tail) (
        parse_loop-step fuel ssrc last_sent _ s _ _
          (scan_round-block_bytes ssrc last_sent b (compound bs ++ tail) s hb)
        ∙ parse_loop-compound bs fuel (apply_block ssrc last_sent s b) hbs
            (omega (arith, block_takes b (compound bs ++ tail) s hb, regroup b bs)))

parse_loop_bad :
    (fuel ssrc last_sent b : ℕ) (tail : List ℕ) (s : Scan)
    → bad_block (b ∷ tail) ≡ true
    → parse_loop fuel ssrc last_sent (b ∷ tail) s ≡ []
unfolding parse_loop scan_round
parse_loop_bad zero ssrc last_sent b tail s bad = refl
parse_loop_bad (suc fuel) ssrc last_sent b tail s bad = ground arith

abbrev pub start : Scan
start = record { checkpoint = none; nacked = [] }

-- On a compound packet of well-formed blocks the parser returns what the blocks say in turn: the
-- frames of the last feedback for this sender whose checkpoint is not behind an earlier one's.
pub parse_nacked_frames-compound :
    (ssrc last_sent : ℕ) (bs : List Block)
    → All IsBlock bs
    → parse_nacked_frames (compound bs) ssrc last_sent
      ≡ (foldl (apply_block ssrc last_sent) start bs).nacked
unfolding parse_nacked_frames
parse_nacked_frames-compound ssrc last_sent bs h =
    ap (λ buf. parse_loop (length buf) ssrc last_sent buf start) (sym (append-nil (compound bs)))
    ∙ parse_loop-compound ssrc last_sent [] (λ s. s.nacked) no_bytes bs _ start h (omega arith)
  where
    no_bytes : (fuel : ℕ) (s : Scan) → parse_loop fuel ssrc last_sent [] s ≡ s.nacked
    no_bytes fuel s = unfold parse_loop in refl

-- A compound packet that goes on with anything but a whole block yields nothing.
pub parse_nacked_frames_malformed :
    (ssrc last_sent : ℕ) (bs : List Block) (b : ℕ) (tail : List ℕ)
    → All IsBlock bs
    → bad_block (b ∷ tail) ≡ true
    → parse_nacked_frames (compound bs ++ (b ∷ tail)) ssrc last_sent ≡ []
unfolding parse_nacked_frames
parse_nacked_frames_malformed ssrc last_sent bs b tail h bad =
    parse_loop-compound ssrc last_sent (b ∷ tail) (λ s. []) gives_up bs _ start h (omega arith)
  where
    gives_up : (fuel : ℕ) (s : Scan) → parse_loop fuel ssrc last_sent (b ∷ tail) s ≡ []
    gives_up fuel s = parse_loop_bad fuel ssrc last_sent b tail s bad
