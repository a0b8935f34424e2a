-- ===== src/Loopback/Pump.antt =====
-- What the capture of src/virtual_sink_windows.rs writes to the ring.
use chromecast_sink.Base.{
  ℕ, zero, suc, ◌+◌, ◌*◌, ◌/◌, ◌≡◌, refl, ap, ◌∙◌, min, u64, Bool, true, false, Option, none, some,
  List, [], ◌∷◌, length, length-replicate, arith,
}
use chromecast_sink.Ring.{AudioRing, write_s16le, available_frames}
use chromecast_sink.Ring.Available.{IsCounted, write_s16le-available}
use chromecast_sink.Loopback.{f32le_to_s16le, Packet, frame_bytes, packet_pcm}

length-f32le_to_s16le :
    (n : ℕ) (src : List ℕ) → length src ≡ 4 * n → length (f32le_to_s16le src) ≡ 2 * n
unfolding f32le_to_s16le
length-f32le_to_s16le zero [] h = refl
length-f32le_to_s16le (suc n) [] h = omega arith
length-f32le_to_s16le n (a ∷ []) h = absurd (omega arith)
length-f32le_to_s16le n (a ∷ b ∷ []) h = absurd (omega arith)
length-f32le_to_s16le n (a ∷ b ∷ c ∷ []) h = absurd (omega arith)
length-f32le_to_s16le zero (a ∷ b ∷ c ∷ d ∷ src) h = absurd (omega arith)
length-f32le_to_s16le (suc n) (a ∷ b ∷ c ∷ d ∷ src) h =
    omega (arith, length-f32le_to_s16le n src (omega arith))

-- The bytes are those of the frames, where there are any.
abbrev pub IsFull : Packet → Type 0
IsFull p = (bytes : List ℕ) → p.bytes ≡ some bytes → length bytes ≡ p.frames * frame_bytes

length-packet_pcm : (p : Packet) → IsFull p → length (packet_pcm p) ≡ p.frames * 4
unfolding packet_pcm
length-packet_pcm p full = by_bytes p.bytes refl
  where
    by_bytes : (o : Option (List ℕ)) → p.bytes ≡ o → length (packet_pcm p) ≡ p.frames * 4
    by_bytes none e = rw (e, packet_pcm) (length-replicate _ 0 ∙ omega arith)
    by_bytes (some src) e = by_flag p.silent refl
      where
        by_flag : (b : Bool) → p.silent ≡ b → length (packet_pcm p) ≡ p.frames * 4
        by_flag true f = rw (e, f, packet_pcm) (length-replicate _ 0 ∙ omega arith)
        by_flag false f =
            rw (e, f, packet_pcm)
              (length-f32le_to_s16le (p.frames * 2) src (omega (arith, full src e)) ∙ omega arith)

-- A packet of the device, silent or not, puts as many frames into the stereo ring as it has, the
-- capacity at most.
pub packet_pcm-available :
    (r : AudioRing) (p : Packet)
    → r.channels ≡ 2
    → IsCounted r
    → IsFull p
    → available_frames (write_s16le r (packet_pcm p))
      ≡ u64 (available_frames r + min r.capacity p.frames)
packet_pcm-available r p stereo counted full =
    write_s16le-available r (packet_pcm p) counted
    ∙ ap (λ (n : ℕ). u64 (available_frames r + min r.capacity n))
        (ap (λ (c : ℕ). length (packet_pcm p) / (c * 2)) stereo
          ∙ omega (arith, length-packet_pcm p full))
