-- ===== src/Ring/Calls.antt =====
-- The calls of src/audio_ring.rs, each made with no access of the other thread in between, are runs of
-- the interleaved system.
use native.Mathlib.Nat.{div-add-mod'}
use mathlib.Core.Path.{subst}
use chromecast_sink.Base.{
  ℕ, zero, suc, ◌+◌, ◌*◌, ◌/◌, ◌%◌, ◌⊎◌, ◌≤◌, ◌<◌, ◌≡◌, refl, ap, ◌∙◌, sym, u64, sub64, ltb, ◌==◌,
  none, some, Bool, true, false, List, [], ◌∷◌, ◌++◌, length, length-append, append-nil,
  append_assoc, Option-cases, Bool-cases, inl, inr, arith,
}
use chromecast_sink.Ring.{
  AudioRing, accept, reserve, store_at, store_all, publish, write_s16le, load_at, load_all,
  advance_read, read_frames,
}
use chromecast_sink.Ring.Writes.{length-load_all}
use chromecast_sink.Ring.Steps.{
  outside, storing, waiting, copying, System, first_sample, begin_write, store_one, end_write,
  begin_read, load_one, reject, end_read, Run, done, then_step,
}

-- The samples that a write adds.
unfoldable pub accepted : AudioRing → List ℕ → List ℕ
accepted r bytes = elim (accept r bytes) [ none ↦ [] | some (frames, xs) ↦ xs ]

module _ (start : System) where
  store_all-Run :
      (end base i : ℕ) (xs : List ℕ) (s : System)
      → s.producer ≡ storing end base i xs
      → Run start s
      → Run start (record s { ring = publish (store_all s.ring base i xs) end; producer = outside })
  unfolding store_all
  store_all-Run end base i [] s e run = then_step run (end_write end base i e)
  store_all-Run end base i (x ∷ xs) s e run =
      store_all-Run end base (i + 1) xs
        (record s { ring = store_at s.ring base i x; producer = storing end base (i + 1) xs }) refl
        (then_step run (store_one end base i x xs e))

  load_all-Run :
      (want n : ℕ) (out : List ℕ) (s : System)
      → s.consumer ≡ copying want out
      → length out + n ≡ want
      → Run start s
      → Run start (record s {
        consumer = copying want (out ++ load_all s.ring (u64 (first_sample s.ring)) (length out) n);
      })
  unfolding load_all
  load_all-Run want zero out s e h run =
      rw (append-nil out) (subst (λ c. Run start (record s { consumer = c })) e run)
  load_all-Run want (suc n) out s e h run =
      let load = load_at s.ring (u64 (first_sample s.ring)) (length out) in
      let grown : length (out ++ (load ∷ [])) ≡ length out + 1 = length-append out (load ∷ []) in
      let whole : (out ++ (load ∷ []))
            ++ load_all s.ring (u64 (first_sample s.ring)) (length (out ++ (load ∷ []))) n
          ≡ out ++ (load ∷ load_all s.ring (u64 (first_sample s.ring)) (length out + 1) n) =
        rw grown (append_assoc out (load ∷ []) _) in
      subst (λ xs. Run start (record s { consumer = copying want xs })) whole
        (load_all-Run want n (out ++ (load ∷ []))
          (record s { consumer = copying want (out ++ (load ∷ [])) }) refl (omega (arith, grown))
          (then_step run (load_one want out e (omega arith))))

-- A write that nothing interrupts.
pub write_s16le-Run :
    (s : System) (bytes : List ℕ)
    → s.producer ≡ outside
    → Run s (record s {
      ring = write_s16le s.ring bytes;
      producer = outside;
      log = s.log ++ accepted s.ring bytes;
    })
unfolding write_s16le accepted
write_s16le-Run s bytes e = elim (Option-cases (accept s.ring bytes)) [
  | inl q ↦
      rw (q, write_s16le, accepted, append-nil s.log)
        (subst (λ p. Run s (record s { producer = p })) e done)
  | inr ((frames, xs), q) ↦
      rw (q, write_s16le, accepted)
        (store_all-Run s (u64 (s.ring.write + frames)) (u64 (s.ring.write * s.ring.channels)) 0 xs
          (record s {
            ring = reserve s.ring frames;
            producer =
                storing (u64 (s.ring.write + frames)) (u64 (s.ring.write * s.ring.channels)) 0 xs;
            log = s.log ++ xs;
          })
          refl (then_step done (begin_write bytes frames xs e q)))
]

abbrev pub returned : System → AudioRing × Bool × List ℕ → System
returned s (ring, true, copied) = record s {
  ring = ring;
  consumer = waiting;
  delivered = (first_sample s.ring, copied) ∷ s.delivered;
}
returned s (ring, false, copied) = record s { ring = ring; consumer = waiting }

-- The system after a read that nothing interrupts.
unfoldable pub after_read : System → List ℕ → System
after_read s out = returned s (read_frames s.ring out)

unfoldable pub copy : AudioRing → ℕ → List ℕ
copy r n = load_all r (u64 (first_sample r)) 0 n

pub read_frames-cases :
    (r : AudioRing) (out : List ℕ)
    → (read_frames r out ≡ (r, false, out))
      ⊎ (0 < length out / r.channels)
        × (length out / r.channels ≤ sub64 r.write r.read)
        × ((r.capacity < sub64 r.reserved r.read)
              × (read_frames r out ≡ (r, false, copy r (length out)))
            ⊎ (sub64 r.reserved r.read ≤ r.capacity)
              × (read_frames r out
                  ≡ (advance_read r r.read (length out / r.channels), true, copy r (length out))))
unfolding read_frames copy
read_frames-cases r out = elim (Bool-cases (length out / r.channels == 0)) [
  | inl e ↦ inl (rw e refl)
  | inr e ↦ elim (Bool-cases (ltb (sub64 r.write r.read) (length out / r.channels))) [
    | inl f ↦ inl (rw (e, f) refl)
    | inr f ↦ inr (
      ground arith,
      ground arith,
      elim (Bool-cases (ltb r.capacity (sub64 r.reserved r.read))) [
        | inl g ↦ inl (ground arith, rw (e, f, g) refl)
        | inr g ↦ inr (ground arith, rw (e, f, g) refl)
      ],
    )
  ]
]

-- A read that nothing interrupts.
pub read_frames-Run :
    (s : System) (out : List ℕ)
    → 0 < s.ring.channels
    → s.consumer ≡ waiting
    → length out % s.ring.channels ≡ 0
    → Run s (after_read s out)
unfolding after_read copy
read_frames-Run s out some_channels e h = elim (read_frames-cases s.ring out) [
  | inl q ↦ to q (subst (λ c. Run s (record s { consumer = c })) e done)
  | inr (some_frames, enough, inl (late, q)) ↦
      to q (then_step (copied some_frames enough) (reject (copy s.ring (length out)) refl late))
  | inr (some_frames, enough, inr (in_time, q)) ↦
      to
        (q
          ∙ ap
              (λ (n : ℕ). (
                advance_read s.ring s.ring.read (n / s.ring.channels),
                true,
                copy s.ring (length out),
              ))
              (sym (length-load_all s.ring (u64 (first_sample s.ring)) 0 (length out))))
        (then_step (copied some_frames enough) (end_read (copy s.ring (length out)) refl in_time))
]
  where
    to :
        {q : AudioRing × Bool × List ℕ}
        → read_frames s.ring out ≡ q
        → Run s (returned s q)
        → Run s (after_read s out)
    to e run = subst (λ q. Run s (returned s q)) (sym e) run

    size : length (copy s.ring (length out)) ≡ length out / s.ring.channels * s.ring.channels
    size =
        length-load_all s.ring (u64 (first_sample s.ring)) 0 (length out)
        ∙ omega (arith, h, div-add-mod' (length out) s.ring.channels)

    copied :
        0 < length out / s.ring.channels
        → length out / s.ring.channels ≤ sub64 s.ring.write s.ring.read
        → Run s (record s {
          consumer = copying (length (copy s.ring (length out))) (copy s.ring (length out));
        })
    copied some_frames enough =
        subst (λ n. Run s (record s { consumer = copying n (copy s.ring (length out)) })) (sym size)
          (load_all-Run s (length out / s.ring.channels * s.ring.channels) (length out) []
            (record s { consumer = copying (length out / s.ring.channels * s.ring.channels) [] })
            refl (omega (arith, h, div-add-mod' (length out) s.ring.channels))
            (then_step done (begin_read (length out / s.ring.channels) e some_frames enough)))
