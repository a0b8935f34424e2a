-- ===== src/Ring/Invariant/Produce.antt =====
-- The producer's steps keep the invariant.
use native.Mathlib.Nat.{mul-le-mul_right, mod-lt, one-le-pow}
use mathlib.Core.Path.{ap₂}
use chromecast_sink.Base.{
  ℕ, suc, ◌+◌, ◌-◌, ◌*◌, ◌%◌, ◌^◌, ◌≤◌, ◌<◌, ◌≡◌, refl, ap, ◌∙◌, sym, u64, some, List, [], ◌∷◌,
  ◌++◌, length, length-append, length-set, get_or, set, drop, drop-append, slice, slice-append,
  get_or-append, get_or-set_self, get_or-set_ne, drop-step, arith, dec_lt,
}
use chromecast_sink.Ring.{AudioRing, accept, reserve, store_at, publish, slot}
use chromecast_sink.Ring.Steps.{outside, storing, Consumer, waiting, copying, System, first_sample}
use chromecast_sink.Ring.Accepted.{accept_lem}
use chromecast_sink.Ring.Index.{slot-eq-mod, mod-ne}
use chromecast_sink.Ring.Invariant.{
  counters-IsShaped, IsProducing, IsHeld, IsConsuming, IsTold, Inv,
}

-- The log grows at its end.
IsTold-append :
    (log xs : List ℕ) (bound : ℕ) (ds : List (ℕ × List ℕ))
    → bound ≤ length log
    → IsTold log bound ds
    → IsTold (log ++ xs) bound ds
IsTold-append log xs bound [] h t = tt
IsTold-append log xs bound ((p, out) ∷ ds) h (fits, same, more) = (
  fits,
  same ∙ sym (slice-append p (length out) log xs (omega arith)),
  IsTold-append log xs p ds (omega arith) more,
)

nothing_added : (w c n : ℕ) → w * c ≡ n → w * c + 0 ≡ n
nothing_added w c n e = omega (arith, e)

-- A word multiplied by the channels is not less.
pub factor-le : (n c m : ℕ) → 0 < c → n * c ≤ m → n ≤ m
factor-le n c m h le = omega (arith, mul-le-mul_right {m = 1} {n = c} n h)

-- What the consumer knows outlives the producer's progress.
IsConsuming-grow :
    (r r' : AudioRing) (log log' : List ℕ) (c : Consumer)
    → r'.read ≡ r.read
    → r'.channels ≡ r.channels
    → r'.capacity ≡ r.capacity
    → r.write ≤ r'.write
    → r.reserved ≤ r'.reserved
    → r.write * r.channels ≤ length log
    → ((n : ℕ)
        → first_sample r + n ≤ length log
        → slice (first_sample r) n log' ≡ slice (first_sample r) n log)
    → IsConsuming r log c
    → IsConsuming r' log' c
IsConsuming-grow r r' log log' waiting a b d w v l same h = tt
IsConsuming-grow r r' log log' (copying want out) a b d w v l same
      (need, e, fits, some_out, right) =
    (
      need,
      omega (arith, e, ap (λ (t : ℕ). need * t) b),
      omega arith,
      some_out,
      λ in_time.
          right (omega arith)
          ∙ sym (
              same (length out) (
                omega
                  (arith, mul-le-mul_right {m = r.read + need} {n = r.write} r.channels fits, e)))
          ∙ ap (λ (t : ℕ). slice t (length out) log') (sym (ap₂ ◌*◌ a b)),
    )

module _ (k : ℕ) (s : System) (inv : Inv k s) where
  pub begin_write-Inv :
      (bytes : List ℕ) (frames : ℕ) (xs : List ℕ)
      → s.producer ≡ outside
      → accept s.ring bytes ≡ some (frames, xs)
      → length (s.log ++ xs) < 2 ^ 64
      → Inv k (record s {
        ring = reserve s.ring frames;
        producer =
            storing (u64 (s.ring.write + frames)) (u64 (s.ring.write * s.ring.channels)) 0 xs;
        log = s.log ++ xs;
      })
  unfolding reserve
  begin_write-Inv bytes frames xs e a few =
      let at_end : s.ring.write ≡ s.ring.reserved = rw e at inv.producing in
      let size = accept_lem s.ring bytes frames xs a in
      let total : length (s.log ++ xs) ≡ (s.ring.write + frames) * s.ring.channels = omega (
        arith,
        length-append s.log xs,
        inv.logged,
        size,
        ap (λ (t : ℕ). t * s.ring.channels) at_end,
      ) in
      let word =
        factor-le (s.ring.write + frames) s.ring.channels (length (s.log ++ xs))
          inv.shaped.some_channels (omega (arith, total)) in
      let plain : u64 (s.ring.write + frames) ≡ s.ring.write + frames = omega arith in
      let before : s.ring.write * s.ring.channels ≡ length s.log =
        omega (arith, inv.logged, ap (λ (t : ℕ). t * s.ring.channels) at_end) in
      let held_outside : IsHeld k s.ring s.log (length s.log) = rw e at inv.held in
      record {
        shaped = counters-IsShaped k s.ring _ _ _ _ inv.shaped;
        read_first = inv.read_first;
        write_next = omega arith;
        logged = total ∙ ap (λ (t : ℕ). t * s.ring.channels) (sym plain);
        producing = (
          refl,
          refl,
          omega (arith, before, length-append s.log xs),
          ap (λ (t : ℕ). drop t (s.log ++ xs))
                (nothing_added s.ring.write s.ring.channels (length s.log) before)
              ∙ drop-append s.log xs,
        );
        held = λ j below lately.
            let old : j < length s.log = omega (arith, length-append s.log xs) in
            held_outside j old (omega (arith, length-append s.log xs))
            ∙ sym (get_or-append s.log xs j 0 old);
        consuming =
            IsConsuming-grow s.ring (reserve s.ring frames) s.log (s.log ++ xs) s.consumer refl refl
              refl (omega arith) (omega arith) (omega (arith, before))
              (λ n fits. slice-append (first_sample s.ring) n s.log xs fits) inv.consuming;
        told =
            IsTold-append s.log xs (first_sample s.ring) s.delivered
              (omega (
                arith,
                before,
                mul-le-mul_right {m = s.ring.read} {n = s.ring.write} s.ring.channels
                    inv.read_first,
              ))
              inv.told;
      }

  pub store_one-Inv :
      (end base i x : ℕ) (rest : List ℕ)
      → s.producer ≡ storing end base i (x ∷ rest)
      → Inv k
          (record s { ring = store_at s.ring base i x; producer = storing end base (i + 1) rest })
  unfolding store_at
  store_one-Inv end base i x rest e =
      let (ends, based, upto, left) = producing_here in
      let (item, tail) = drop-step at s.log x 0 rest left in
      let held_here : IsHeld k s.ring s.log (length s.log - suc (length rest)) = rw e at inv.held in
      record {
        shaped = record {
          small = inv.shaped.small;
          some_channels = inv.shaped.some_channels;
          size = inv.shaped.size;
          mask = inv.shaped.mask;
          sized = length-set s.ring.buf _ _ ∙ inv.shaped.sized;
        };
        read_first = inv.read_first;
        write_next = inv.write_next;
        logged = inv.logged;
        producing = (ends, based, omega (arith, upto), same_drop tail);
        held = λ j below lately. elim (dec_lt j at) [
          | yes old ↦
              get_or-set_ne s.ring.buf place (j % 2 ^ k) x 0
                (λ q. mod-ne (2 ^ k) j at old (omega (arith, upto)) (sym q ∙ slot_at based))
              ∙ held_here j (omega (arith, upto)) (omega (arith, upto))
          | no new ↦
              let here : j ≡ at = omega (arith, upto) in
              ap (λ (t : ℕ). get_or (set s.ring.buf place x) t 0)
                (ap (λ (t : ℕ). t % 2 ^ k) here ∙ sym (slot_at based))
              ∙ get_or-set_self s.ring.buf place x 0 (in_buffer (slot_at based))
              ∙ sym item
              ∙ ap (λ (t : ℕ). get_or s.log t 0) (sym here)
        ];
        consuming = inv.consuming;
        told = inv.told;
      }
    where
      at : ℕ
      at = s.ring.write * s.ring.channels + i

      place : ℕ
      place = slot s.ring base i

      slot_at : base ≡ u64 (s.ring.write * s.ring.channels) → place ≡ at % 2 ^ k
      slot_at based =
          ap (λ (b : ℕ). slot s.ring b i) based
          ∙ slot-eq-mod k (s.ring.write * s.ring.channels) i s.ring.sample_mask inv.shaped.small
              inv.shaped.mask

      in_buffer : place ≡ at % 2 ^ k → place < length s.ring.buf
      in_buffer e' =
          omega (arith, e', inv.shaped.sized, mod-lt at {m = 2 ^ k} (one-le-pow k 2 (omega arith)))

      same_drop :
          drop (suc at) s.log ≡ rest → drop (s.ring.write * s.ring.channels + (i + 1)) s.log ≡ rest
      same_drop t =
          let next : s.ring.write * s.ring.channels + (i + 1) ≡ suc at = omega arith in
          ap (λ (n : ℕ). drop n s.log) next ∙ t

      producing_here : IsProducing s.ring s.log (storing end base i (x ∷ rest))
      producing_here = rw e at inv.producing

  pub end_write-Inv :
      (end base i : ℕ)
      → s.producer ≡ storing end base i []
      → Inv k (record s { ring = publish s.ring end; producer = outside })
  unfolding publish
  end_write-Inv end base i e =
      let (ends, based, upto, left) = producing_here in
      record {
        shaped = counters-IsShaped k s.ring _ _ _ _ inv.shaped;
        read_first = omega (arith, inv.read_first, inv.write_next, ends);
        write_next = omega (arith, ends);
        logged = inv.logged;
        producing = ends;
        held = all_stored (rw e at inv.held);
        consuming =
            IsConsuming-grow s.ring (publish s.ring end) s.log s.log s.consumer refl refl refl
              (omega (arith, ends, inv.write_next)) (omega arith) (omega (arith, upto))
              (λ n fits. refl) inv.consuming;
        told = inv.told;
      }
    where
      all_stored : IsHeld k s.ring s.log (length s.log - 0) → IsHeld k s.ring s.log (length s.log)
      all_stored h j below lately = h j (omega arith) (omega arith)

      producing_here : IsProducing s.ring s.log (storing end base i [])
      producing_here = rw e at inv.producing
