-- ===== src/Ring/Invariant/Consume.antt =====
-- The consumer's steps keep the invariant.
use native.Mathlib.Nat.{mul-le-mul_right, mul-div_cancel}
use chromecast_sink.Base.{
  ℕ, suc, true, ◌+◌, ◌-◌, ◌*◌, ◌/◌, ◌^◌, ◌≤◌, ◌<◌, ◌≡◌, refl, ap, ◌∙◌, sym, u64, sub64, min, List,
  [], ◌∷◌, ◌++◌, length, length-append, get_or, slice, slice-push, arith,
}
use chromecast_sink.Ring.{AudioRing, load_at, advance_read, skip_frames, close}
use chromecast_sink.Ring.Steps.{
  Producer, outside, storing, Consumer, waiting, copying, System, first_sample,
}
use chromecast_sink.Ring.Index.{slot-eq-mod}
use chromecast_sink.Ring.Invariant.{
  counters-IsShaped, stored, IsProducing, IsConsuming, IsTold, Inv,
}

IsTold-later :
    (log : List ℕ) (bound bound' : ℕ) (ds : List (ℕ × List ℕ))
    → bound ≤ bound'
    → IsTold log bound ds
    → IsTold log bound' ds
IsTold-later log bound bound' [] h t = tt
IsTold-later log bound bound' ((p, out) ∷ ds) h (fits, same, more) = (omega arith, same, more)

stored_le : (log : List ℕ) (p : Producer) → stored log p ≤ length log
stored_le log outside = omega arith
stored_le log (storing end base i rest) = omega arith

-- The producer's place does not depend on `read`.
IsProducing-apart :
    (r : AudioRing) (n : ℕ) (log : List ℕ) (p : Producer)
    → IsProducing r log p
    → IsProducing (record r { read = n }) log p
IsProducing-apart r n log outside h = h
IsProducing-apart r n log (storing end base i rest) h = h

IsProducing-shut :
    (r : AudioRing) (log : List ℕ) (p : Producer)
    → IsProducing r log p
    → IsProducing (record r { closed = true }) log p
IsProducing-shut r log outside h = h
IsProducing-shut r log (storing end base i rest) h = h

IsConsuming-shut :
    (r : AudioRing) (log : List ℕ) (c : Consumer)
    → IsConsuming r log c
    → IsConsuming (record r { closed = true }) log c
IsConsuming-shut r log waiting h = h
IsConsuming-shut r log (copying want out) h = h

-- What is published is stored.
published :
    (k : ℕ) (s : System) → Inv k s → s.ring.write * s.ring.channels ≤ stored s.log s.producer
published k s inv = by_producer s.producer inv.producing
  where
    by_producer :
        (p : Producer)
        → IsProducing s.ring s.log p
        → s.ring.write * s.ring.channels ≤ stored s.log p
    by_producer outside e = omega (arith, inv.logged, ap (λ (t : ℕ). t * s.ring.channels) e)
    by_producer (storing end base i rest) (ends, based, upto, left) = omega (arith, upto)

module _ (k : ℕ) (s : System) (inv : Inv k s) where
  pub load_one-Inv :
      (want : ℕ) (out : List ℕ)
      → s.consumer ≡ copying want out
      → length out < want
      → Inv k (record s {
        consumer =
            copying want (out ++ (load_at s.ring (u64 (first_sample s.ring)) (length out) ∷ []));
      })
  unfolding load_at
  load_one-Inv want out e more =
      let (need, whole, fits, some_out, right) = consuming_here in
      record {
        shaped = inv.shaped;
        read_first = inv.read_first;
        write_next = inv.write_next;
        logged = inv.logged;
        producing = inv.producing;
        held = inv.held;
        consuming = (
          need,
          whole,
          fits,
          omega (
            arith,
            length-append out (load_at s.ring (u64 (first_sample s.ring)) (length out) ∷ []),
          ),
          λ in_time.
              ap (λ (v : ℕ). out ++ (v ∷ [])) (fresh need whole fits in_time)
              ∙ ap (λ t. t ++ (get_or s.log (first_sample s.ring + length out) 0 ∷ []))
                  (right in_time)
              ∙ slice-push (first_sample s.ring) (length out) s.log 0 (before_end need whole fits)
              ∙ ap (λ (n : ℕ). slice (first_sample s.ring) n s.log) (sym grown),
        );
        told = inv.told;
      }
    where
      load : ℕ
      load = load_at s.ring (u64 (first_sample s.ring)) (length out)

      grown : length (out ++ (load ∷ [])) ≡ suc (length out)
      grown = omega (arith, length-append out (load ∷ []))

      before_stored :
          (need : ℕ)
          → want ≡ need * s.ring.channels
          → s.ring.read + need ≤ s.ring.write
          → first_sample s.ring + length out < stored s.log s.producer
      before_stored need whole fits = omega (
        arith,
        whole,
        published k s inv,
        mul-le-mul_right {m = s.ring.read + need} {n = s.ring.write} s.ring.channels fits,
      )

      before_end :
          (need : ℕ)
          → want ≡ need * s.ring.channels
          → s.ring.read + need ≤ s.ring.write
          → first_sample s.ring + length out < length s.log
      before_end need whole fits =
          omega (arith, before_stored need whole fits, stored_le s.log s.producer)

      fresh :
          (need : ℕ)
          → want ≡ need * s.ring.channels
          → s.ring.read + need ≤ s.ring.write
          → s.ring.reserved ≤ s.ring.read + s.ring.capacity
          → load ≡ get_or s.log (first_sample s.ring + length out) 0
      fresh need whole fits in_time =
          ap (λ (t : ℕ). get_or s.ring.buf t 0)
            (slot-eq-mod k (first_sample s.ring) (length out) s.ring.sample_mask inv.shaped.small
              inv.shaped.mask)
          ∙ inv.held (first_sample s.ring + length out) (before_stored need whole fits) (
              omega (
                arith,
                stored_le s.log s.producer,
                inv.logged,
                inv.shaped.size,
                mul-le-mul_right {m = s.ring.reserved} {n = s.ring.read + s.ring.capacity}
                    s.ring.channels in_time,
              ))

      consuming_here : IsConsuming s.ring s.log (copying want out)
      consuming_here = rw e at inv.consuming

  pub begin_read-Inv :
      (need : ℕ)
      → s.ring.reserved < 2 ^ 64
      → need ≤ sub64 s.ring.write s.ring.read
      → Inv k (record s { consumer = copying (need * s.ring.channels) [] })
  begin_read-Inv need word enough = record {
    shaped = inv.shaped;
    read_first = inv.read_first;
    write_next = inv.write_next;
    logged = inv.logged;
    producing = inv.producing;
    held = inv.held;
    consuming =
        (need, refl, omega (arith, inv.read_first, inv.write_next), omega arith, λ in_time. refl);
    told = inv.told;
  }

  pub wait-Inv : Inv k (record s { consumer = waiting })
  wait-Inv = record {
    shaped = inv.shaped;
    read_first = inv.read_first;
    write_next = inv.write_next;
    logged = inv.logged;
    producing = inv.producing;
    held = inv.held;
    consuming = tt;
    told = inv.told;
  }

  pub end_read-Inv :
      (out : List ℕ)
      → s.consumer ≡ copying (length out) out
      → s.ring.reserved < 2 ^ 64
      → sub64 s.ring.reserved s.ring.read ≤ s.ring.capacity
      → Inv k (record s {
        ring = advance_read s.ring s.ring.read (length out / s.ring.channels);
        consumer = waiting;
        delivered = (first_sample s.ring, out) ∷ s.delivered;
      })
  unfolding advance_read
  end_read-Inv out e word in_time =
      let (need, whole, fits, some_out, right) = consuming_here in
      let frames : length out / s.ring.channels ≡ need =
        ap (λ (t : ℕ). t / s.ring.channels) whole ∙ mul-div_cancel need inv.shaped.some_channels in
      let moved : u64 (s.ring.read + length out / s.ring.channels) ≡ s.ring.read + need =
        omega (arith, frames, fits, inv.write_next) in
      record {
        shaped = counters-IsShaped k s.ring _ _ _ _ inv.shaped;
        read_first = omega (arith, moved, fits);
        write_next = inv.write_next;
        logged = inv.logged;
        producing =
            IsProducing-apart s.ring (u64 (s.ring.read + length out / s.ring.channels)) s.log
              s.producer inv.producing;
        held = inv.held;
        consuming = tt;
        told = (
          omega (arith, whole, ap (λ (t : ℕ). t * s.ring.channels) moved),
          right (omega (arith, inv.read_first, inv.write_next)),
          inv.told,
        );
      }
    where
      consuming_here : IsConsuming s.ring s.log (copying (length out) out)
      consuming_here = rw e at inv.consuming

  pub skip-Inv :
      (frames : ℕ)
      → s.consumer ≡ waiting
      → s.ring.reserved < 2 ^ 64
      → Inv k (record s { ring = skip_frames s.ring frames })
  unfolding skip_frames advance_read
  skip-Inv frames e word =
      let gap : sub64 s.ring.write s.ring.read ≡ s.ring.write - s.ring.read =
        omega (arith, inv.read_first, inv.write_next) in
      let moved : u64 (s.ring.read + min frames (sub64 s.ring.write s.ring.read))
          ≡ s.ring.read + min frames (s.ring.write - s.ring.read) =
        ap (λ (t : ℕ). u64 (s.ring.read + min frames t)) gap
        ∙ omega (arith, inv.read_first, inv.write_next) in
      record {
        shaped = counters-IsShaped k s.ring _ _ _ _ inv.shaped;
        read_first = omega (arith, moved, inv.read_first);
        write_next = inv.write_next;
        logged = inv.logged;
        producing =
            IsProducing-apart s.ring
              (u64 (s.ring.read + min frames (sub64 s.ring.write s.ring.read))) s.log s.producer
              inv.producing;
        held = inv.held;
        consuming = at_waiting;
        told =
            IsTold-later s.log (first_sample s.ring) _ s.delivered
              (mul-le-mul_right {m = s.ring.read} s.ring.channels (omega (arith, moved))) inv.told;
      }
    where
      at_waiting : IsConsuming (skip_frames s.ring frames) s.log s.consumer
      at_waiting = rw e tt

  pub shut-Inv : Inv k (record s { ring = close s.ring })
  unfolding close
  shut-Inv = record {
    shaped = counters-IsShaped k s.ring _ _ _ _ inv.shaped;
    read_first = inv.read_first;
    write_next = inv.write_next;
    logged = inv.logged;
    producing = IsProducing-shut s.ring s.log s.producer inv.producing;
    held = inv.held;
    consuming = IsConsuming-shut s.ring s.log s.consumer inv.consuming;
    told = inv.told;
  }
