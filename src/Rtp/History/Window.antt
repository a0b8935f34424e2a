-- ===== src/Rtp/History/Window.antt =====
-- Which packets a `History` holds.
use chromecast_sink.Base.{
  ℕ, zero, suc, Bool, u32, ◌^◌, ◌+◌, ◌%◌, ◌≤◌, ◌<◌, ◌≡◌, refl, ap, ◌∙◌, Option, none, some, List,
  [], ◌∷◌, length, length-set, get_or, set, replicate, ◌==◌, if◌then◌else◌, ltb, leb, ◌&&◌, arith,
}
use chromecast_sink.Rtp.History.{
  history_frames, SentPacket, History, new, filter_id, get_mut, record_packet, set_sent_at,
}

-- The array has its 120 slots.
pub record IsHistory (h : History) : Type 0 where
  pub sized : length h.slots ≡ history_frames

get_or-set :
    (xs : List (Option SentPacket)) (i j : ℕ) (v : Option SentPacket)
    → i < length xs
    → get_or (set xs i v) j none ≡ (if i == j then v else get_or xs j none)
get_or-set [] i j v h = absurd (omega arith)
get_or-set (x ∷ xs) zero zero v h = ground arith
get_or-set (x ∷ xs) zero (suc j) v h = ground arith
get_or-set (x ∷ xs) (suc i) zero v h = ground arith
get_or-set (x ∷ xs) (suc i) (suc j) v h = ground (arith, get_or-set xs i j v (omega arith))

abbrev nothing : Option SentPacket
nothing = none

get_or-replicate : (n i : ℕ) → get_or (replicate n nothing) i none ≡ none
get_or-replicate zero i = refl
get_or-replicate (suc n) zero = refl
get_or-replicate (suc n) (suc i) = get_or-replicate n i

pub new-IsHistory : IsHistory new
unfolding new
new-IsHistory = record { sized = refl }

pub record_packet-IsHistory :
    (h : History) (f : ℕ) (p : List ℕ) (now : ℕ) → IsHistory h → IsHistory (record_packet h f p now)
unfolding record_packet
record_packet-IsHistory h f p now v = record { sized = length-set h.slots _ _ ∙ v.sized }

pub get_mut-new : (f : ℕ) → get_mut new f ≡ none
unfolding get_mut new
get_mut-new f = ap (filter_id f) (get_or-replicate history_frames (f % history_frames))

-- After a packet is recorded, its frame is found with that packet, the frames that share its slot
-- are gone, and every other frame is found as before.
pub get_mut-record_packet :
    (h : History) (f : ℕ) (p : List ℕ) (now g : ℕ)
    → IsHistory h
    → get_mut (record_packet h f p now) g ≡ (
        if f == g
        then some (record { frame_id = f; packet = p; sent_at = now })
        else if f % 120 == g % 120
        then none
        else get_mut h g)
unfolding get_mut record_packet
get_mut-record_packet h f p now g v = ground (
  arith,
  get_or-set h.slots (f % 120) (g % 120) (some (record { frame_id = f; packet = p; sent_at = now }))
      (omega arith),
)

-- The frames `first`, `first + 1`, …, `n` of them, recorded in turn; ids are u32.
module _ (packet : ℕ → List ℕ) (time : ℕ → ℕ) (first : ℕ) where
  pub record_run : ℕ → History
  record_run zero = new
  record_run (suc n) =
      let id = u32 (first + n) in record_packet (record_run n) id (packet id) (time id)

  record_run-IsHistory : (n : ℕ) → IsHistory (record_run n)
  unfolding record_run
  record_run-IsHistory zero = new-IsHistory
  record_run-IsHistory (suc n) = record_packet-IsHistory _ _ _ _ (record_run-IsHistory n)

  abbrev pub in_window : ℕ → ℕ → Bool
  in_window n g = (leb first g && ltb g (first + n)) && leb (first + n) (g + 120)

  -- After `n` consecutive frames, before ids wrap, a frame is found exactly if it is one of the last
  -- 120 of them, and then with its own packet and time.
  pub get_mut-record_run :
      (n g : ℕ)
      → first + n ≤ 2 ^ 32
      → get_mut (record_run n) g ≡ (
          if in_window n g
          then some (record { frame_id = g; packet = packet g; sent_at = time g })
          else none)
  unfolding record_run
  get_mut-record_run zero g small = ground (arith, get_mut-new g)
  get_mut-record_run (suc n) g small =
      let same : u32 (first + n) ≡ first + n = omega arith in
      rw same (
        ground (
          arith,
          get_mut-record_packet (record_run n) (first + n) (packet (first + n)) (time (first + n)) g
              (record_run-IsHistory n),
          get_mut-record_run n g (omega arith),
        ))

-- A packet that is found stands in its slot, under its own id.
get_mut_found :
    (h : History) (f : ℕ) (sent : SentPacket)
    → get_mut h f ≡ some sent
    → (sent.frame_id ≡ f) × (get_or h.slots (f % 120) none ≡ some sent)
unfolding get_mut
get_mut_found h f sent e = ground arith

-- A write of `sent_at` through a found packet changes that packet's time and nothing else.
pub get_mut-set_sent_at :
    (h : History) (f g : ℕ) (sent : SentPacket) (now : ℕ)
    → IsHistory h
    → get_mut h f ≡ some sent
    → get_mut (set_sent_at h sent now) g
      ≡ (if f == g then some (record sent { sent_at = now }) else get_mut h g)
unfolding get_mut set_sent_at
get_mut-set_sent_at h f g sent now v e = ground (
  arith,
  get_mut_found h f sent e,
  get_or-set h.slots (f % 120) (g % 120) (some (record sent { sent_at = now })) (omega arith),
)

pub set_sent_at-IsHistory :
    (h : History) (sent : SentPacket) (now : ℕ) → IsHistory h → IsHistory (set_sent_at h sent now)
unfolding set_sent_at
set_sent_at-IsHistory h sent now v = record { sized = length-set h.slots _ _ ∙ v.sized }
