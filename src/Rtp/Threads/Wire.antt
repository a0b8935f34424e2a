-- ===== src/Rtp/Threads/Wire.antt =====
-- What is on the wire: numbered frames, copies of them, and reports on them.
use chromecast_sink.Base.{ℕ, ◌≡◌, refl, ◌⊎◌, inl, List, [], ◌∷◌, ◌++◌, length, u32, u64}
use chromecast_sink.Rtp.Packet.{Config, build_rtcp_sr_at}
use chromecast_sink.Rtp.Sender.{Cipher}
use chromecast_sink.Rtp.Sender.Stream.{total_bytes}
use chromecast_sink.Rtp.Threads.{Datagram, media, resent, report, encrypted_packet, as_resent}

-- The Opus frames that were sent, the latest first.
abbrev pub frames : List Datagram → List (List ℕ)
frames [] = []
frames (media opus bytes ∷ w) = opus ∷ frames w
frames (resent f bytes ∷ w) = frames w
frames (report f o now bytes ∷ w) = frames w

-- The counters behind these frames: the id of the next, and the bytes of them all.
abbrev pub next_id : List (List ℕ) → ℕ
next_id fs = u32 (length fs)

abbrev pub octets_of : List (List ℕ) → ℕ
octets_of fs = u64 (total_bytes fs)

-- The counter had this value behind some number of these frames.
abbrev pub WasCount : (List (List ℕ) → ℕ) → ℕ → List (List ℕ) → Type 0
WasCount counter v [] = v ≡ counter []
WasCount counter v (f ∷ fs) = (v ≡ counter (f ∷ fs)) ⊎ WasCount counter v fs

pub WasCount-now :
    (counter : List (List ℕ) → ℕ) (fs : List (List ℕ)) → WasCount counter (counter fs) fs
WasCount-now counter [] = refl
WasCount-now counter (f ∷ fs) = inl refl

-- One of these frames has this id and this packet.
abbrev pub WasSent : Cipher → Config → ℕ → List ℕ → List (List ℕ) → Type 0
WasSent c cfg id bytes [] = ⊥
WasSent c cfg id bytes (f ∷ fs) =
    ((id ≡ next_id fs) × (bytes ≡ encrypted_packet c cfg id f)) ⊎ WasSent c cfg id bytes fs

-- Of every datagram, with respect to those before it: the packet of a frame has the number of frames
-- before it for its id, what is resent is the packet of a frame before it, and a report's counters are
-- values that frames before it account for.
abbrev pub IsWire : Cipher → Config → List Datagram → Type 0
IsWire c cfg [] = Unit
IsWire c cfg (media opus bytes ∷ w) =
    (bytes ≡ encrypted_packet c cfg (next_id (frames w)) opus) × IsWire c cfg w
IsWire c cfg (resent f bytes ∷ w) = WasSent c cfg f bytes (frames w) × IsWire c cfg w
IsWire c cfg (report f o now bytes ∷ w) =
    WasCount next_id f (frames w)
    × WasCount octets_of o (frames w)
    × (bytes ≡ build_rtcp_sr_at cfg.ssrc f o now)
    × IsWire c cfg w

pub frames-as_resent :
    (sent : List (ℕ × List ℕ)) (w : List Datagram) → frames (as_resent sent ++ w) ≡ frames w
frames-as_resent [] w = refl
frames-as_resent ((f, bytes) ∷ sent) w = frames-as_resent sent w
