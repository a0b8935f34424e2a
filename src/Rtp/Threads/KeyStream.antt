-- ===== src/Rtp/Threads/KeyStream.antt =====
-- Under which nonces the packets on the wire are encrypted.
use chromecast_sink.Base.{
  ℕ, ◌≡◌, ◌≢◌, refl, ◌≤◌, ◌<◌, ◌^◌, ap, sym, ◌∙◌, List, [], ◌∷◌, length, All, IsByte, ◌⊎◌, inl, inr,
  arith,
}
use chromecast_sink.Rtp.Packet.{Config, nonce, build_packet}
use chromecast_sink.Rtp.Packet.Nonce.{counter_block, counter_block-ne}
use chromecast_sink.Rtp.Sender.{Cipher, encrypt}
use chromecast_sink.Rtp.Threads.{Datagram, media, resent, report, System, Reach, encrypted_packet}
use chromecast_sink.Rtp.Threads.Wire.{frames, next_id, WasSent, IsWire}
use chromecast_sink.Rtp.Threads.Safety.{Reach-IsWire}

-- This very packet was sent as that of a frame.
abbrev pub IsCopy : List ℕ → List Datagram → Type 0
IsCopy bytes [] = ⊥
IsCopy bytes (media opus b ∷ w) = (bytes ≡ b) ⊎ IsCopy bytes w
IsCopy bytes (resent f b ∷ w) = IsCopy bytes w
IsCopy bytes (report f o now b ∷ w) = IsCopy bytes w

-- The frames on the wire, the latest first, are encrypted under the nonces of these ids, and have them
-- in their packets; what is resent is one of the packets before it.
abbrev pub IsEncrypted : Cipher → Config → List ℕ → List Datagram → Type 0
IsEncrypted c cfg ids [] = ids ≡ []
IsEncrypted c cfg ids (media opus bytes ∷ w) =
    (n : ℕ) × (rest : List ℕ) × (ids ≡ n ∷ rest)
    × (bytes ≡ build_packet cfg (c.apply_keystream cfg.aes_key (nonce cfg n) opus) n)
    × IsEncrypted c cfg rest w
IsEncrypted c cfg ids (resent f bytes ∷ w) = IsCopy bytes w × IsEncrypted c cfg ids w
IsEncrypted c cfg ids (report f o now bytes ∷ w) = IsEncrypted c cfg ids w

-- The key streams of two frame ids have no block in common within 2^32 blocks.
abbrev pub AreApart : Config → ℕ → ℕ → Type 0
AreApart cfg n m =
    (i j : ℕ) → i < 2 ^ 32 → j < 2 ^ 32 → counter_block cfg n i ≢ counter_block cfg m j

abbrev pub AllApart : Config → List ℕ → Type 0
AllApart cfg [] = Unit
AllApart cfg (n ∷ ids) = All (λ m. AreApart cfg n m) ids × AllApart cfg ids

-- The ids of these frames.
abbrev ids_of : List (List ℕ) → List ℕ
ids_of [] = []
ids_of (f ∷ fs) = next_id fs ∷ ids_of fs

module _ (c : Cipher) (cfg : Config) where
  WasSent-IsCopy :
      (f : ℕ) (bytes : List ℕ) (w : List Datagram)
      → IsWire c cfg w
      → WasSent c cfg f bytes (frames w)
      → IsCopy bytes w
  WasSent-IsCopy f bytes [] v h = h
  WasSent-IsCopy f bytes (media opus b ∷ w) v (inl (id, same)) =
      inl (same ∙ ap (λ (g : ℕ). encrypted_packet c cfg g opus) id ∙ sym v.0)
  WasSent-IsCopy f bytes (media opus b ∷ w) v (inr h) = inr (WasSent-IsCopy f bytes w v.1 h)
  WasSent-IsCopy f bytes (resent g b ∷ w) v h = WasSent-IsCopy f bytes w v.1 h
  WasSent-IsCopy f bytes (report g o now b ∷ w) v h = WasSent-IsCopy f bytes w v.3 h

  IsWire-IsEncrypted :
      (w : List Datagram) → IsWire c cfg w → IsEncrypted c cfg (ids_of (frames w)) w
  unfolding encrypt
  IsWire-IsEncrypted [] v = refl
  IsWire-IsEncrypted (media opus b ∷ w) v =
      (next_id (frames w), ids_of (frames w), refl, v.0, IsWire-IsEncrypted w v.1)
  IsWire-IsEncrypted (resent f b ∷ w) v = (WasSent-IsCopy f b w v.1 v.0, IsWire-IsEncrypted w v.1)
  IsWire-IsEncrypted (report f o now b ∷ w) v = IsWire-IsEncrypted w v.3

  module _ (sized : length cfg.aes_iv_mask ≡ 16) (in_bytes : All IsByte cfg.aes_iv_mask) where
    apart_below :
        (n : ℕ) (fs : List (List ℕ))
        → length fs ≤ n
        → n < 2 ^ 32
        → All (λ m. AreApart cfg n m) (ids_of fs)
    apart_below n [] h small = tt
    apart_below n (f ∷ fs) h small = (
      λ i j hi hj.
          counter_block-ne cfg n (next_id fs) i j sized in_bytes small (omega arith) hi hj
            (inl (λ e. omega (arith, e))),
      apart_below n fs (omega arith) small,
    )

    ids_of-AllApart : (fs : List (List ℕ)) → length fs ≤ 2 ^ 32 → AllApart cfg (ids_of fs)
    ids_of-AllApart [] small = tt
    ids_of-AllApart (f ∷ fs) small =
        (apart_below (next_id fs) fs (omega arith) (omega arith), ids_of-AllApart fs (omega arith))

-- In every interleaving of the three threads, until 2^32 frames are sent, for a mask of 16 bytes: each
-- frame on the wire is encrypted under the nonce of an id of its own, which its packet carries; the
-- key streams of any two of these ids have no block in common within 2^32 blocks; and every packet
-- that is sent again is one of these packets, byte for byte.
pub key_stream_once :
    (c : Cipher) (cfg : Config) (peer_ip : ℕ) {s : System}
    → Reach c cfg peer_ip s
    → length (frames s.wire) ≤ 2 ^ 32
    → length cfg.aes_iv_mask ≡ 16
    → All IsByte cfg.aes_iv_mask
    → (ids : List ℕ) × IsEncrypted c cfg ids s.wire × AllApart cfg ids
key_stream_once c cfg peer_ip {s} r small sized in_bytes = (
  ids_of (frames s.wire),
  IsWire-IsEncrypted c cfg s.wire (Reach-IsWire c cfg peer_ip r),
  ids_of-AllApart c cfg sized in_bytes (frames s.wire) small,
)
