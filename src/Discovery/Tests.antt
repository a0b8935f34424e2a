-- ===== src/Discovery/Tests.antt =====
-- The theorems on src/discovery.rs at concrete inputs.
use mathlib.Core.List.Permᴰ.{Permᴰ}
use mathlib.Core.List.Permᴰ as Perms
use chromecast_sink.Base.{◌≡◌, refl, none, List, [], ◌∷◌, ◌++◌, codes}
use chromecast_sink.Channel.Utf8.{Text}
use chromecast_sink.Discovery.{Device, Browse, resolved, discover}
use chromecast_sink.Discovery.Order.{discover-perm}

abbrev speaker : Text → Text → Browse
speaker name ca = record {
  now = 0;
  event = resolved (codes "10.0.0.2" ∷ []) 8009 ((codes "fn", name) ∷ (codes "ca", ca) ∷ []);
  new_at = 1;
  quiet_at = 2;
}

abbrev two_speakers : List Browse
two_speakers =
    speaker (codes "Kitchen") (codes "198660") ∷ speaker (codes "Hall") (codes "4101") ∷ []

-- The entry put in first comes last.
backwards : List Device → List Device
backwards [] = []
backwards (d ∷ ds) = backwards ds ++ (d ∷ [])

backwards-perm : (ds : List Device) → Permᴰ ds (backwards ds)
unfolding backwards
backwards-perm [] = Permᴰ.nil
backwards-perm (d ∷ ds) =
    Permᴰ.trans
      (Permᴰ.cons refl
        (Permᴰ.trans (backwards-perm ds) (Perms.symm (Perms.append-nil (backwards ds)))))
      (Perms.symm (Perms.middle d (backwards ds) []))

discover-perm_example :
    discover (λ ds. ds) none 10_000_000_000 0 two_speakers
    ≡ discover backwards none 10_000_000_000 0 two_speakers
discover-perm_example =
    discover-perm (λ ds. ds) backwards none 10_000_000_000 0 two_speakers Perms.refl backwards-perm
