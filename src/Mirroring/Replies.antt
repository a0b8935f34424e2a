-- ===== src/Mirroring/Replies.antt =====
-- Reading the fields of a reply in src/mirroring.rs.
use chromecast_sink.Base.{
  ℕ, ◌≡◌, ap, Bool, true, false, Option, none, some, ◌==◌, same_text, same_text-eq, arith,
}
use chromecast_sink.Base.Result.{Result, ok, err}
use chromecast_sink.Channel.Utf8.{Text}
use chromecast_sink.Mirroring.{Trouble}

abbrev pub ok_or : {A : Type 0} → Option A → Trouble → Result Trouble A
ok_or none e = err e
ok_or (some a) e = ok a

abbrev pub is_some_text : Option Text → Text → Bool
is_some_text none t = false
is_some_text (some s) t = same_text s t

abbrev pub is_some_number : Option ℕ → ℕ → Bool
is_some_number none n = false
is_some_number (some m) n = m == n

pub text-same : (o : Option Text) (t : Text) → is_some_text o t ≡ true → o ≡ some t
text-same none t e = cc
text-same (some s) t e = ap (λ (u : Text). some u) (same_text-eq s t e)

pub number-same : (o : Option ℕ) (n : ℕ) → is_some_number o n ≡ true → o ≡ some n
number-same none n e = cc
number-same (some m) n e = ap (λ (k : ℕ). some k) (ground (arith, e))

pub ok_or-eq-ok : {A : Type 0} (o : Option A) (e : Trouble) (a : A) → ok_or o e ≡ ok a → o ≡ some a
ok_or-eq-ok none e a h = cc
ok_or-eq-ok (some b) e a h = cc
