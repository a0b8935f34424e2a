-- ===== src/Base/Slices.antt =====
-- Slices of a list that grows at its end, and single items of them.
use Prim.Native.Nat.{ℕ, zero, suc, ◌+◌, ◌≤◌, ◌<◌}
use mathlib.Core.Path.{◌≡◌, refl, ap, sym, ◌∙◌}
use mathlib.Core.Logic.{◌≢◌}
use mathlib.Core.List.{List, [], ◌∷◌, ◌++◌}
use native.Mathlib.Omega.{arith}
use chromecast_sink.Base.Lists.{
  length, get_or, set, take, drop, length-drop, take-append_le, drop-append_le,
}

-- `n` items from index `p` on.
abbrev pub slice {ℓ} : {A : Type ℓ} → ℕ → ℕ → List A → List A
slice p n xs = take n (drop p xs)

module _ {ℓ} {A : Type ℓ} where
  pub get_or-set_self :
      (xs : List A) (i : ℕ) (v d : A) → i < length xs → get_or (set xs i v) i d ≡ v
  get_or-set_self [] i v d h = absurd (omega arith)
  get_or-set_self (x ∷ xs) zero v d h = refl
  get_or-set_self (x ∷ xs) (suc i) v d h = get_or-set_self xs i v d (omega arith)

  pub get_or-set_ne :
      (xs : List A) (i j : ℕ) (v d : A) → i ≢ j → get_or (set xs i v) j d ≡ get_or xs j d
  get_or-set_ne [] i j v d h = refl
  get_or-set_ne (x ∷ xs) zero zero v d h = absurd (h refl)
  get_or-set_ne (x ∷ xs) zero (suc j) v d h = refl
  get_or-set_ne (x ∷ xs) (suc i) zero v d h = refl
  get_or-set_ne (x ∷ xs) (suc i) (suc j) v d h = get_or-set_ne xs i j v d (λ e. h (ap suc e))

  pub get_or-append :
      (xs ys : List A) (i : ℕ) (d : A) → i < length xs → get_or (xs ++ ys) i d ≡ get_or xs i d
  get_or-append [] ys i d h = absurd (omega arith)
  get_or-append (x ∷ xs) ys zero d h = refl
  get_or-append (x ∷ xs) ys (suc i) d h = get_or-append xs ys i d (omega arith)

  pub get_or-drop :
      (p : ℕ) (xs : List A) (i : ℕ) (d : A) → get_or (drop p xs) i d ≡ get_or xs (p + i) d
  get_or-drop zero xs i d = let e : i ≡ 0 + i = omega arith in ap (λ (t : ℕ). get_or xs t d) e
  get_or-drop (suc p) [] i d = refl
  get_or-drop (suc p) (x ∷ xs) i d =
      let e : suc (p + i) ≡ suc p + i = omega arith in
      get_or-drop p xs i d ∙ ap (λ (t : ℕ). get_or (x ∷ xs) t d) e

  take-push :
      (n : ℕ) (xs : List A) (d : A)
      → n < length xs
      → take n xs ++ (get_or xs n d ∷ []) ≡ take (suc n) xs
  take-push n [] d h = absurd (omega arith)
  take-push zero (x ∷ xs) d h = refl
  take-push (suc n) (x ∷ xs) d h = ap (λ t. x ∷ t) (take-push n xs d (omega arith))

  -- A slice grows by the item behind it.
  pub slice-push :
      (p n : ℕ) (xs : List A) (d : A)
      → p + n < length xs
      → slice p n xs ++ (get_or xs (p + n) d ∷ []) ≡ slice p (suc n) xs
  slice-push p n xs d h =
      ap (λ v. slice p n xs ++ (v ∷ [])) (sym (get_or-drop p xs n d))
      ∙ take-push n (drop p xs) d (omega (arith, length-drop p xs))

  pub slice-append :
      (p n : ℕ) (xs ys : List A) → p + n ≤ length xs → slice p n (xs ++ ys) ≡ slice p n xs
  slice-append p n xs ys h =
      ap (take n) (drop-append_le p xs ys (omega arith))
      ∙ take-append_le n (drop p xs) ys (omega (arith, length-drop p xs))

  -- What is left behind the first item.
  pub drop-step :
      (p : ℕ) (xs : List A) (x d : A) (rest : List A)
      → drop p xs ≡ x ∷ rest
      → (get_or xs p d ≡ x) × (drop (suc p) xs ≡ rest)
  drop-step zero [] x d rest e = cc
  drop-step (suc p) [] x d rest e = cc
  drop-step zero (y ∷ xs) x d rest e = ground arith
  drop-step (suc p) (y ∷ xs) x d rest e = drop-step p xs x d rest e
