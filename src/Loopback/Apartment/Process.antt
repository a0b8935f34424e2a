-- ===== src/Loopback/Apartment/Process.antt =====
-- Two threads that share the COM apartment, and each of them for itself.
use mathlib.Core.Option.{some-injective}
use chromecast_sink.Base.{
  ℕ, ◌+◌, ◌-◌, ◌≡◌, refl, sym, ap, ◌∙◌, Bool, true, false, ◌&&◌, ◌||◌, Option, none, some, List, [],
  ◌∷◌, ◌++◌, map, leb, ◌==◌, if◌then◌else◌, arith, inl, inr, Option-cases,
}
use chromecast_sink.Loopback.Apartment.{
  Object, code, Act, enter, leave, acquire, release, Thread, main, pump, interleave,
}

-- Of a process: which of the two threads is in the apartment, and how many references to one object
-- are held.
pub record Process : Type 0 where
  pub main_in : Bool
  pub pump_in : Bool
  pub live : ℕ

abbrev pub is_in : Process → Bool
is_in p = p.main_in || p.pump_in

-- Whether a reference is one to the object `x`.
pub one : Object → Object → ℕ
one x o = if code x == code o then 1 else 0

abbrev pub nobody : Process
nobody = record { main_in = false; pump_in = false; live = 0 }

-- A thread for itself: whether it is in the apartment, and the references to the object
-- that it has to release.
pub record Own : Type 0 where
  pub inside : Bool
  pub count : ℕ

-- A thread that stays in the apartment.
abbrev pub is_staying : Act → Bool
is_staying enter = false
is_staying leave = false
is_staying _ = true

abbrev pub all_stay : List Act → Bool
all_stay [] = true
all_stay (a ∷ as') = is_staying a && all_stay as'

unfoldable pub both : Bool → ℕ → Own → Process
both main_in a t = record { main_in = main_in; pump_in = t.inside; live = a + t.count }

abbrev pub in_main : ℕ → Own
in_main a = record { inside = true; count = a }

pub stay_append :
    (xs ys : List Act) → all_stay xs ≡ true → all_stay ys ≡ true → all_stay (xs ++ ys) ≡ true
stay_append [] ys hx hy = hy
stay_append (x ∷ xs) ys hx hy = ground (arith, stay_append xs ys)

-- With respect to the references to the object `x`.
module _ (x : Object) where
  -- `none` where the act is wrong: a second `CoInitializeEx`, a `CoUninitialize` of a thread that is not
  -- in the apartment, or of the last one while references are held, and a reference acquired or
  -- released with no thread in the apartment, or released once too often.
  unfoldable pub follow_act : Process → Thread × Act → Option Process
  follow_act p (main, enter) = if p.main_in then none else some (record p { main_in = true })
  follow_act p (pump, enter) = if p.pump_in then none else some (record p { pump_in = true })
  follow_act p (main, leave) =
      if p.main_in && (p.pump_in || p.live == 0) then some (record p { main_in = false }) else none
  follow_act p (pump, leave) =
      if p.pump_in && (p.main_in || p.live == 0) then some (record p { pump_in = false }) else none
  follow_act p (_, acquire o) =
      if is_in p then some (record p { live = p.live + one x o }) else none
  follow_act p (_, release o) =
      if is_in p && leb (one x o) p.live then some (record p { live = p.live - one x o }) else none

  unfoldable pub follow : Process → List (Thread × Act) → Option Process
  follow p [] = some p
  follow p (a ∷ as') = elim (follow_act p a) [ none ↦ none | some p' ↦ follow p' as' ]

  unfoldable pub own_act : Own → Act → Option Own
  own_act t enter = if t.inside then none else some (record t { inside = true })
  own_act t leave = if t.inside then some (record t { inside = false }) else none
  own_act t (acquire o) = some (record t { count = t.count + one x o })
  own_act t (release o) =
      if leb (one x o) t.count then some (record t { count = t.count - one x o }) else none

  unfoldable pub own : Own → List Act → Option Own
  own t [] = some t
  own t (a ∷ as') = elim (own_act t a) [ none ↦ none | some t' ↦ own t' as' ]

  main_act :
      (a a' : ℕ) (t : Own) (x : Act)
      → is_staying x ≡ true
      → own_act (record { inside = true; count = a }) x
        ≡ some (record { inside = true; count = a' })
      → follow_act (both true a t) (main, x) ≡ some (both true a' t)
  unfolding own_act follow_act both
  main_act a a' t enter s e = absurd (cc)
  main_act a a' t leave s e = absurd (cc)
  main_act a a' t (acquire o) s e = ground arith
  main_act a a' t (release o) s e = ground arith

  pump_act :
      (a : ℕ) (t t' : Own) (x : Act)
      → own_act t x ≡ some t'
      → follow_act (both true a t) (pump, x) ≡ some (both true a t')
  unfolding own_act follow_act both
  pump_act a t t' enter e = ground arith
  pump_act a t t' leave e = ground arith
  pump_act a t t' (acquire o) e = ground arith
  pump_act a t t' (release o) e = ground arith

  own-eq-some :
      (t u : Own) (x : Act) (xs : List Act)
      → own t (x ∷ xs) ≡ some u
      → (t' : Own) × (own_act t x ≡ some t') × (own t' xs ≡ some u)
  unfolding own
  own-eq-some t u x xs e = elim (Option-cases (own_act t x)) [
    | inl wrong ↦ absurd (ground arith)
    | inr (t', e') ↦ (t', e', ground arith)
  ]

  pub own_cons :
      (t u : Own) (x : Act) (xs : List Act) → own_act t x ≡ some u → own t (x ∷ xs) ≡ own u xs
  unfolding own
  own_cons t u x xs e = rw (e, own) refl

  pub follow_cons :
      (p p' : Process) (x : Thread × Act) (xs : List (Thread × Act))
      → follow_act p x ≡ some p'
      → follow p (x ∷ xs) ≡ follow p' xs
  unfolding follow
  follow_cons p p' x xs e = rw (e, follow) refl

  stays_in :
      (a : ℕ) (t : Own) (x : Act)
      → is_staying x ≡ true
      → own_act (in_main a) x ≡ some t
      → t ≡ in_main t.count
  unfolding own_act
  stays_in a t enter s e = absurd (cc)
  stays_in a t leave s e = absurd (cc)
  stays_in a t (acquire o) s e = ground arith
  stays_in a t (release o) s e = ground arith

  -- The first step of the thread that stays.
  main_first :
      (a a' : ℕ) (t : Own) (x : Act) (xs : List Act)
      → all_stay (x ∷ xs) ≡ true
      → own (in_main a) (x ∷ xs) ≡ some (in_main a')
      → (b : ℕ) × (follow_act (both true a t) (main, x) ≡ some (both true b t))
        × (own (in_main b) xs ≡ some (in_main a'))
        × (all_stay xs ≡ true)
  main_first a a' t x xs s e =
      let (u, first, later) = own-eq-some (in_main a) (in_main a') x xs e in
      let staying : is_staying x ≡ true = ground arith in
      let same : u ≡ in_main u.count = stays_in a u x staying first in
      (
        u.count,
        main_act a u.count t x staying (first ∙ ap some same),
        ap (λ v. own v xs) (sym same) ∙ later,
        ground arith,
      )

  pub pump_follow :
      (a : ℕ) (t t' : Own) (ys : List Act)
      → own t ys ≡ some t'
      → follow (both true a t) (map (λ y. (pump, y)) ys) ≡ some (both true a t')
  unfolding follow own
  pump_follow a t t' [] e = ap some (ap (both true a) (some-injective _ _ e))
  pump_follow a t t' (y ∷ ys) e =
      let (u, first, later) = own-eq-some t t' y ys e in
      follow_cons (both true a t) (both true a u) (pump, y) _ (pump_act a t u y first)
      ∙ pump_follow a u t' ys later

  pub follow-main :
      (a a' : ℕ) (t : Own) (xs : List Act)
      → all_stay xs ≡ true
      → own (in_main a) xs ≡ some (in_main a')
      → follow (both true a t) (map (λ x. (main, x)) xs) ≡ some (both true a' t)
  unfolding follow own
  follow-main a a' t [] s e = ap some (ap (λ (o : Own). both true o.count t) (some-injective _ _ e))
  follow-main a a' t (x ∷ xs) s e =
      let (b, first, later, s') = main_first a a' t x xs s e in
      follow_cons (both true a t) (both true b t) (main, x) _ first ∙ follow-main b a' t xs s' later

  pub own_nil : {t u : Own} → own t [] ≡ some u → t ≡ u
  unfolding own
  own_nil e = some-injective _ _ e

  pub follow-interleave :
      (turns : List Bool) (xs ys : List Act) (a a' : ℕ) (t t' : Own)
      → all_stay xs ≡ true
      → own (in_main a) xs ≡ some (in_main a')
      → own t ys ≡ some t'
      → follow (both true a t) (interleave turns xs ys) ≡ some (both true a' t')
  unfolding interleave
  follow-interleave turns [] ys a a' t t' s ex ey =
      pump_follow a t t' ys ey ∙ ap some (ap (λ (o : Own). both true o.count t') (own_nil ex))
  follow-interleave turns (x ∷ xs) [] a a' t t' s ex ey =
      follow-main a a' t (x ∷ xs) s ex ∙ ap some (ap (both true a') (own_nil ey))
  follow-interleave [] (x ∷ xs) (y ∷ ys) a a' t t' s ex ey =
      let (b, first, later, s') = main_first a a' t x xs s ex in
      follow_cons (both true a t) (both true b t) (main, x) _ first
      ∙ follow-interleave [] xs (y ∷ ys) b a' t t' s' later ey
  follow-interleave (true ∷ turns) (x ∷ xs) (y ∷ ys) a a' t t' s ex ey =
      let (b, first, later, s') = main_first a a' t x xs s ex in
      follow_cons (both true a t) (both true b t) (main, x) _ first
      ∙ follow-interleave turns xs (y ∷ ys) b a' t t' s' later ey
  follow-interleave (false ∷ turns) (x ∷ xs) (y ∷ ys) a a' t t' s ex ey =
      let (u, first, later) = own-eq-some t t' y ys ey in
      follow_cons (both true a t) (both true a u) (pump, y) _ (pump_act a t u y first)
      ∙ follow-interleave turns (x ∷ xs) ys a a' u t' s ex later

  pub own_append : (t u : Own) (xs ys : List Act) → own t xs ≡ some u → own t (xs ++ ys) ≡ own u ys
  unfolding own
  own_append t u [] ys e = ap (λ v. own v ys) (own_nil e)
  own_append t u (x ∷ xs) ys e =
      let (v, first, later) = own-eq-some t u x xs e in
      own_cons t v x (xs ++ ys) first ∙ own_append v u xs ys later

  pub follow_append :
      (p q : Process) (xs ys : List (Thread × Act))
      → follow p xs ≡ some q
      → follow p (xs ++ ys) ≡ follow q ys
  unfolding follow
  follow_append p q [] ys e = ap (λ v. follow v ys) (some-injective _ _ e)
  follow_append p q (x ∷ xs) ys e = elim (Option-cases (follow_act p x)) [
    | inl wrong ↦ absurd (ground arith)
    | inr (p', first) ↦
        follow_cons p p' x (xs ++ ys) first
        ∙ follow_append p' q xs ys (sym (follow_cons p p' x xs first) ∙ e)
  ]
