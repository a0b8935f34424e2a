-- ===== src/Loopback/Apartment/Balance.antt =====
-- The references to a COM object of src/virtual_sink_windows.rs: what each part leaves held.
use chromecast_sink.Base.{
  ℕ, ◌+◌, ◌≡◌, refl, ap, ◌∙◌, Bool, true, some, List, [], ◌∷◌, next_answer, later_answers, arith,
  Bool-cases, inl, inr,
}
use chromecast_sink.Loopback.Apartment.{
  Object, com_error, Act, acquire, releases, Call, get, other, choose, drop, drop_one, try_all,
  failed_with,
}
use chromecast_sink.Loopback.Apartment.Process.{
  Own, one, own_act, own, all_stay, own_append, stay_append,
}

abbrev pub holds : Bool → ℕ → Own
holds inside n = record { inside = inside; count = n }

-- The references to `x` among these.
abbrev pub count : Object → List Object → ℕ
count x [] = 0
count x (o ∷ os) = one x o + count x os

pub stay-releases : (os : List Object) → all_stay (releases os) ≡ true
stay-releases [] = refl
stay-releases (o ∷ os) = stay-releases os

stay-drop_one : (o : Object) (held : List Object) → all_stay (drop_one o held).1 ≡ true
unfolding drop_one
stay-drop_one o [] = refl
stay-drop_one o (p ∷ held) = ground (arith, stay-drop_one o held)

pub stay-try_all :
    (held : List Object) (calls : List Call) (answers : List Bool)
    → all_stay (try_all held calls answers).acts ≡ true
unfolding try_all
stay-try_all held [] answers = refl
stay-try_all held (get o ∷ calls) answers =
    ground (arith, stay-try_all (o ∷ held) calls (later_answers answers), stay-releases held)
stay-try_all held (other ∷ calls) answers =
    ground (arith, stay-try_all held calls (later_answers answers), stay-releases held)
stay-try_all held (choose o ∷ calls) answers =
    ground (arith, stay-try_all (o ∷ held) calls (later_answers answers), stay-releases held)
stay-try_all held (drop o ∷ calls) answers =
    stay_append (drop_one o held).1 _ (stay-drop_one o held)
      (stay-try_all (drop_one o held).0 calls answers)

module _ (x : Object) where
  pub own-releases :
      (i : Bool) (n k : ℕ) (os : List Object)
      → k ≡ n + count x os
      → own x (holds i k) (releases os) ≡ some (holds i n)
  unfolding own own_act
  own-releases i n k [] e = ground arith
  own-releases i n k (o ∷ os) e = ground (arith, own-releases i n (n + count x os) os refl)

  own-drop_one :
      (i : Bool) (n k : ℕ) (o : Object) (held : List Object)
      → k ≡ n + count x held
      → own x (holds i k) (drop_one o held).1 ≡ some (holds i (n + count x (drop_one o held).0))
  unfolding own own_act drop_one
  own-drop_one i n k o [] e = ground arith
  own-drop_one i n k o (p ∷ held) e = ground (arith, own-drop_one i (n + one x p) k o held)

  pub own_step :
      (t u v : Own) (a : Act) (as' : List Act)
      → own_act x t a ≡ some u
      → own x u as' ≡ some v
      → own x t (a ∷ as') ≡ some v
  unfolding own
  own_step t u v a as' first later = rw (first, own) later

  acquires :
      (i : Bool) (n : ℕ) (o : Object)
      → own_act x (holds i n) (acquire o) ≡ some (holds i (n + one x o))
  unfolding own_act
  acquires i n o = refl

  got_more :
      (i : Bool) (n : ℕ) (o : Object) (held : List Object) (acts : List Act) (t : Own)
      → own x (holds i (n + count x (o ∷ held))) acts ≡ some t
      → own x (holds i (n + count x held)) (acquire o ∷ acts) ≡ some t
  got_more i n o held acts t e =
      own_step _ _ _ (acquire o) acts (acquires i (n + count x held) o)
        (ap (λ k. own x (holds i k) acts) (omega arith) ∙ e)

  -- An early return.
  failed :
      (i : Bool) (n : ℕ) (held : List Object) (answers : List Bool)
      → let s = failed_with (com_error ∷ []) held answers in
        own x (holds i (n + count x held)) s.acts ≡ some (holds i (n + count x s.held))
  failed i n held answers =
      own_step _ _ _ (acquire com_error) (releases held) (acquires i (n + count x held) com_error)
        (own-releases i (n + (one x com_error + 0)) _ held (omega arith))

  -- Whatever the calls answer, what they leave held is what they acquired and did not release.
  pub own-try_all :
      (i : Bool) (n : ℕ) (held : List Object) (calls : List Call) (answers : List Bool)
      → let s = try_all held calls answers in
        own x (holds i (n + count x held)) s.acts ≡ some (holds i (n + count x s.held))
  unfolding try_all own
  own-try_all i n held [] answers = refl
  own-try_all i n held (get o ∷ calls) answers = elim (Bool-cases (next_answer answers)) [
    | inl got ↦
        rw got (got_more i n o held _ _ (own-try_all i n (o ∷ held) calls (later_answers answers)))
    | inr lost ↦ rw lost (failed i n held (later_answers answers))
  ]
  own-try_all i n held (other ∷ calls) answers = elim (Bool-cases (next_answer answers)) [
    | inl done ↦ rw done (own-try_all i n held calls (later_answers answers))
    | inr lost ↦ rw lost (failed i n held (later_answers answers))
  ]
  own-try_all i n held (choose o ∷ calls) answers = elim (Bool-cases (next_answer answers)) [
    | inl got ↦
        rw got (got_more i n o held _ _ (own-try_all i n (o ∷ held) calls (later_answers answers)))
    | inr lost ↦ rw lost (own-releases i (n + 0) (n + count x held) held (omega arith))
  ]
  own-try_all i n held (drop o ∷ calls) answers =
      own_append x _ _ (drop_one o held).1 _ (own-drop_one i n _ o held refl)
      ∙ own-try_all i n (drop_one o held).0 calls answers
