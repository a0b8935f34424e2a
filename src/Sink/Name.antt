-- ===== src/Sink/Name.antt =====
-- The names that `sanitize_sink_name` of src/virtual_sink.rs makes.
use chromecast_sink.Base.{
  ℕ, ◌≡◌, refl, ap, ◌∙◌, sym, Bool, true, false, not, ◌&&◌, ◌||◌, List, [], ◌∷◌, ◌++◌, append_assoc,
  append-nil, leb, ◌==◌, if◌then◌else◌, arith, Bool-cases, inl, inr, ◌⊎◌,
}
use chromecast_sink.Sink.{
  underscore, is_ascii_alphanumeric, to_lowercase, name_stem, sanitize_loop, pop_underscores,
  sanitize_sink_name,
}

-- a to z, 0 to 9
abbrev pub is_name_char : ℕ → Bool
is_name_char c = (leb 0x30 c && leb c 0x39) || (leb 0x61 c && leb c 0x7a)

-- Only such characters, and underscores of which no two are neighbours; `after` is whether an
-- underscore stands before.
abbrev pub is_clean : Bool → List ℕ → Bool
is_clean after [] = true
is_clean after (c ∷ cs) =
    let rest = is_clean true cs in
    let other = is_clean false cs in
    if c == underscore then not after && rest else is_name_char c && other

abbrev pub ends_marked : Bool → List ℕ → Bool
ends_marked after [] = after
ends_marked after (c ∷ cs) = ends_marked (c == underscore) cs

is_clean-push :
    (after : Bool) (a : List ℕ) (c : ℕ)
    → is_clean after a ≡ true
    → (if c == underscore then not (ends_marked after a) else is_name_char c) ≡ true
    → is_clean after (a ++ (c ∷ [])) ≡ true
is_clean-push after [] c h k = ground arith
is_clean-push after (x ∷ a) c h k = ground (arith, is_clean-push (x == underscore) a c)

ends_marked-push :
    (after : Bool) (a : List ℕ) (c : ℕ) → ends_marked after (a ++ (c ∷ [])) ≡ (c == underscore)
ends_marked-push after [] c = refl
ends_marked-push after (x ∷ a) c = ends_marked-push (x == underscore) a c

lowercase_char :
    (c : ℕ)
    → is_ascii_alphanumeric c ≡ true
    → (is_name_char (to_lowercase c) ≡ true) × ((to_lowercase c == underscore) ≡ false)
lowercase_char c h = ground arith

sanitize_loop_clean :
    (out : List ℕ) (prev_us : Bool) (name : List ℕ)
    → is_clean false out ≡ true
    → ends_marked false out ≡ prev_us
    → is_clean false (sanitize_loop out prev_us name) ≡ true
unfolding sanitize_loop
sanitize_loop_clean out prev_us [] h e = h
sanitize_loop_clean out prev_us (c ∷ cs) h e = elim (Bool-cases (is_ascii_alphanumeric c)) [
  | inl alnum ↦ rw alnum (
      sanitize_loop_clean (out ++ (to_lowercase c ∷ [])) false cs
        (is_clean-push false out (to_lowercase c) h (ground (arith, lowercase_char c alnum)))
        (ends_marked-push false out (to_lowercase c) ∙ (lowercase_char c alnum).1))
  | inr other ↦ elim (Bool-cases prev_us) [
    | inl again ↦ rw (other, again) (sanitize_loop_clean out true cs h (e ∙ again))
    | inr first ↦
        rw (other, first)
          (sanitize_loop_clean (out ++ (underscore ∷ [])) true cs
            (is_clean-push false out underscore h (ground arith))
            (ends_marked-push false out underscore))
  ]
]

sanitize_loop-append :
    (out : List ℕ) (prev_us : Bool) (name : List ℕ)
    → (rest : List ℕ) × (sanitize_loop out prev_us name ≡ out ++ rest)
unfolding sanitize_loop
sanitize_loop-append out prev_us [] = ([], sym (append-nil out))
sanitize_loop-append out prev_us (c ∷ cs) = elim (Bool-cases (is_ascii_alphanumeric c)) [
  | inl alnum ↦
      let (rest, e) = sanitize_loop-append (out ++ (to_lowercase c ∷ [])) false cs in
      (to_lowercase c ∷ rest, rw alnum (e ∙ append_assoc out (to_lowercase c ∷ []) rest))
  | inr other ↦ elim (Bool-cases prev_us) [
    | inl again ↦ let (rest, e) = sanitize_loop-append out true cs in (rest, rw (other, again) e)
    | inr first ↦
        let (rest, e) = sanitize_loop-append (out ++ (underscore ∷ [])) true cs in
        (underscore ∷ rest, rw (other, first) (e ∙ append_assoc out (underscore ∷ []) rest))
  ]
]

List-cases : (xs : List ℕ) → (xs ≡ []) ⊎ ((y : ℕ) × (ys : List ℕ) × (xs ≡ y ∷ ys))
List-cases [] = inl refl
List-cases (x ∷ xs) = inr (x, xs, refl)

pop_underscores_clean :
    (after : Bool) (a : List ℕ)
    → is_clean after a ≡ true
    → is_clean after (pop_underscores a) ≡ true
unfolding pop_underscores
pop_underscores_clean after [] h = refl
pop_underscores_clean after (c ∷ cs) h = elim (List-cases (pop_underscores cs)) [
  | inl e ↦ ground arith
  | inr (d, ds, e) ↦ ground (arith, pop_underscores_clean (c == underscore) cs)
]

pop_underscores_ends :
    (a : List ℕ) (after : Bool)
    → (pop_underscores a ≡ []) ⊎ (ends_marked after (pop_underscores a) ≡ false)
unfolding pop_underscores
pop_underscores_ends [] after = inl refl
pop_underscores_ends (c ∷ cs) after = elim (List-cases (pop_underscores cs)) [
  | inl e ↦ elim (Bool-cases (c == underscore)) [
    | inl marked ↦ inl (ground arith)
    | inr plain ↦ inr (ground arith)
  ]
  | inr (d, ds, e) ↦ inr (ground (arith, pop_underscores_ends cs (c == underscore)))
]

pop_underscores-stem :
    (xs : List ℕ) → pop_underscores (name_stem ++ xs) ≡ name_stem ++ pop_underscores xs
unfolding pop_underscores
pop_underscores-stem xs = elim (List-cases (pop_underscores xs)) [
  | inl e ↦ rw e
  | inr (d, ds, e) ↦ rw e
]

-- Of any device name the name of the sink begins with "chromecast_sink", holds only a to z, 0 to 9
-- and underscores of which no two are neighbours, and does not end in one.
pub sanitize_sink_name_lem :
    (name : List ℕ)
    → (is_clean false (sanitize_sink_name name) ≡ true)
      × (ends_marked false (sanitize_sink_name name) ≡ false)
      × ((rest : List ℕ) × (sanitize_sink_name name ≡ name_stem ++ rest))
unfolding sanitize_sink_name
sanitize_sink_name_lem name =
    let (rest, e) = sanitize_loop-append (name_stem ++ (underscore ∷ [])) true name in
    let whole = ap pop_underscores e ∙ pop_underscores-stem (underscore ∷ rest) in
    (
      pop_underscores_clean false _
          (sanitize_loop_clean (name_stem ++ (underscore ∷ [])) true name refl refl),
      elim (pop_underscores_ends (sanitize_loop (name_stem ++ (underscore ∷ [])) true name) false) [
        | inl nothing ↦ ground arith
        | inr ends ↦ ends
      ],
      (pop_underscores (underscore ∷ rest), whole),
    )
