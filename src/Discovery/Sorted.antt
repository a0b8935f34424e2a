-- ===== src/Discovery/Sorted.antt =====
-- The sort by name of src/discovery.rs does not depend on the order it starts from.
use mathlib.Core.List.Permᴰ.{Permᴰ}
use mathlib.Core.Path.{ap₂, subst}
use chromecast_sink.Base.{
  ◌≡◌, ◌≢◌, refl, ap, ◌∙◌, sym, Bool, true, false, List, [], ◌∷◌, All, Bool-cases, inl, inr, arith,
}
use chromecast_sink.Channel.Utf8.{Text}
use chromecast_sink.Discovery.{Device, name_le, insert_sorted, sort}

name_le_antisym : (s t : Text) → name_le s t ≡ true → name_le t s ≡ true → s ≡ t
unfolding name_le
name_le_antisym [] [] h k = refl
name_le_antisym [] (b ∷ t) h k = cc
name_le_antisym (a ∷ s) [] h k = cc
name_le_antisym (a ∷ s) (b ∷ t) h k =
    let e : a ≡ b = ground (arith, h, k) in
    ap₂ ◌∷◌ e (name_le_antisym s t (ground (arith, h, e)) (ground (arith, k, e)))

name_le_total : (s t : Text) → name_le s t ≡ false → name_le t s ≡ true
unfolding name_le
name_le_total [] t h = cc
name_le_total (a ∷ s) [] h = refl
name_le_total (a ∷ s) (b ∷ t) h = ground (arith, h, name_le_total s t)

name_le_trans : (s t u : Text) → name_le s t ≡ true → name_le t u ≡ true → name_le s u ≡ true
unfolding name_le
name_le_trans [] t u h k = refl
name_le_trans (a ∷ s) [] u h k = cc
name_le_trans (a ∷ s) (b ∷ t) [] h k = cc
name_le_trans (a ∷ s) (b ∷ t) (c ∷ u) h k = ground (arith, h, k, name_le_trans s t u)

abbrev pub IsApart : Device → Device → Type 0
IsApart d e = d.friendly_name ≢ e.friendly_name

-- Each name occurs once.
abbrev pub IsUnique : List Device → Type 0
IsUnique [] = Unit
IsUnique (d ∷ ds) = All (IsApart d) ds × IsUnique ds

abbrev le : Device → Device → Bool
le d e = name_le d.friendly_name e.friendly_name

insert-le :
    (d e : Device) (es : List Device) → le d e ≡ true → insert_sorted d (e ∷ es) ≡ d ∷ e ∷ es
unfolding insert_sorted
insert-le d e es h = rw (h, insert_sorted) refl

insert-gt :
    (d e : Device) (es : List Device)
    → le d e ≡ false
    → insert_sorted d (e ∷ es) ≡ e ∷ insert_sorted d es
unfolding insert_sorted
insert-gt d e es h = rw (h, insert_sorted) refl

not_above : (d e : Device) → IsApart d e → le d e ≡ true → le e d ≡ false
not_above d e apart h = elim (Bool-cases (le e d)) [
  | inl k ↦ absurd (apart (name_le_antisym d.friendly_name e.friendly_name h k))
  | inr k ↦ k
]

insert_sorted_comm_le :
    (d e : Device) (es : List Device)
    → le d e ≡ true
    → le e d ≡ false
    → insert_sorted d (insert_sorted e es) ≡ insert_sorted e (insert_sorted d es)
unfolding insert_sorted
insert_sorted_comm_le d e [] h k = insert-le d e [] h ∙ sym (insert-gt e d [] k)
insert_sorted_comm_le d e (c ∷ cs) h k = elim (Bool-cases (le e c)) [
  | inl ec ↦
      ap (insert_sorted d) (insert-le e c cs ec)
      ∙ insert-le d e (c ∷ cs) h
      ∙ ap (λ t. d ∷ t) (sym (insert-le e c cs ec))
      ∙ sym (insert-gt e d (c ∷ cs) k)
      ∙ ap (insert_sorted e) (
          sym
            (insert-le d c cs (name_le_trans d.friendly_name e.friendly_name c.friendly_name h ec)))
  | inr ec ↦ elim (Bool-cases (le d c)) [
    | inl dc ↦
        ap (insert_sorted d) (insert-gt e c cs ec)
        ∙ insert-le d c (insert_sorted e cs) dc
        ∙ ap (λ t. d ∷ t) (sym (insert-gt e c cs ec))
        ∙ sym (insert-gt e d (c ∷ cs) k)
        ∙ ap (insert_sorted e) (sym (insert-le d c cs dc))
    | inr dc ↦
        ap (insert_sorted d) (insert-gt e c cs ec)
        ∙ insert-gt d c (insert_sorted e cs) dc
        ∙ ap (λ t. c ∷ t) (insert_sorted_comm_le d e cs h k)
        ∙ sym (insert-gt e c (insert_sorted d cs) ec)
        ∙ ap (insert_sorted e) (sym (insert-gt d c cs dc))
  ]
]

insert_sorted_comm :
    (d e : Device) (es : List Device)
    → IsApart d e
    → insert_sorted d (insert_sorted e es) ≡ insert_sorted e (insert_sorted d es)
insert_sorted_comm d e es apart = elim (Bool-cases (le d e)) [
  | inl h ↦ insert_sorted_comm_le d e es h (not_above d e apart h)
  | inr h ↦ sym (insert_sorted_comm_le e d es (name_le_total d.friendly_name e.friendly_name h) h)
]

All-perm : (P : Device → Type 0) {xs ys : List Device} → Permᴰ xs ys → All P xs → All P ys
All-perm P Permᴰ.nil h = h
All-perm P (Permᴰ.cons e p) (h, hs) = (subst P e h, All-perm P p hs)
All-perm P (Permᴰ.swap e f) (h, (k, hs)) = (subst P f k, (subst P e h, hs))
All-perm P (Permᴰ.trans p q) h = All-perm P q (All-perm P p h)

abbrev name : Device → Text
name d = d.friendly_name

perm-IsUnique : {xs ys : List Device} → Permᴰ xs ys → IsUnique xs → IsUnique ys
perm-IsUnique Permᴰ.nil h = h
perm-IsUnique (Permᴰ.cons {a = a} {l₂ = ys} e p) (h, u) =
    (subst (λ d. All (IsApart d) ys) e (All-perm (IsApart a) p h), perm-IsUnique p u)
perm-IsUnique (Permᴰ.swap {l = l} e f) ((apart, h), (k, u)) = (
  (λ q. apart (ap name e ∙ sym q ∙ sym (ap name f)), subst (λ d. All (IsApart d) l) f k),
  (subst (λ d. All (IsApart d) l) e h, u),
)
perm-IsUnique (Permᴰ.trans p q) h = perm-IsUnique q (perm-IsUnique p h)

-- Two orders of the same devices, each name once, are sorted alike.
pub sort-perm : {xs ys : List Device} → Permᴰ xs ys → IsUnique xs → sort xs ≡ sort ys
unfolding sort
sort-perm Permᴰ.nil h = refl
sort-perm (Permᴰ.cons e p) (h, u) = ap₂ insert_sorted e (sort-perm p u)
sort-perm (Permᴰ.swap {a = a} {b = b} {l = l} e f) ((apart, h), (k, u)) =
    insert_sorted_comm a b (sort l) apart
    ∙ ap₂ (λ d c. insert_sorted d (insert_sorted c (sort l))) f e
sort-perm (Permᴰ.trans p q) h = sort-perm p h ∙ sort-perm q (perm-IsUnique p h)
