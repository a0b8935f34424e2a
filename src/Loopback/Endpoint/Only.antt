-- ===== src/Loopback/Endpoint/Only.antt =====
-- That a device found by name is the only one of that name, src/virtual_sink_windows.rs.
use chromecast_sink.Base.{
  ℕ, zero, suc, ◌+◌, ◌<◌, ◌≤◌, ◌≡◌, ◌≢◌, ◌⊎◌, ◌==◌, refl, ap, ◌∙◌, sym, true, false, Option, none,
  some, List, [], ◌∷◌, arith, Bool-cases, inl, inr,
}
use chromecast_sink.Base.Result.{ok, >>=-eq-ok, ok-injective}
use chromecast_sink.Channel.Utf8.{Text}
use chromecast_sink.Discovery.{contains}
use chromecast_sink.Loopback.Endpoint.{
  EndpointError, other_call, Answered, named, items_from, items_of, render_endpoints, matching,
  single, find_render_endpoint,
}

-- A device with a name comes from an answer with both.
named-eq-ok :
    {A : Type 0} (e : EndpointError) (o : Option (A × Option Text)) (d : A) (n : Text)
    → named e o ≡ ok (d, n)
    → o ≡ some (d, some n)
unfolding named
named-eq-ok e none d n h = absurd (cc)
named-eq-ok e (some (d', none)) d n h = absurd (cc)
named-eq-ok e (some (d', some n')) d n h = ap (λ p. some (p.0, some p.1)) (ok-injective h)

module _ {A : Type 0} (item : ℕ → Option (A × Option Text)) where
  -- A step of the loop that succeeds.
  items_from-suc :
      (i n : ℕ) (all : List (A × Text))
      → items_from item i (suc n) ≡ ok all
      → (d : A) × (name : Text) × (rest : List (A × Text)) × (item i ≡ some (d, some name))
        × (items_from item (suc i) n ≡ ok rest)
        × (all ≡ (d, name) ∷ rest)
  unfolding items_from
  items_from-suc i n all h =
      let ((d, name), here, later) = >>=-eq-ok (named other_call (item i)) _ all h in
      let (rest, there, whole) = >>=-eq-ok (items_from item (suc i) n) _ all later in
      (d, name, rest, named-eq-ok other_call (item i) d name here, there, sym (ok-injective whole))

items_of-eq-ok :
    {A : Type 0} (count : Option ℕ) (item : ℕ → Option (A × Option Text)) (all : List (A × Text))
    → items_of count item ≡ ok all
    → (n : ℕ) × (count ≡ some n) × (items_from item 0 n ≡ ok all)
items_of-eq-ok none item all h = absurd (cc)
items_of-eq-ok (some n) item all h = (n, refl, h)

-- The enumeration that succeeds has counted the devices and asked for each.
render_endpoints-eq-ok :
    {A : Type 0} (a : Answered A) (all : List (A × Text))
    → render_endpoints a ≡ ok all
    → (n : ℕ) × (a.count ≡ some n) × (items_from a.item 0 n ≡ ok all)
unfolding render_endpoints
render_endpoints-eq-ok a all h = items_of-eq-ok a.count a.item all (ground arith)

module _ {A : Type 0} (lower : Text → Text) (needle : Text) where
  -- Without a hit.
  matching-none :
      (p : A × Text) (all : List (A × Text))
      → matching lower needle (p ∷ all) ≡ []
      → (contains (lower p.1) needle ≡ false) × (matching lower needle all ≡ [])
  unfolding matching
  matching-none (d, n) all h = elim (Bool-cases (contains (lower n) needle)) [
    | inl hit ↦ absurd (ground arith)
    | inr miss ↦ (miss, ground arith)
  ]

  -- With one hit: the first device, or one behind it.
  matching-one :
      (p : A × Text) (all : List (A × Text)) (q : A × Text)
      → matching lower needle (p ∷ all) ≡ q ∷ []
      → ((contains (lower p.1) needle ≡ true) × (p ≡ q) × (matching lower needle all ≡ []))
        ⊎ ((contains (lower p.1) needle ≡ false) × (matching lower needle all ≡ q ∷ []))
  unfolding matching
  matching-one (d, n) all q h = elim (Bool-cases (contains (lower n) needle)) [
    | inl hit ↦ inl (hit, ground arith, ground arith)
    | inr miss ↦ inr (miss, ground arith)
  ]

single-eq-ok :
    {A : Type 0} (all hits : List (A × Text)) (p : A × Text)
    → single all hits ≡ ok p
    → hits ≡ p ∷ []
unfolding single
single-eq-ok all [] p h = absurd (cc)
single-eq-ok all (hit ∷ []) p h = ap (λ x. x ∷ []) (ok-injective h)
single-eq-ok all (hit ∷ other ∷ more) p h = absurd (cc)

module _ {A : Type 0} (lower : Text → Text) (needle : Text)
    (item : ℕ → Option (A × Option Text)) where
  -- No device from the `i`th of `n` has the wanted name.
  abbrev Misses : ℕ → ℕ → Type 0
  Misses i n =
      (j : ℕ) (d : A) (name : Text)
      → i ≤ j
      → j < i + n
      → item j ≡ some (d, some name)
      → contains (lower name) needle ≡ false

  -- The `k`th device is this one and has the wanted name, and no other device has.
  abbrev pub IsOnly : ℕ → ℕ → A → Text → Type 0
  IsOnly i n d name =
      (k : ℕ) × (i ≤ k)
      × (k < i + n)
      × (item k ≡ some (d, some name))
      × (contains (lower name) needle ≡ true)
      × ((j : ℕ) (d' : A) (name' : Text)
          → i ≤ j
          → j < i + n
          → j ≢ k
          → item j ≡ some (d', some name')
          → contains (lower name') needle ≡ false)

  -- The name of a device is the one that its answer gives.
  same_name :
      {d d' : A} {m m' : Text} (j i : ℕ)
      → j ≡ i
      → item i ≡ some (d, some m)
      → item j ≡ some (d', some m')
      → contains (lower m) needle ≡ false
      → contains (lower m') needle ≡ false
  same_name j i e at_i at_j miss = grind arith

  items-Misses :
      (i n : ℕ) (all : List (A × Text))
      → items_from item i n ≡ ok all
      → matching lower needle all ≡ []
      → Misses i n
  items-Misses i zero all h none_match j d' name' low high at_j = absurd (omega arith)
  items-Misses i (suc n) all h none_match j d' name' low high at_j =
      let (d, name, rest, here, there, whole) = items_from-suc item i n all h in
      let (miss, later) =
        matching-none lower needle (d, name) rest
          (ap (matching lower needle) (sym whole) ∙ none_match) in
      elim (Bool-cases (j == i)) [
        | inl same ↦ same_name j i (ground arith) here at_j miss
        | inr other ↦
            items-Misses (suc i) n rest there later j d' name' (ground arith) (omega arith) at_j
      ]

  items-IsOnly :
      (i n : ℕ) (all : List (A × Text)) (d : A) (name : Text)
      → items_from item i n ≡ ok all
      → matching lower needle all ≡ (d, name) ∷ []
      → IsOnly i n d name
  unfolding items_from matching
  items-IsOnly i zero all d name h one = absurd (ground arith)
  items-IsOnly i (suc n) all d name h one =
      let (d', name', rest, here, there, whole) = items_from-suc item i n all h in
      elim (matching-one lower needle (d', name') rest (d, name)
        (ap (matching lower needle) (sym whole) ∙ one)) [
          | inl (hit, same, later) ↦ (
            i,
            omega arith,
            omega arith,
            here ∙ ap (λ p. some (p.0, some p.1)) same,
            ap (λ p. contains (lower p.1) needle) (sym same) ∙ hit,
            λ j d'' name'' low high other at_j.
                items-Misses (suc i) n rest there later j d'' name'' (omega arith) (omega arith)
                  at_j,
          )
          | inr (miss, later) ↦
              (let (k, low, high, at_k, hit, rest_miss) =
                  items-IsOnly (suc i) n rest d name there later in
                (
                  k,
                  omega arith,
                  omega arith,
                  at_k,
                  hit,
                  λ j d'' name'' low' high' other at_j. elim (Bool-cases (j == i)) [
                    | inl same ↦ same_name j i (ground arith) here at_j miss
                    | inr above ↦ rest_miss j d'' name'' (ground arith) (omega arith) other at_j
                  ],
                ))
        ]

-- A playback device that is found by a name is one of those that the enumeration counted, its own name
-- has the wanted one in it, case aside, and no other of them has such a name.
pub find_render_endpoint-IsOnly :
    {A : Type 0} (lower : Text → Text) (wanted : Text) (a : Answered A) (d : A) (name : Text)
    → find_render_endpoint lower wanted a ≡ ok (d, name)
    → (n : ℕ) × (a.count ≡ some n) × IsOnly lower (lower wanted) a.item 0 n d name
unfolding find_render_endpoint
find_render_endpoint-IsOnly lower wanted a d name h =
    let (all, listed, chosen) = >>=-eq-ok (render_endpoints a) _ (d, name) h in
    let (n, counted, items) = render_endpoints-eq-ok a all listed in
    (
      n,
      counted,
      items-IsOnly lower (lower wanted) a.item 0 n all d name items
          (single-eq-ok all _ (d, name) chosen),
    )
