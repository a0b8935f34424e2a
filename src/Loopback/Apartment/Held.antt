-- ===== src/Loopback/Apartment/Held.antt =====
-- What the set-up of src/virtual_sink_windows.rs holds where every COM call succeeds.
use chromecast_sink.Base.{
  ℕ, zero, suc, ◌≡◌, refl, ap, ◌∙◌, Bool, true, false, Option, none, some, List, [], ◌∷◌, ◌++◌, map,
  later_answers, ◌==◌, arith,
}
use chromecast_sink.Loopback.Apartment.{
  Object, code, device, Call, get, other, choose, drop, endpoint, collection, enumerator, render,
  render_client, capture, capture_client, agile, items, drops, find_endpoint, start_calls, drop_one,
  try_all, agile_loopback, start_capture, agile_new,
}

-- What is held where every call succeeds.
abbrev left : List Object → List Call → List Object
left held [] = held
left held (get o ∷ calls) = left (o ∷ held) calls
left held (other ∷ calls) = left held calls
left held (choose o ∷ calls) = left (o ∷ held) calls
left held (drop o ∷ calls) = left (drop_one o held).0 calls

held-try_all :
    (held : List Object) (calls : List Call) (answers : List Bool)
    → (try_all held calls answers).well ≡ true
    → (try_all held calls answers).held ≡ left held calls
unfolding try_all
held-try_all held [] answers h = refl
held-try_all held (get o ∷ calls) answers h =
    ground (arith, held-try_all (o ∷ held) calls (later_answers answers))
held-try_all held (other ∷ calls) answers h =
    ground (arith, held-try_all held calls (later_answers answers))
held-try_all held (choose o ∷ calls) answers h =
    ground (arith, held-try_all (o ∷ held) calls (later_answers answers))
held-try_all held (drop o ∷ calls) answers h = held-try_all (drop_one o held).0 calls answers h

left-append : (held : List Object) (a b : List Call) → left held (a ++ b) ≡ left (left held a) b
left-append held [] b = refl
left-append held (get o ∷ a) b = left-append (o ∷ held) a b
left-append held (other ∷ a) b = left-append held a b
left-append held (choose o ∷ a) b = left-append (o ∷ held) a b
left-append held (drop o ∷ a) b = left-append (drop_one o held).0 a b

-- `n` devices on top.
abbrev stack : ℕ → List Object → List Object
stack zero held = held
stack (suc n) held = stack n (endpoint ∷ held)

left-items : (n : ℕ) (held : List Object) → left held (items n) ≡ stack n held
unfolding items drop_one
left-items zero held = refl
left-items (suc n) held = left-items n (endpoint ∷ held)

drop_under :
    (n : ℕ) (o : Object) (held : List Object)
    → code o == code endpoint ≡ false
    → (drop_one o (stack n held)).0 ≡ stack n (drop_one o held).0
unfolding drop_one
drop_under zero o held h = refl
drop_under (suc n) o held h = drop_under n o (endpoint ∷ held) h ∙ ap (stack n) (ground arith)

drop_top : (n : ℕ) (held : List Object) → (drop_one endpoint (stack (suc n) held)).0 ≡ stack n held
unfolding drop_one
drop_top zero held = refl
drop_top (suc n) held = drop_top n (endpoint ∷ held)

left-drops : (n : ℕ) → left (device ∷ stack n []) (drops n) ≡ device ∷ []
unfolding drops drop_one
left-drops zero = refl
left-drops (suc n) = ap (λ held. left (device ∷ held) (drops n)) (drop_top n []) ∙ left-drops n

left-find_endpoint : (wanted : Option ℕ) → left [] (find_endpoint wanted) ≡ device ∷ []
unfolding find_endpoint drop_one
left-find_endpoint none = refl
left-find_endpoint (some n) =
    left-append (collection ∷ enumerator ∷ []) (items n) _
    ∙ ap (λ held. left held (drop collection ∷ drop enumerator ∷ choose device ∷ drops n))
        (left-items n (collection ∷ enumerator ∷ []))
    ∙ ap (λ held. left held (drop enumerator ∷ choose device ∷ drops n))
        (drop_under n collection (collection ∷ enumerator ∷ []) refl)
    ∙ ap (λ held. left (device ∷ held) (drops n)) (drop_under n enumerator (enumerator ∷ []) refl)
    ∙ left-drops n

pub held-start_capture :
    (wanted : Option ℕ) (answers : List Bool)
    → (start_capture wanted answers).well ≡ true
    → (start_capture wanted answers).held ≡ render ∷ render_client ∷ capture ∷ capture_client ∷ []
unfolding start_capture drop_one
held-start_capture wanted answers h =
    held-try_all [] (find_endpoint wanted ++ start_calls) answers h
    ∙ left-append [] (find_endpoint wanted) start_calls
    ∙ ap (λ held. left held start_calls) (left-find_endpoint wanted)

pub held-agile_new :
    (answers : List Bool)
    → (agile_new answers).well ≡ true
    → (agile_new answers).held
      ≡ agile render ∷ agile render_client ∷ agile capture ∷ agile capture_client ∷ []
unfolding agile_new
held-agile_new answers h = held-try_all [] (map get agile_loopback) answers h
