-- ===== src/Discovery/Order.antt =====
-- src/discovery.rs: the list that `discover` returns, whatever the order of its hash map.
use mathlib.Core.List.Permᴰ.{Permᴰ}
use chromecast_sink.Base.{
  ℕ, ◌≡◌, ◌≢◌, refl, ap, ◌∙◌, sym, Bool, true, false, Option, none, some, List, [], ◌∷◌, map, All,
  leb, Bool-cases, inl, inr, same_text, same_text-eq, same_text_refl,
}
use chromecast_sink.Channel.Utf8.{Text}
use chromecast_sink.Discovery.{
  Device, Entries, insert, Found, Browse, ServiceEvent, resolved, other_event, nothing, After, next,
  leave, check_quiet, add_device, on_event, after_event, browse, wanted_only, discover, from_txt,
  txt_of,
}
use chromecast_sink.Discovery.Sorted.{IsApart, IsUnique, sort-perm}

abbrev NamesApart : Text → Entries Device → Type 0
NamesApart key es = All (λ (e : Text × Device). key ≢ e.0) es

-- Each key once, and each device under its own name.
abbrev IsKeyed : Entries Device → Type 0
IsKeyed [] = Unit
IsKeyed ((k, d) ∷ es) = (k ≡ d.friendly_name) × NamesApart k es × IsKeyed es

insert-NamesApart :
    (key name : Text) (d : Device) (es : Entries Device)
    → key ≢ name
    → NamesApart key es
    → NamesApart key (insert es name d)
unfolding insert
insert-NamesApart key name d [] ne h = (ne, tt)
insert-NamesApart key name d ((k, e) ∷ es) ne (apart, h) = elim (Bool-cases (same_text k name)) [
  | inl same ↦ rw (same, insert) (apart, h)
  | inr other ↦ rw (other, insert) (apart, insert-NamesApart key name d es ne h)
]

insert-IsKeyed :
    (d : Device) (es : Entries Device) → IsKeyed es → IsKeyed (insert es d.friendly_name d)
unfolding insert
insert-IsKeyed d [] h = (refl, tt, tt)
insert-IsKeyed d ((k, e) ∷ es) (own, apart, h) = elim (Bool-cases (same_text k d.friendly_name)) [
  | inl same ↦ rw (same, insert) (same_text-eq k d.friendly_name same, apart, h)
  | inr other ↦
      let ne : k ≢ d.friendly_name =
        λ q. let same = ap (same_text k) (sym q) ∙ same_text_refl k in cc in
      rw (other, insert)
        (own, insert-NamesApart k d.friendly_name d es ne apart, insert-IsKeyed d es h)
]

on_event-IsKeyed :
    (wanted : Option Text) (new_at : ℕ) (f : Found) (e : ServiceEvent)
    → IsKeyed f.devices
    → IsKeyed (on_event wanted new_at f e).0.devices
unfolding on_event add_device
on_event-IsKeyed wanted new_at f (resolved [] port props) h = h
on_event-IsKeyed wanted new_at f (resolved (ip ∷ ips) port props) h =
    added (from_txt ip port (txt_of props []))
  where
    added : (o : Option Device) → IsKeyed (add_device wanted new_at f o).0.devices
    added none = h
    added (some d) = insert-IsKeyed d f.devices h
on_event-IsKeyed wanted new_at f other_event h = h
on_event-IsKeyed wanted new_at f (nothing disconnected) h = h

by_after :
    (f f' : Found) (a : After) (quiet_now : Bool)
    → IsKeyed f'.devices
    → IsKeyed f.devices
    → IsKeyed (after_event a quiet_now f' f).devices
by_after f f' next quiet_now h k = k
by_after f f' leave quiet_now h k = h
by_after f f' check_quiet true h k = h
by_after f f' check_quiet false h k = k

browse-IsKeyed :
    (wanted : Option Text) (deadline : ℕ) (f : Found) (bs : List Browse)
    → IsKeyed f.devices
    → IsKeyed (browse wanted deadline f bs).devices
unfolding browse
browse-IsKeyed wanted deadline f [] h = h
browse-IsKeyed wanted deadline f (b ∷ bs) h =
    let h' = on_event-IsKeyed wanted b.new_at f b.event h in
    let rest = browse-IsKeyed wanted deadline (on_event wanted b.new_at f b.event).0 bs h' in
    elim (Bool-cases (leb deadline b.now)) [
      | inl late ↦ rw (late, browse) h
      | inr early ↦
          rw (early, browse) (by_after _ _ (on_event wanted b.new_at f b.event).1 _ h' rest)
    ]

All-IsApart :
    (k : Text) (d : Device) (es : Entries Device)
    → k ≡ d.friendly_name
    → NamesApart k es
    → IsKeyed es
    → All (IsApart d) (map (λ (e : Text × Device). e.1) es)
All-IsApart k d [] own apart h = tt
All-IsApart k d ((j, e) ∷ es) own (ne, apart) (own', more, h) =
    (λ q. ne (own ∙ q ∙ sym own'), All-IsApart k d es own apart h)

keyed-IsUnique : (es : Entries Device) → IsKeyed es → IsUnique (map (λ (e : Text × Device). e.1) es)
keyed-IsUnique [] h = tt
keyed-IsUnique ((k, d) ∷ es) (own, apart, h) = (All-IsApart k d es own apart h, keyed-IsUnique es h)

-- The devices returned do not depend on the order in which the hash map gives them: they are sorted
-- by a name that each has alone.
pub discover-perm :
    (into_values into_values' : List Device → List Device) (wanted : Option Text)
    (deadline started : ℕ) (bs : List Browse)
    → ((ds : List Device) → Permᴰ ds (into_values ds))
    → ((ds : List Device) → Permᴰ ds (into_values' ds))
    → discover into_values wanted deadline started bs
      ≡ discover into_values' wanted deadline started bs
unfolding discover
discover-perm f g wanted deadline started bs perm perm' =
    let ds =
      map (λ (e : Text × Device). e.1)
        (browse wanted deadline (record { devices = []; last_new_at = started }) bs).devices in
    let each =
      keyed-IsUnique _
        (browse-IsKeyed wanted deadline (record { devices = []; last_new_at = started }) bs tt) in
    ap (wanted_only wanted) (sym (sort-perm (perm ds) each) ∙ sort-perm (perm' ds) each)
