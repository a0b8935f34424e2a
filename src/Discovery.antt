-- ===== src/Discovery.antt =====
-- src/discovery.rs: the devices that mDNS finds. What the daemon reports is given, round by round.
pub mod Sorted
pub mod Order
mod Tests
use chromecast_sink.Base.{
  ℕ, zero, suc, ◌+◌, ◌-◌, ◌*◌, ◌<◌, bit_and, Bool, true, false, not, ◌&&◌, ◌||◌, Option, none, some,
  List, [], ◌∷◌, ◌++◌, map, codes, ltb, leb, ◌==◌, same_text, if◌then◌else◌,
}
use chromecast_sink.Base.Result.{Result, ok, err}
use chromecast_sink.Channel.Utf8.{Text}

-- `str::to_ascii_lowercase`
pub to_ascii_lowercase : Text → Text
to_ascii_lowercase s = map (λ c. if leb 65 c && leb c 90 then c + 32 else c) s

pub eq_ignore_ascii_case : Text → Text → Bool
eq_ignore_ascii_case s t = same_text (to_ascii_lowercase s) (to_ascii_lowercase t)

unfoldable pub begins_with : Text → Text → Bool
begins_with s [] = true
begins_with [] (b ∷ t) = false
begins_with (a ∷ s) (b ∷ t) = a == b && begins_with s t

-- `str::contains`
unfoldable pub contains : Text → Text → Bool
contains [] needle = begins_with [] needle
contains (a ∷ s) needle = begins_with (a ∷ s) needle || contains s needle

-- The digits of `str::parse::<u32>`, an overflow being an error.
parse_digits : ℕ → Text → Option ℕ
parse_digits n [] = some n
parse_digits n (c ∷ cs) =
    let rest = parse_digits (n * 10 + (c - 48)) cs in
    if leb 48 c && leb c 57 && ltb (n * 10 + (c - 48)) 4_294_967_296 then rest else none

pub parse_u32 : Text → Option ℕ
parse_u32 [] = none
parse_u32 (c ∷ cs) =
    let signed = (if c == 43 then cs else c ∷ cs) in
    elim signed [ [] ↦ none | d ∷ ds ↦ parse_digits 0 (d ∷ ds) ]

-- A `HashMap`, as the list of its entries in whatever order.
abbrev pub Entries : Type 0 → Type 0
Entries A = List (Text × A)

pub lookup : {A : Type 0} → Entries A → Text → Option A
lookup [] key = none
lookup ((k, a) ∷ rest) key =
    let found = lookup rest key in if same_text k key then some a else found

-- `insert`; an entry with this key is replaced.
pub insert : {A : Type 0} → Entries A → Text → A → Entries A
insert [] key a = (key, a) ∷ []
insert ((k, b) ∷ rest) key a =
    let later = insert rest key a in if same_text k key then (k, a) ∷ rest else (k, b) ∷ later

pub is_none : {A : Type 0} → Option A → Bool
is_none none = true
is_none (some a) = false

pub record Device : Type 0 where
  pub friendly_name : Text
  pub model : Option Text
  pub host : Text
  pub port : ℕ
  pub is_audio_only : Bool

abbrev audio_only_models : List Text
audio_only_models =
    codes "google home"
    ∷ codes "nest mini"
    ∷ codes "nest audio"
    ∷ codes "home mini"
    ∷ codes "home max"
    ∷ []

contains_any : Text → List Text → Bool
contains_any m [] = false
contains_any m (name ∷ names) = contains m name || contains_any m names

pub is_audio_only_model : Text → Bool
is_audio_only_model model = contains_any (to_ascii_lowercase model) audio_only_models

pub is_audio_only_device : Option ℕ → Option Text → Bool
is_audio_only_device (some bits) model = bit_and bits 1 == 0
is_audio_only_device none none = false
is_audio_only_device none (some model) = is_audio_only_model model

parsed_u32 : Option Text → Option ℕ
parsed_u32 none = none
parsed_u32 (some v) = parse_u32 v

pub from_txt : Text → ℕ → Entries Text → Option Device
from_txt host port txt = elim (lookup txt (codes "fn")) [
  | none ↦ none
  | some friendly ↦ some (record {
    friendly_name = friendly;
    model = lookup txt (codes "md");
    host = host;
    port = port;
    is_audio_only =
        is_audio_only_device (parsed_u32 (lookup txt (codes "ca"))) (lookup txt (codes "md"));
  })
]

-- What the daemon's receiver returns: a resolved service with its IPv4 addresses, port and
-- properties, another event, or none, with whether the daemon is gone.
pub data ServiceEvent : Type 0 where
  resolved : (addresses : List Text) (port : ℕ) (props : List (Text × Text)) → ServiceEvent
  other_event : ServiceEvent
  nothing : (disconnected : Bool) → ServiceEvent

-- One round of the loop, with the times at its condition, at a new device, and at the quiet check.
pub record Browse : Type 0 where
  pub now : ℕ
  pub event : ServiceEvent
  pub new_at : ℕ
  pub quiet_at : ℕ

pub record Found : Type 0 where
  pub devices : Entries Device
  pub last_new_at : ℕ

abbrev pub quiet : ℕ
quiet = 2_500_000_000

pub data After : Type 0 where
  next leave check_quiet : After

pub txt_of : List (Text × Text) → Entries Text → Entries Text
txt_of [] txt = txt
txt_of ((k, v) ∷ props) txt = txt_of props (insert txt k v)

pub is_wanted : Option Text → Text → Bool
is_wanted none name = false
is_wanted (some n) name = eq_ignore_ascii_case n name

pub add_device : Option Text → ℕ → Found → Option Device → Found × After
add_device wanted new_at f none = (f, check_quiet)
add_device wanted new_at f (some dev) = (
  record {
    devices = insert f.devices dev.friendly_name dev;
    last_new_at = if is_none (lookup f.devices dev.friendly_name) then new_at else f.last_new_at;
  },
  if is_wanted wanted dev.friendly_name then leave else check_quiet,
)

pub on_event : Option Text → ℕ → Found → ServiceEvent → Found × After
on_event wanted new_at f (resolved [] port props) = (f, next)
on_event wanted new_at f (resolved (ip ∷ ips) port props) =
    add_device wanted new_at f (from_txt ip port (txt_of props []))
on_event wanted new_at f other_event = (f, check_quiet)
on_event wanted new_at f (nothing disconnected) = (f, if disconnected then leave else check_quiet)

-- How the loop goes on, given whether it is quiet, what is found and what is found later.
abbrev pub after_event : After → Bool → Found → Found → Found
after_event next quiet_now f later = later
after_event leave quiet_now f later = f
after_event check_quiet quiet_now f later = if quiet_now then f else later

-- The loop; behind the rounds given, the deadline has passed.
pub browse : Option Text → ℕ → Found → List Browse → Found
browse wanted deadline f [] = f
browse wanted deadline f (b ∷ bs) =
    let (f', after) = on_event wanted b.new_at f b.event in
    let later = browse wanted deadline f' bs in
    if leb deadline b.now
    then f
    else after_event after (is_none wanted && leb quiet (b.quiet_at - f'.last_new_at)) f' later

-- `a.friendly_name.cmp(&b.friendly_name)`: whether it is not greater.
pub name_le : Text → Text → Bool
name_le [] t = true
name_le (a ∷ s) [] = false
name_le (a ∷ s) (b ∷ t) = ltb a b || (a == b && name_le s t)

pub insert_sorted : Device → List Device → List Device
insert_sorted d [] = d ∷ []
insert_sorted d (e ∷ es) =
    if name_le d.friendly_name e.friendly_name then d ∷ e ∷ es else e ∷ insert_sorted d es

-- `sort_by`, which is stable.
pub sort : List Device → List Device
sort [] = []
sort (d ∷ ds) = insert_sorted d (sort ds)

pub retain : Text → List Device → List Device
retain name [] = []
retain name (d ∷ ds) =
    let rest = retain name ds in
    if eq_ignore_ascii_case d.friendly_name name then d ∷ rest else rest

pub data DiscoveryError : Type 0 where
  not_found : DiscoveryError

abbrev pub not_empty : List Device → Result DiscoveryError (List Device)
not_empty [] = err not_found
not_empty (d ∷ ds) = ok (d ∷ ds)

abbrev pub wanted_only : Option Text → List Device → Result DiscoveryError (List Device)
wanted_only none out = ok out
wanted_only (some name) out = not_empty (retain name out)

-- From the deadline and the time the loop starts. `into_values` takes the devices out in the map's order, which is given.
pub discover :
    (List Device → List Device)
    → Option Text
    → ℕ
    → ℕ
    → List Browse
    → Result DiscoveryError (List Device)
discover into_values wanted deadline started bs =
    let found = browse wanted deadline (record { devices = []; last_new_at = started }) bs in
    wanted_only wanted (sort (into_values (map (λ (e : Text × Device). e.1) found.devices)))
