-- ===== src/Loopback/Endpoint.antt =====
-- src/virtual_sink_windows.rs: the enumeration of the playback devices, and the choice of one. `A` is a
-- device; `lower` is `str::to_lowercase`.
pub mod Only
mod Tests
use chromecast_sink.Base.{
  ℕ, zero, suc, ◌+◌, Bool, true, false, Option, none, some, List, [], ◌∷◌, map, if◌then◌else◌,
}
use chromecast_sink.Base.Result.{Result, ok, err, ◌>>=◌}
use chromecast_sink.Channel.Utf8.{Text}
use chromecast_sink.Discovery.{contains}

-- By the context that the error has; the last two list devices by name.
pub data EndpointError : Type 0 where
  co_initialize_ex mm_device_enumerator no_default_playback_device enum_audio_endpoints other_call :
      EndpointError
  no_match several_match : List Text → EndpointError

-- What COM answers: whether `CoInitializeEx`, `CoCreateInstance` and `EnumAudioEndpoints` succeed, what
-- `GetCount`, `Item` and `GetDefaultAudioEndpoint` give, `none` for an error, and with a device the name
-- that `friendly_name` gives.
pub record Answered (A : Type 0) : Type 0 where
  pub entered : Bool
  pub created : Bool
  pub enumerated : Bool
  pub count : Option ℕ
  pub item : ℕ → Option (A × Option Text)
  pub by_default : Option (A × Option Text)

-- A device of `GetDefaultAudioEndpoint` or of `Item`, with its name.
pub named :
    {A : Type 0} → EndpointError → Option (A × Option Text) → Result EndpointError (A × Text)
named e none = err e
named e (some (d, none)) = err other_call
named e (some (d, some name)) = ok (d, name)

-- The loop over `n` devices from the `i`th on.
unfoldable pub items_from :
    {A : Type 0} → (ℕ → Option (A × Option Text)) → ℕ → ℕ → Result EndpointError (List (A × Text))
items_from item i zero = ok []
items_from item i (suc n) =
    named other_call (item i) >>= λ d. items_from item (suc i) n >>= λ out. ok (d ∷ out)

-- By what `GetCount` gives.
abbrev pub items_of :
    {A : Type 0}
    → Option ℕ
    → (ℕ → Option (A × Option Text))
    → Result EndpointError (List (A × Text))
items_of none item = err other_call
items_of (some n) item = items_from item 0 n

pub render_endpoints : {A : Type 0} → Answered A → Result EndpointError (List (A × Text))
render_endpoints a =
    if a.created
    then (if a.enumerated then items_of a.count a.item else err enum_audio_endpoints)
    else err mm_device_enumerator

pub default_render_endpoint : {A : Type 0} → Answered A → Result EndpointError (A × Text)
default_render_endpoint a =
    if a.created then named no_default_playback_device a.by_default else err mm_device_enumerator

unfoldable pub matching : {A : Type 0} → (Text → Text) → Text → List (A × Text) → List (A × Text)
matching lower needle [] = []
matching lower needle ((d, n) ∷ all) =
    let rest = matching lower needle all in
    if contains (lower n) needle then (d, n) ∷ rest else rest

abbrev pub names : {A : Type 0} → List (A × Text) → List Text
names all = map (λ p. p.1) all

-- `match hits.len()`
pub single : {A : Type 0} → List (A × Text) → List (A × Text) → Result EndpointError (A × Text)
single all [] = err (no_match (names all))
single all (hit ∷ []) = ok hit
single all (hit ∷ other ∷ more) = err (several_match (names (hit ∷ other ∷ more)))

pub find_render_endpoint :
    {A : Type 0} → (Text → Text) → Text → Answered A → Result EndpointError (A × Text)
find_render_endpoint lower wanted a =
    render_endpoints a >>= λ all. single all (matching lower (lower wanted) all)

-- `match wanted` of `start_capture`
pub captured_endpoint :
    {A : Type 0} → (Text → Text) → Option Text → Answered A → Result EndpointError (A × Text)
captured_endpoint lower (some wanted) a = find_render_endpoint lower wanted a
captured_endpoint lower none a = default_render_endpoint a

pub list_capture_devices : {A : Type 0} → Answered A → Result EndpointError (List Text)
list_capture_devices a =
    if a.entered then (render_endpoints a >>= λ all. ok (names all)) else err co_initialize_ex
