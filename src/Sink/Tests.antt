-- ===== src/Sink/Tests.antt =====
-- The theorems on src/virtual_sink.rs at concrete inputs.
use chromecast_sink.Base.{
  ℕ, ◌-◌, ◌%◌, ◌<◌, ◌≡◌, refl, min, true, false, List, [], ◌∷◌, ◌++◌, length, take, drop, some,
  arith,
}
use chromecast_sink.Sink.{name_stem, sanitize_sink_name, process_slice}
use chromecast_sink.Sink.Name.{is_clean, ends_marked, sanitize_sink_name_lem}
use chromecast_sink.Sink.Slice.{length-process_slice}

-- "Nest-Mini!"
abbrev nest_mini : List ℕ
nest_mini = 0x4e ∷ 0x65 ∷ 0x73 ∷ 0x74 ∷ 0x2d ∷ 0x4d ∷ 0x69 ∷ 0x6e ∷ 0x69 ∷ 0x21 ∷ []

sanitize_sink_name_lem_example :
    (is_clean false (sanitize_sink_name nest_mini) ≡ true)
    × (ends_marked false (sanitize_sink_name nest_mini) ≡ false)
    × ((rest : List ℕ) × (sanitize_sink_name nest_mini ≡ name_stem ++ rest))
sanitize_sink_name_lem_example = sanitize_sink_name_lem nest_mini

abbrev buffer : List ℕ
buffer = 1 ∷ 2 ∷ 3 ∷ 4 ∷ 5 ∷ 6 ∷ []

abbrev part : List ℕ
part = 5 ∷ 6 ∷ []

taken : process_slice buffer 10 8 ≡ some part
unfolding process_slice
taken = refl

length-process_slice_example :
    (0 < length part)
    × (length part ≡ min 8 (length buffer - 10 % length buffer))
    × (part ≡ take (length part) (drop (10 % length buffer) buffer))
length-process_slice_example =
    length-process_slice buffer 10 8 part (omega arith) (omega arith) taken
