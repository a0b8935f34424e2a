-- ===== src/Loopback/Apartment.antt =====
-- The COM objects of src/virtual_sink_windows.rs: which thread is in the apartment, and what is
-- acquired and released, from `VirtualSink::new` to the drop. Every COM call is whether it succeeds;
-- a call that fails gives an error that holds a COM error object, but for CoInitializeEx.
pub mod Process
pub mod Balance
pub mod Held
pub mod Whole
mod Tests
use chromecast_sink.Base.{
  ℕ, zero, suc, ◌+◌, ◌-◌, ◌*◌, Bool, true, false, not, ◌&&◌, ◌||◌, Option, none, some, List, [],
  ◌∷◌, ◌++◌, map, length, next_answer, later_answers, ltb, ◌==◌, if◌then◌else◌,
}

pub data Object : Type 0 where
  enumerator collection endpoint store com_error : Object
  device capture_client capture render_client render : Object
  agile : Object → Object

-- Objects told apart.
abbrev pub code : Object → ℕ
code enumerator = 0
code collection = 1
code endpoint = 2
code store = 3
code com_error = 4
code device = 5
code capture_client = 6
code capture = 7
code render_client = 8
code render = 9
code (agile o) = 10 + code o

-- What a thread does with COM: `CoInitializeEx`, `CoUninitialize`, and the references it counts.
pub data Act : Type 0 where
  enter leave : Act
  acquire release : Object → Act

abbrev pub releases : List Object → List Act
releases [] = []
releases (o ∷ os) = release o ∷ releases os

-- A call that may fail: one that gives an object, or another; the choice of a device, which fails
-- with no COM error; and the drop of what is held.
pub data Call : Type 0 where
  get : Object → Call
  other : Call
  choose : Object → Call
  drop : Object → Call

-- What is held, the latest first, what was done, the answers left, and whether every call succeeded.
pub record Scope : Type 0 where
  pub held : List Object
  pub acts : List Act
  pub answers : List Bool
  pub well : Bool

-- One reference to this object is dropped: what is still held, and what is done.
pub drop_one : Object → List Object → List Object × List Act
drop_one o [] = ([], [])
drop_one o (p ∷ held) =
    let (kept, acts) = drop_one o held in
    if code o == code p then (held, release p ∷ []) else (p ∷ kept, acts)

abbrev pub before : List Act → Scope → Scope
before acts s = record s { acts = acts ++ s.acts }

-- An early return drops what is held, the latest first, and gives the error, if any.
abbrev pub failed_with : List Object → List Object → List Bool → Scope
failed_with e held answers = record {
  held = e;
  acts = map acquire e ++ releases held;
  answers = answers;
  well = false;
}

-- Calls in a row, each with `?`.
unfoldable pub try_all : List Object → List Call → List Bool → Scope
try_all held [] answers = record { held = held; acts = []; answers = answers; well = true }
try_all held (get o ∷ calls) answers =
    let later = try_all (o ∷ held) calls (later_answers answers) in
    if next_answer answers
    then before (acquire o ∷ []) later
    else failed_with (com_error ∷ []) held (later_answers answers)
try_all held (other ∷ calls) answers =
    let later = try_all held calls (later_answers answers) in
    if next_answer answers then later else failed_with (com_error ∷ []) held (later_answers answers)
try_all held (choose o ∷ calls) answers =
    let later = try_all (o ∷ held) calls (later_answers answers) in
    if next_answer answers
    then before (acquire o ∷ []) later
    else failed_with [] held (later_answers answers)
try_all held (drop o ∷ calls) answers =
    let (kept, acts) = drop_one o held in before acts (try_all kept calls answers)

-- `friendly_name` of a device, with the property store that it opens.
abbrev pub friendly_name : List Call → List Call
friendly_name calls = get store ∷ other ∷ drop store ∷ calls

-- The loop of `render_endpoints` over `n` devices, and their drop.
pub items : ℕ → List Call
items zero = []
items (suc n) = get endpoint ∷ friendly_name (items n)

pub drops : ℕ → List Call
drops zero = []
drops (suc n) = drop endpoint ∷ drops n

-- `default_render_endpoint`, or `find_render_endpoint` where `n` devices are counted, which clones the
-- device that it finds.
pub find_endpoint : Option ℕ → List Call
find_endpoint none = get enumerator ∷ get device ∷ friendly_name (drop enumerator ∷ [])
find_endpoint (some n) =
    (get enumerator ∷ get collection ∷ other ∷ items n)
    ++ (drop collection ∷ drop enumerator ∷ choose device ∷ drops n)

-- The interfaces of a `Loopback`, in the order of its fields.
abbrev pub loopback : List Object
loopback = capture_client ∷ capture ∷ render_client ∷ render ∷ []

abbrev pub agile_loopback : List Object
agile_loopback = map agile loopback

-- `start_capture` behind the endpoint: activate, initialize and get the service of both clients, the
-- buffer size, and the two starts. Of what it holds only the device is dropped at the end.
abbrev pub start_calls : List Call
start_calls =
    get capture_client
    ∷ other
    ∷ get capture
    ∷ get render_client
    ∷ other
    ∷ get render
    ∷ other
    ∷ other
    ∷ other
    ∷ drop device
    ∷ []

-- With how many devices there are, where one was wanted by name.
pub start_capture : Option ℕ → List Bool → Scope
start_capture wanted answers = try_all [] (find_endpoint wanted ++ start_calls) answers

-- `AgileLoopback::new`
pub agile_new : List Bool → Scope
agile_new answers = try_all [] (map get agile_loopback) answers

-- `AgileLoopback::resolve`, which consumes the references in any case.
pub resolve : List Bool → Scope
resolve answers =
    let s = try_all [] (map get loopback) answers in
    record s { acts = s.acts ++ releases agile_loopback }

-- `VirtualSink::new` up to the spawn of the pump's thread, or to its error; what it does behind the
-- spawn; and whether it gives a sink.
pub record Begun : Type 0 where
  pub before : List Act
  pub behind : List Act
  pub opened : Bool

-- An error is flattened to its text, and its COM object released, before the apartment is left.
pub new_sink : Option ℕ → List Bool → Begun
new_sink wanted answers =
    let lb = start_capture wanted (later_answers answers) in
    let refs = agile_new lb.answers in
    if not (next_answer answers)
    then record { before = []; behind = []; opened = false }
    else if not lb.well
    then record {
      before = enter ∷ (lb.acts ++ (releases lb.held ++ (leave ∷ [])));
      behind = [];
      opened = false;
    }
    else if not refs.well
    then record {
      before =
          enter
          ∷ (lb.acts ++ (refs.acts ++ (releases refs.held ++ (releases loopback ++ (leave ∷ [])))));
      behind = [];
      opened = false;
    }
    else record {
      before = enter ∷ (lb.acts ++ refs.acts);
      behind = releases loopback;
      opened = true;
    }

-- `pump_capture` drops the interfaces, the last one first, and so with an error of its own; the error
-- is dropped behind them.
abbrev pub pumped : Scope → List Act
pumped lb =
    if lb.well && not (next_answer lb.answers)
    then acquire com_error ∷ (releases lb.held ++ (release com_error ∷ []))
    else releases lb.held

-- `run_wasapi_thread`
pub pump_thread : List Bool → List Act
pump_thread answers =
    let lb = resolve (later_answers answers) in
    if next_answer answers
    then enter ∷ (lb.acts ++ (pumped lb ++ (leave ∷ [])))
    else releases agile_loopback

pub data Thread : Type 0 where
  main pump : Thread

-- Two threads in one order; where the schedule ends, the first goes first.
pub interleave : List Bool → List Act → List Act → List (Thread × Act)
interleave _ [] ys = map (λ y. (pump, y)) ys
interleave _ xs [] = map (λ x. (main, x)) xs
interleave [] (x ∷ xs) (y ∷ ys) = (main, x) ∷ interleave [] xs (y ∷ ys)
interleave (true ∷ turns) (x ∷ xs) (y ∷ ys) = (main, x) ∷ interleave turns xs (y ∷ ys)
interleave (false ∷ turns) (x ∷ xs) (y ∷ ys) = (pump, y) ∷ interleave turns (x ∷ xs) ys

-- Behind the set-up: the two threads, the join, and the drop of the apartment with the sink.
abbrev pub whole_of : List Bool → List Bool → Begun → List (Thread × Act)
whole_of turns answers b =
    map (λ a. (main, a)) b.before
    ++ (if b.opened
        then interleave turns b.behind (pump_thread answers) ++ ((main, leave) ∷ [])
        else [])

-- From `new` to the drop of the sink, by what the calls of either thread answer.
pub whole : Option ℕ → List Bool → List Bool → List Bool → List (Thread × Act)
whole wanted turns main_answers pump_answers =
    whole_of turns pump_answers (new_sink wanted main_answers)
