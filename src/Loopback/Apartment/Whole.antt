-- ===== src/Loopback/Apartment/Whole.antt =====
-- A whole life of the Windows sink of src/virtual_sink_windows.rs leaves nothing of COM behind.
use mathlib.Core.List.{map-append}
use chromecast_sink.Base.{
  ℕ, ◌+◌, ◌≡◌, refl, sym, ap, ◌∙◌, Bool, true, false, not, ◌&&◌, Option, some, List, [], ◌∷◌, ◌++◌,
  map, append-nil, append_assoc, next_answer, later_answers, arith, Bool-cases, inl, inr,
}
use chromecast_sink.Loopback.Apartment.{
  Object, com_error, get, Scope, Act, enter, leave, acquire, release, releases, loopback,
  agile_loopback, try_all, start_capture, find_endpoint, start_calls, agile_new, resolve, pumped,
  new_sink, pump_thread, Thread, main, interleave, whole,
}
use chromecast_sink.Loopback.Apartment.Process.{
  Own, Process, one, own_act, follow_act, follow, nobody, own, all_stay, both, in_main, follow-main,
  follow-interleave, own_append, follow_append, stay_append,
}
use chromecast_sink.Loopback.Apartment.Balance.{
  holds, count, own-releases, own-try_all, stay-releases, stay-try_all, own_step,
}
use chromecast_sink.Loopback.Apartment.Held.{held-start_capture, held-agile_new}

abbrev by_main : List Act → List (Thread × Act)
by_main acts = map (λ a. (main, a)) acts

abbrev alone : ℕ → Process
alone n = both true n (holds false 0)

module _ (x : Object) where
  abbrev loops : ℕ
  loops = count x loopback

  abbrev agiles : ℕ
  agiles = count x agile_loopback

  and_then :
      (t u v : Own) (xs ys : List Act)
      → own x t xs ≡ some u
      → own x u ys ≡ some v
      → own x t (xs ++ ys) ≡ some v
  and_then t u v xs ys e f = own_append x t u xs ys e ∙ f

  own-leave : own x (holds true 0) (leave ∷ []) ≡ some (holds false 0)
  unfolding own own_act
  own-leave = refl

  own-enter : (n : ℕ) → own_act x (holds false n) enter ≡ some (holds true n)
  unfolding own_act
  own-enter n = refl

  own-release :
      (n : ℕ) (o : Object) → own x (holds true (n + one x o)) (release o ∷ []) ≡ some (holds true n)
  own-release n o = own-releases x true n (n + one x o) (o ∷ []) (omega arith)

  own-acquire :
      (n : ℕ) (o : Object) → own_act x (holds true n) (acquire o) ≡ some (holds true (n + one x o))
  unfolding own_act
  own-acquire n o = refl

  own-pumped : (lb : Scope) → own x (holds true (count x lb.held)) (pumped lb) ≡ some (holds true 0)
  own-pumped lb = elim (Bool-cases (lb.well && not (next_answer lb.answers))) [
    | inl broken ↦ rw broken (
        own_step x _ _ _ (acquire com_error) _ (own-acquire (count x lb.held) com_error) (
          and_then _ (holds true (0 + one x com_error)) _ (releases lb.held)
            (release com_error ∷ [])
            (own-releases x true (0 + one x com_error) _ lb.held (omega arith))
            (own-release 0 com_error)))
    | inr well ↦ rw well (own-releases x true 0 (count x lb.held) lb.held (omega arith))
  ]

  own-resolve :
      (answers : List Bool)
      → own x (holds true agiles) (resolve answers).acts
        ≡ some (holds true (count x (resolve answers).held))
  unfolding resolve
  own-resolve answers =
      let s = try_all [] (map get loopback) answers in
      and_then _ (holds true (agiles + count x s.held)) _ s.acts (releases agile_loopback)
        (ap (λ k. own x (holds true k) s.acts) (omega arith)
          ∙ own-try_all x true agiles [] (map get loopback) answers)
        (own-releases x true (count x s.held) _ agile_loopback (omega arith))

  -- The thread of the pump, which is given the four agile references.
  own-pump_thread :
      (answers : List Bool)
      → own x (holds false agiles) (pump_thread answers) ≡ some (holds false 0)
  unfolding pump_thread
  own-pump_thread answers = elim (Bool-cases (next_answer answers)) [
    | inr out ↦ rw out (own-releases x false 0 agiles agile_loopback (omega arith))
    | inl entered ↦
        let lb = resolve (later_answers answers) in
        rw entered (
          own_step x _ _ _ enter _ (own-enter agiles) (
            and_then _ _ _ lb.acts _ (own-resolve (later_answers answers))
              (and_then _ _ _ (pumped lb) (leave ∷ []) (own-pumped lb) own-leave)))
  ]

  main_part :
      (a a' : ℕ) (xs : List Act) (rest : List (Thread × Act))
      → all_stay xs ≡ true
      → own x (in_main a) xs ≡ some (in_main a')
      → follow x (alone a) (by_main xs ++ rest) ≡ follow x (alone a') rest
  main_part a a' xs rest s e =
      follow_append x (alone a) (alone a') (by_main xs) rest
        (follow-main x a a' (holds false 0) xs s e)

  enters :
      (rest : List (Thread × Act))
      → follow x nobody ((main, enter) ∷ rest) ≡ follow x (alone 0) rest
  unfolding follow follow_act both
  enters rest = refl

  follow_nothing : follow x nobody [] ≡ some nobody
  unfolding follow
  follow_nothing = refl

  leaves : follow x (alone 0) ((main, leave) ∷ []) ≡ some nobody
  unfolding follow follow_act both
  leaves = refl

  -- Set-up that fails once the thread is in the apartment.
  gives_up :
      (xs : List Act)
      → all_stay xs ≡ true
      → own x (in_main 0) xs ≡ some (in_main 0)
      → follow x nobody (by_main (enter ∷ (xs ++ (leave ∷ []))) ++ []) ≡ some nobody
  gives_up xs s e =
      ap (follow x nobody) (append-nil _)
      ∙ enters _
      ∙ ap (follow x (alone 0)) (map-append (λ a. (main, a)) xs (leave ∷ []))
      ∙ main_part 0 0 xs ((main, leave) ∷ []) s e
      ∙ leaves

  -- Set-up that succeeds: the two threads, and then the join and the drop.
  goes_through :
      (turns by_pump : List Bool) (xs : List Act)
      → all_stay xs ≡ true
      → own x (in_main 0) xs ≡ some (in_main (loops + agiles))
      → follow x nobody (
          by_main (enter ∷ xs)
          ++ (interleave turns (releases loopback) (pump_thread by_pump) ++ ((main, leave) ∷ [])))
        ≡ some nobody
  unfolding both
  goes_through turns by_pump xs s e =
      enters _
      ∙ main_part 0 (loops + agiles) xs _ s e
      ∙ follow_append x (alone (loops + agiles)) (alone 0)
          (interleave turns (releases loopback) (pump_thread by_pump)) _
          (ap
              (λ k.
                follow x (record { main_in = true; pump_in = false; live = k })
                  (interleave turns (releases loopback) (pump_thread by_pump)))
              (omega arith)
            ∙ follow-interleave x turns (releases loopback) (pump_thread by_pump) loops 0
                (holds false agiles) (holds false 0) refl
                (own-releases x true 0 loops loopback (omega arith)) (own-pump_thread by_pump))
      ∙ leaves

  module _ (wanted : Option ℕ) (answers : List Bool) where
    abbrev captured : Scope
    captured = start_capture wanted (later_answers answers)

    abbrev references : Scope
    references = agile_new captured.answers

    own-captured : own x (in_main 0) captured.acts ≡ some (in_main (count x captured.held))
    unfolding start_capture
    own-captured =
        ap (λ k. own x (in_main k) captured.acts) (omega arith)
        ∙ own-try_all x true 0 [] (find_endpoint wanted ++ start_calls) (later_answers answers)
        ∙ ap (λ k. some (in_main k)) (omega arith)

    stay-captured : all_stay captured.acts ≡ true
    unfolding start_capture
    stay-captured = stay-try_all [] (find_endpoint wanted ++ start_calls) (later_answers answers)

    own-references :
        (n : ℕ) → own x (in_main n) references.acts ≡ some (in_main (n + count x references.held))
    unfolding agile_new
    own-references n =
        ap (λ k. own x (in_main k) references.acts) (omega arith)
        ∙ own-try_all x true n [] (map get agile_loopback) captured.answers

    stay-references : all_stay references.acts ≡ true
    unfolding agile_new
    stay-references = stay-try_all [] (map get agile_loopback) captured.answers

    count-captured : captured.well ≡ true → count x captured.held ≡ loops
    count-captured h =
        ap (count x) (held-start_capture wanted (later_answers answers) h) ∙ omega arith

    count-references : references.well ≡ true → count x references.held ≡ agiles
    count-references h = ap (count x) (held-agile_new captured.answers h) ∙ omega arith

    own-both :
        captured.well ≡ true
        → own x (in_main 0) (captured.acts ++ references.acts)
          ≡ some (in_main (loops + count x references.held))
    own-both started =
        and_then _ (in_main loops) _ captured.acts references.acts
          (own-captured ∙ ap some (ap in_main (count-captured started))) (own-references loops)

    -- The capture has not started, or the agile references could not all be made: what is held is
    -- dropped.
    failed_acts :
        follow x nobody
          (by_main (enter ∷ (captured.acts ++ (releases captured.held ++ (leave ∷ [])))) ++ [])
        ≡ some nobody
    failed_acts =
        ap (λ acts. follow x nobody (by_main (enter ∷ acts) ++ []))
          (sym (append_assoc captured.acts (releases captured.held) (leave ∷ [])))
        ∙ gives_up (captured.acts ++ releases captured.held)
            (stay_append captured.acts _ stay-captured (stay-releases captured.held))
            (and_then _ _ _ captured.acts _ own-captured
              (own-releases x true 0 (count x captured.held) captured.held (omega arith)))

    abbrev dropped : List Act
    dropped = releases references.held ++ releases loopback

    lost_acts :
        captured.well ≡ true
        → follow x nobody (
            by_main (
              enter
              ∷ (captured.acts
                  ++ (references.acts
                      ++ (releases references.held ++ (releases loopback ++ (leave ∷ []))))))
            ++ [])
          ≡ some nobody
    lost_acts started =
        ap (λ acts. follow x nobody (by_main (enter ∷ acts) ++ []))
          (sym (
            append_assoc (captured.acts ++ references.acts) dropped (leave ∷ [])
            ∙ append_assoc captured.acts references.acts (dropped ++ (leave ∷ []))
            ∙ ap (λ t. captured.acts ++ (references.acts ++ t))
                (append_assoc (releases references.held) (releases loopback) (leave ∷ []))))
        ∙ gives_up ((captured.acts ++ references.acts) ++ dropped)
            (stay_append (captured.acts ++ references.acts) dropped
              (stay_append captured.acts references.acts stay-captured stay-references)
              (stay_append (releases references.held) (releases loopback)
                (stay-releases references.held) refl))
            (and_then _ _ _ (captured.acts ++ references.acts) dropped (own-both started) (
              and_then _ (in_main loops) _ (releases references.held) (releases loopback)
                (own-releases x true loops _ references.held refl)
                (own-releases x true 0 loops loopback (omega arith))))

    opened_acts :
        (turns by_pump : List Bool)
        → captured.well ≡ true
        → references.well ≡ true
        → follow x nobody (
            by_main (enter ∷ (captured.acts ++ references.acts))
            ++ (interleave turns (releases loopback) (pump_thread by_pump) ++ ((main, leave) ∷ [])))
          ≡ some nobody
    opened_acts turns by_pump started opened =
        goes_through turns by_pump (captured.acts ++ references.acts)
          (stay_append captured.acts references.acts stay-captured stay-references)
          (own-both started ∙ ap (λ k. some (in_main (loops + k))) (count-references opened))

    -- Whatever the COM calls of both threads answer, and however the two interleave: no thread enters
    -- the apartment twice or leaves it without being in it; and of each object every reference is
    -- acquired and released with a thread in the apartment, none once too often, and none is left
    -- when the last thread leaves; at the end no thread is in it and no reference is held. The
    -- objects are the interfaces and their agile references, the enumerator, its collection and
    -- devices, the property stores, and the objects of errors.
    pub whole-follow :
        (turns pump_answers : List Bool)
        → follow x nobody (whole wanted turns answers pump_answers) ≡ some nobody
    unfolding whole new_sink
    whole-follow turns by_pump = elim (Bool-cases (next_answer answers)) [
      | inr out ↦ rw out follow_nothing
      | inl entered ↦ elim (Bool-cases captured.well) [
        | inr failed ↦ rw (entered, failed) failed_acts
        | inl started ↦ elim (Bool-cases references.well) [
          | inr lost ↦ rw (entered, started, lost) (lost_acts started)
          | inl opened ↦ rw (entered, started, opened) (opened_acts turns by_pump started opened)
        ]
      ]
    ]
