-- ===== src/Channel/Dispatcher/Forwarded.antt =====
-- What `dispatcher` of src/cast_channel.rs forwards over a session.
use chromecast_sink.Base.{
  ℕ, suc, ◌≡◌, refl, ap, ◌∙◌, sym, false, Option, none, some, List, [], ◌∷◌, ◌++◌, take, length,
  append-nil, append_assoc, if◌then◌else◌, arith, Bool-cases, inl, inr, ◌||◌,
}
use chromecast_sink.Base.Result.{ok}
use chromecast_sink.Channel.Utf8.{Text}
use chromecast_sink.Channel.Message.{decode_cast_message}
use chromecast_sink.Channel.Frame.{take_frame, take_frames, receive}
use chromecast_sink.Channel.Frame.Stream.{take_frames_left, take_frames_partial}
use chromecast_sink.Channel.Dispatcher.{
  ReadResult, bytes, would_block, Tick, Session, take_read, round, rounds,
}
use chromecast_sink.Channel.Dispatcher.Incoming.{for_caller, all_for_caller, round_lem}

module _ (json_type : Text → Option Text) (local_id : Text) where
  -- What the reads of the rounds add to the buffer.
  abbrev pub reads : List Tick → List (List ℕ)
  reads [] = []
  reads (t ∷ ts) = elim t.read [ bytes chunk ↦ chunk ∷ reads ts | _ ↦ reads ts ]

  all_for_caller-append :
      (a b : List (List ℕ))
      → all_for_caller json_type local_id (a ++ b)
        ≡ all_for_caller json_type local_id a ++ all_for_caller json_type local_id b
  all_for_caller-append [] b = refl
  all_for_caller-append (x ∷ a) b =
      ap (λ t. for_caller json_type local_id (decode_cast_message x) ++ t)
        (all_for_caller-append a b)
      ∙ sym (
          append_assoc (for_caller json_type local_id (decode_cast_message x))
            (all_for_caller json_type local_id a) (all_for_caller json_type local_id b))

  -- How many rounds read before the session ends.
  abbrev pub rounds_read : List Tick → Session → ℕ
  rounds_read [] s = 0
  rounds_read (t ∷ ts) s =
      let s' = record s { stop = s.stop || t.stopped } in
      if s'.stop then 0 else elim (take_read json_type local_id s' t) [
        | none ↦ 0
        | some read ↦
            let (next, ends) = round json_type local_id t read in
            let later = rounds_read ts next in if ends then 1 else suc later
      ]

  abbrev Forwards : List Tick → Session → Type 0
  Forwards ticks s =
      (rounds json_type local_id ticks s).forwarded
      ≡ s.forwarded
        ++ all_for_caller json_type local_id
            (receive (reads (take (rounds_read ticks s) ticks)) s.acc).bodies

  ends_there :
      (t : Tick) (ts : List Tick) (s : Session)
      → (rounds json_type local_id (t ∷ ts) s).forwarded ≡ s.forwarded
      → rounds_read (t ∷ ts) s ≡ 0
      → Forwards (t ∷ ts) s
  unfolding receive
  ends_there t ts s e none_read = rw none_read (e ∙ sym (append-nil s.forwarded))

  -- A round on a chunk.
  chunk_round :
      (t : Tick) (ts : List Tick) (s : Session) (chunk : List ℕ)
      → take_frame s.acc ≡ ok (none, s.acc)
      → ((s' : Session) → take_frame s'.acc ≡ ok (none, s'.acc) → Forwards ts s')
      → t.read ≡ bytes chunk
      → (s.stop || t.stopped) ≡ false
      → Forwards (t ∷ ts) s
  unfolding rounds take_read receive
  chunk_round t ts s chunk h later e go =
      let s' : Session = record s {
        stop = s.stop || t.stopped;
        acc = s.acc ++ chunk;
        last_rx = t.read_at;
      } in
      let next = (round json_type local_id t s').0 in
      let facts = round_lem json_type local_id t s' in
      let f = take_frames (s.acc ++ chunk) in
      elim (Bool-cases f.broken) [
        | inl bad ↦ ground arith
        | inr sound ↦ elim (Bool-cases (round json_type local_id t s').1) [
          | inl over ↦ ground (arith, append-nil f.bodies)
          | inr not_over ↦
              let left =
                take_frames_left (length (s.acc ++ chunk)) (s.acc ++ chunk) (omega arith) sound in
              let rest = later next (ground arith) in
              let behind = (receive (reads (take (rounds_read ts next) ts)) next.acc).bodies in
              ground (
                arith,
                all_for_caller-append f.bodies behind,
                append_assoc s.forwarded (all_for_caller json_type local_id f.bodies)
                    (all_for_caller json_type local_id behind),
              )
        ]
      ]

  idle_round :
      (t : Tick) (ts : List Tick) (s : Session)
      → take_frame s.acc ≡ ok (none, s.acc)
      → ((s' : Session) → take_frame s'.acc ≡ ok (none, s'.acc) → Forwards ts s')
      → t.read ≡ would_block
      → (s.stop || t.stopped) ≡ false
      → Forwards (t ∷ ts) s
  unfolding rounds take_read receive
  idle_round t ts s h later e go =
      let s' : Session = record s { stop = s.stop || t.stopped } in
      let next = (round json_type local_id t s').0 in
      let facts = round_lem json_type local_id t s' in
      let quiet = take_frames_partial s.acc h in
      elim (Bool-cases (round json_type local_id t s').1) [
        | inl over ↦ ground (arith, append-nil s.forwarded)
        | inr not_over ↦
            let rest = later next (ground arith) in ground (arith, append-nil s.forwarded)
      ]

  -- Of a session, however its bytes were split and whatever ended it, the caller gets exactly the
  -- messages of another namespace than the heartbeat's in the frames of the stream that was read, in
  -- order, where no frame was complete at the start.
  pub rounds-receive :
      (ticks : List Tick) (s : Session) → take_frame s.acc ≡ ok (none, s.acc) → Forwards ticks s
  unfolding rounds receive take_read
  rounds-receive [] s h = sym (append-nil s.forwarded)
  rounds-receive (t ∷ ts) s h = elim (Bool-cases (s.stop || t.stopped)) [
    | inl halted ↦ ends_there t ts s (ground arith) (ground arith)
    | inr go ↦ by_read t.read refl go (rounds-receive ts)
  ]
    where
      by_read :
          (r : ReadResult)
          → t.read ≡ r
          → (s.stop || t.stopped) ≡ false
          → ((s' : Session) → take_frame s'.acc ≡ ok (none, s'.acc) → Forwards ts s')
          → Forwards (t ∷ ts) s
      by_read (bytes chunk) e go later = chunk_round t ts s chunk h later e go
      by_read would_block e go later = idle_round t ts s h later e go
      by_read ReadResult.end_of_file e go later = ends_there t ts s (ground arith) (ground arith)
      by_read ReadResult.unexpected_eof e go later = ends_there t ts s (ground arith) (ground arith)
      by_read ReadResult.failed e go later = ends_there t ts s (ground arith) (ground arith)
