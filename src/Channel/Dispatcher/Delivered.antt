-- ===== src/Channel/Dispatcher/Delivered.antt =====
-- What `dispatcher` has really written for the caller, at the end of a session.
use chromecast_sink.Base.{
  ◌≡◌, ap, ◌∙◌, sym, ◌⊎◌, ◌≤◌, false, Option, List, [], ◌++◌, take, length, append-nil,
  append_assoc, arith, Bool-cases, inl, inr,
}
use chromecast_sink.Channel.Utf8.{Text}
use chromecast_sink.Channel.Message.{CastMessage}
use chromecast_sink.Channel.Dispatcher.{Tick, Session, rounds, flush, dispatcher}
use chromecast_sink.Channel.Dispatcher.Incoming.{tried}
use chromecast_sink.Channel.Dispatcher.Forwarded.{rounds_read}
use chromecast_sink.Channel.Dispatcher.Outgoing.{of_caller, arrived, in_order, dispatcher-in_order}
use chromecast_sink.Channel.Dispatcher.Written.{
  written, all_sent, sent_of-all_sent, Whole, flush-IsFlushed, flush-all_sent,
}
use chromecast_sink.Channel.Dispatcher.Kept.{rounds-either}

-- What the caller's messages `all` have become: those written, in two parts, one lost at the end of
-- each at most, and those never received; and where no write failed, all of them are written.
abbrev pub IsDelivered : Session → List CastMessage → Type 0
IsDelivered d all =
    (first lost second lost' : List CastMessage) × (all
      ≡ first ++ (lost ++ (second ++ (lost' ++ of_caller d.queue))))
    × (written d ≡ first ++ second)
    × (length lost ≤ 1)
    × (length lost' ≤ 1)
    × ((all_sent d.wire ≡ false) ⊎ ((d.queue ≡ []) × (written d ≡ all)))

parts : (a b c d q : List CastMessage) → ((a ++ b) ++ (c ++ d)) ++ q ≡ a ++ (b ++ (c ++ (d ++ q)))
parts a b c d q =
    append_assoc (a ++ b) (c ++ d) q
    ∙ append_assoc a b ((c ++ d) ++ q)
    ∙ ap (λ t. a ++ (b ++ t)) (append_assoc c d q)

module _ (json_type : Text → Option Text) (local_id : Text) where
  flushed-IsDelivered :
      (ended : Session) (msgs : List CastMessage) (all lost : List CastMessage)
      → let d = flush json_type local_id ended msgs in
        in_order d ≡ all
        → length lost ≤ 1
        → of_caller (tried ended) ≡ written ended ++ lost
        → IsDelivered (flush json_type local_id ended msgs) all
  flushed-IsDelivered ended msgs all lost told one cut =
      let d = flush json_type local_id ended msgs in
      let (second, lost', one', w, t) = flush-IsFlushed json_type local_id ended msgs in
      (
        written ended,
        lost,
        second,
        lost',
        sym told
            ∙ ap (λ x. x ++ of_caller d.queue) (t ∙ ap (λ x. x ++ (second ++ lost')) cut)
            ∙ parts (written ended) lost second lost' (of_caller d.queue),
        w,
        one,
        one',
        elim (Bool-cases (all_sent d.wire)) [
          | inr failed ↦ inl failed
          | inl sent ↦
              let empty : d.queue ≡ [] = flush-all_sent json_type local_id ended msgs sent in
              inr (
                empty,
                ap of_caller (sent_of-all_sent d.wire sent)
                    ∙ sym (append-nil (of_caller (tried d)))
                    ∙ ap (λ q. of_caller (tried d) ++ of_caller q) (sym empty)
                    ∙ told,
              )
        ],
      )

  -- Over a whole session, whatever was read, answered and failed: what the caller enqueued is, in its
  -- order, what was written, but for one message that was lost when a write failed in a round, and one
  -- when a write failed in the last flush, and what was never received; all is written if no write
  -- fails.
  pub dispatcher-IsDelivered :
      (ticks : List Tick) (late : List CastMessage) (s : Session)
      → Whole s
      → IsDelivered (dispatcher json_type local_id ticks late s) (
          in_order s
          ++ (of_caller (arrived (take (rounds_read json_type local_id ticks s) ticks))
              ++ of_caller late))
  unfolding dispatcher
  dispatcher-IsDelivered ticks late s h =
      let ended = rounds json_type local_id ticks s in
      let told = dispatcher-in_order json_type local_id ticks late s in
      elim (rounds-either json_type local_id ticks s (inl h)) [
        | inl whole ↦
            flushed-IsDelivered ended (ended.queue ++ late) _ [] told (omega arith)
              (whole ∙ sym (append-nil (written ended)))
        | inr (halts, (lost, one, cut)) ↦
            flushed-IsDelivered ended (ended.queue ++ late) _ lost told one cut
      ]
