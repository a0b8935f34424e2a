-- ===== src/Channel/Connect/Opened.antt =====
-- When a connection of src/cast_channel.rs opens, and what is first written over it.
use chromecast_sink.Base.{
  ℕ, ◌≡◌, refl, ap, true, false, Option, none, some, List, [], ◌∷◌, ◌++◌, take, All, ◌⊎◌, inl, inr,
  arith, Option-cases, Bool-cases,
}
use chromecast_sink.Base.Result.{Result, ok, err, ◌>>=◌}
use chromecast_sink.Json.{Json}
use chromecast_sink.Channel.Utf8.{Text}
use chromecast_sink.Channel.Message.{CastMessage}
use chromecast_sink.Channel.Dispatcher.{Session, Tick, dispatcher}
use chromecast_sink.Channel.Dispatcher.Forwarded.{rounds_read}
use chromecast_sink.Channel.Dispatcher.Outgoing.{of_caller, arrived, in_order}
use chromecast_sink.Channel.Dispatcher.Written.{Whole, Begins}
use chromecast_sink.Channel.Dispatcher.Kept.{dispatcher-Begins}
use chromecast_sink.Channel.Dispatcher.Delivered.{IsDelivered, dispatcher-IsDelivered}
use chromecast_sink.Channel.Handle.{CastChannel}
use chromecast_sink.Channel.Connect.{
  IoError, os_error, addr_not_available, ConnectError, unresolved, tcp_connect, socket_option,
  invalid_server_name, tls_init, tls_handshake, not_written, Network, resolve, find_stream, set_up,
  stream_or, connect_message, fresh_channel, fresh_session, connect,
}

-- The last of these addresses refused with this error, or there was none.
abbrev pub last_refusal : (ℕ → Option ℕ) → Option IoError → List ℕ → Option IoError
last_refusal attempt e [] = e
last_refusal attempt e (a ∷ as') = elim (attempt a) [
  | none ↦ last_refusal attempt e as'
  | some code ↦ last_refusal attempt (some (os_error code)) as'
]

abbrev pub Refuses : (ℕ → Option ℕ) → ℕ → Type 0
Refuses attempt a = (code : ℕ) × (attempt a ≡ some code)

-- The first address that connects, with those before it; or all refuse, and the error is the last's.
abbrev pub IsFirst : (ℕ → Option ℕ) → Option IoError → List ℕ → Result (Option IoError) ℕ → Type 0
IsFirst attempt e addrs (ok addr) =
    (before behind : List ℕ) × (addrs ≡ before ++ (addr ∷ behind))
    × All (Refuses attempt) before
    × (attempt addr ≡ none)
IsFirst attempt e addrs (err last) =
    All (Refuses attempt) addrs × (last ≡ last_refusal attempt e addrs)

find_stream-IsFirst :
    (attempt : ℕ → Option ℕ) (e : Option IoError) (addrs : List ℕ)
    → IsFirst attempt e addrs (find_stream attempt e addrs)
unfolding find_stream
find_stream-IsFirst attempt e [] = (tt, refl)
find_stream-IsFirst attempt e (a ∷ addrs) = elim (Option-cases (attempt a)) [
  | inl free ↦ rw (free, find_stream) ([], addrs, refl, tt, free)
  | inr (code, busy) ↦
      let rest = find_stream-IsFirst attempt (some (os_error code)) addrs in
      rw (busy, find_stream)
        (one_more attempt e a addrs code busy (find_stream attempt (some (os_error code)) addrs)
          rest)
]
  where
    one_more :
        (attempt : ℕ → Option ℕ) (e : Option IoError) (a : ℕ) (addrs : List ℕ) (code : ℕ)
        → attempt a ≡ some code
        → (r : Result (Option IoError) ℕ) → IsFirst attempt (some (os_error code)) addrs r
        → IsFirst attempt e (a ∷ addrs) r
    one_more attempt e a addrs code busy (ok addr) (before, behind, split, refused, free) =
        (a ∷ before, behind, ap (λ t. a ∷ t) split, ((code, busy), refused), free)
    one_more attempt e a addrs code busy (err last) (refused, is_last) =
        (((code, busy), refused), rw (busy, last_refusal) is_last)

-- Name resolution and TCP have led to this address.
abbrev pub IsReached : Network → ℕ → Type 0
IsReached n addr =
    (addrs : List ℕ) × (n.resolved ≡ some addrs) × IsFirst n.attempt none addrs (ok addr)

-- What each outcome says of the network.
abbrev pub Outcome : Network → Result ConnectError (ℕ × CastChannel × Session) → Type 0
Outcome n (ok (addr, ch, s)) =
    IsReached n addr
    × (n.options_set ≡ true)
    × (n.name_valid ≡ true)
    × (n.client_made ≡ true)
    × (n.handshaken ≡ true)
    × (n.poll_set ≡ true)
    × (n.connect_sent ≡ true)
Outcome n (err unresolved) = n.resolved ≡ none
Outcome n (err (tcp_connect e)) =
    (addrs : List ℕ) × (n.resolved ≡ some addrs)
    × All (Refuses n.attempt) addrs
    × (e ≡ (elim (last_refusal n.attempt none addrs) [
      | none ↦ addr_not_available
      | some last ↦ last
    ]))
Outcome n (err socket_option) =
    (addr : ℕ) × IsReached n addr
    × ((n.options_set ≡ false) ⊎ ((n.handshaken ≡ true) × (n.poll_set ≡ false)))
Outcome n (err invalid_server_name) = (addr : ℕ) × IsReached n addr × (n.name_valid ≡ false)
Outcome n (err tls_init) = (addr : ℕ) × IsReached n addr × (n.client_made ≡ false)
Outcome n (err tls_handshake) = (addr : ℕ) × IsReached n addr × (n.handshaken ≡ false)
Outcome n (err not_written) =
    (addr : ℕ) × IsReached n addr × (n.handshaken ≡ true) × (n.connect_sent ≡ false)

module _ (json : Json) (local_id : Text) where
  reached-Outcome :
      (n : Network) (addr : ℕ) → IsReached n addr → Outcome n (set_up json local_id n addr)
  reached-Outcome n addr h = elim (Bool-cases n.options_set) [
    | inr f ↦ rw f (addr, h, inl refl)
    | inl o ↦ elim (Bool-cases n.name_valid) [
      | inr f ↦ rw (o, f) (addr, h, refl)
      | inl v ↦ elim (Bool-cases n.client_made) [
        | inr f ↦ rw (o, v, f) (addr, h, refl)
        | inl c ↦ elim (Bool-cases n.handshaken) [
          | inr f ↦ rw (o, v, c, f) (addr, h, refl)
          | inl s ↦ elim (Bool-cases n.poll_set) [
            | inr f ↦ rw (o, v, c, s, f) (addr, h, inr (refl, refl))
            | inl p ↦ elim (Bool-cases n.connect_sent) [
              | inr f ↦ rw (o, v, c, s, p, f) (addr, h, refl, refl)
              | inl w ↦ rw (o, v, c, s, p, w) (h, refl, refl, refl, refl, refl, refl)
            ]
          ]
        ]
      ]
    ]
  ]

  streamed-Outcome :
      (n : Network) (addrs : List ℕ)
      → n.resolved ≡ some addrs
      → (r : Result (Option IoError) ℕ) → IsFirst n.attempt none addrs r
      → Outcome n (stream_or r >>= set_up json local_id n)
  streamed-Outcome n addrs found (ok addr) first = reached-Outcome n addr (addrs, found, first)
  streamed-Outcome n addrs found (err none) (refused, last) =
      (addrs, found, refused, rw (← last) refl)
  streamed-Outcome n addrs found (err (some e)) (refused, last) =
      (addrs, found, refused, rw (← last) refl)

  resolved-Outcome :
      (n : Network) (names : Option (List ℕ))
      → n.resolved ≡ names
      → Outcome n (
          resolve names >>= λ addrs.
          stream_or (find_stream n.attempt none addrs) >>= set_up json local_id n)
  resolved-Outcome n none e = e
  resolved-Outcome n (some addrs) e =
      streamed-Outcome n addrs e (find_stream n.attempt none addrs)
        (find_stream-IsFirst n.attempt none addrs)

  -- However the network answers: a connection opens only to the first address that connects, with
  -- every step behind it done, and each error names the step that failed, that of TCP with the
  -- error of the last address, all of which refused, or with none if there was no address.
  pub connect-Outcome : (n : Network) → Outcome n (connect json local_id n)
  unfolding connect
  connect-Outcome n = resolved-Outcome n n.resolved refl

  -- What an open connection starts with.
  pub connect-eq-ok :
      (n : Network) (addr : ℕ) (ch : CastChannel) (s : Session)
      → connect json local_id n ≡ ok (addr, ch, s)
      → (ch ≡ fresh_channel json local_id n) × (s ≡ fresh_session json local_id n)
  unfolding connect
  connect-eq-ok n addr ch s e = ground arith

  -- Over a connection that opens, whatever the dispatcher meets and whichever writes fail, and leaving
  -- the heartbeats out: the first message written is the CONNECT for the platform's receiver; this and
  -- what the caller enqueued are, in its order, what was written, but for one message at most that was
  -- lost when a write failed in a round, and one in the last flush, and what was never received; all
  -- is written if no write fails.
  pub connect-dispatcher :
      (json_type : Text → Option Text) (n : Network) (addr : ℕ) (ch : CastChannel) (s : Session)
      (ticks : List Tick) (late : List CastMessage)
      → connect json local_id n ≡ ok (addr, ch, s)
      → let d = dispatcher json_type local_id ticks late s in
        Begins (connect_message json local_id) d
        × IsDelivered d (
            connect_message json local_id
            ∷ (of_caller (arrived (take (rounds_read json_type local_id ticks s) ticks))
                ++ of_caller late))
  connect-dispatcher json_type n addr ch s ticks late e =
      let fresh = (connect-eq-ok n addr ch s e).1 in
      let start : in_order s ≡ connect_message json local_id ∷ [] = rw fresh refl in
      let begins : Begins (connect_message json local_id) s = rw fresh ([], refl) in
      let whole : Whole s = rw fresh refl in
      (
        dispatcher-Begins json_type local_id ticks late s (connect_message json local_id) begins,
        rw start at (dispatcher-IsDelivered json_type local_id ticks late s whole),
      )
