-- ===== src/Channel/Connect.antt =====
-- `connect` of src/cast_channel.rs: from an address to a connection with its dispatcher. Name
-- resolution, TCP and TLS are what they answer.
pub mod Opened
mod Tests
use chromecast_sink.Base.{ℕ, Bool, true, false, Option, none, some, List, [], ◌∷◌, ◌++◌, codes}
use chromecast_sink.Base.Result.{Result, ok, err, ◌>>=◌}
use chromecast_sink.Json.{Json}
use chromecast_sink.Channel.Utf8.{Text}
use chromecast_sink.Channel.Message.{CastMessage}
use chromecast_sink.Channel.Dispatcher.{Session, write, platform_receiver_id}
use chromecast_sink.Channel.Handle.{CastChannel, ns_connection, build_connect_payload, message}

-- An error of the operating system by its code, or `AddrNotAvailable`.
pub data IoError : Type 0 where
  os_error : (code : ℕ) → IoError
  addr_not_available : IoError

pub data ConnectError : Type 0 where
  unresolved : ConnectError
  tcp_connect : IoError → ConnectError
  socket_option invalid_server_name tls_init tls_handshake not_written : ConnectError

-- What is outside. An address is a number; `attempt` is what `connect_timeout` answers for it, an
-- error code, or none for a connection; `connect_sent` is whether the first message can be written,
-- `now` what the dispatcher's first looks at the clock give, `later_answers` how its writes will end,
-- and `senders` whether it takes what is sent to it, as `Handle` and `Dispatcher` have it.
pub record Network : Type 0 where
  pub resolved : Option (List ℕ)
  pub attempt : ℕ → Option ℕ
  pub options_set : Bool
  pub name_valid : Bool
  pub client_made : Bool
  pub handshaken : Bool
  pub poll_set : Bool
  pub connect_sent : Bool
  pub now : ℕ
  pub write_answers : List Bool
  pub taken : List Bool

abbrev pub check : Bool → ConnectError → Result ConnectError (Unit {0})
check true e = ok tt
check false e = err e

infixl 5 ◌>>◌
abbrev pub ◌>>◌ :
    {A : Type 0} → Result ConnectError (Unit {0}) → Result ConnectError A → Result ConnectError A
m >> k = m >>= λ _. k

abbrev pub resolve : Option (List ℕ) → Result ConnectError (List ℕ)
resolve none = err unresolved
resolve (some addrs) = ok addrs

-- `addrs.find_map(..)`: the first address that connects, or the error of the last.
unfoldable pub find_stream : (ℕ → Option ℕ) → Option IoError → List ℕ → Result (Option IoError) ℕ
find_stream attempt last_err [] = err last_err
find_stream attempt last_err (addr ∷ addrs) = elim (attempt addr) [
  | none ↦ ok addr
  | some code ↦ find_stream attempt (some (os_error code)) addrs
]

-- `tcp.ok_or_else(..)`
abbrev pub stream_or : Result (Option IoError) ℕ → Result ConnectError ℕ
stream_or (ok addr) = ok addr
stream_or (err none) = err (tcp_connect addr_not_available)
stream_or (err (some e)) = err (tcp_connect e)

module _ (json : Json) (local_id : Text) where
  -- The first message of every connection.
  abbrev pub connect_message : CastMessage
  connect_message =
      message json local_id platform_receiver_id ns_connection (build_connect_payload json local_id)

  -- What the dispatcher starts with, behind the first message.
  abbrev pub fresh_session : Network → Session
  fresh_session n = record {
    acc = [];
    last_ping = n.now;
    last_rx = n.now;
    stop = false;
    queue = [];
    answers = n.write_answers;
    wire = (connect_message, true) ∷ [];
    forwarded = [];
  }

  abbrev pub fresh_channel : Network → CastChannel
  fresh_channel n = record { answers = n.taken; outbound = []; stop = false; joined = false }

  -- Behind the TCP connection: the options, TLS and the first message.
  abbrev pub set_up : Network → ℕ → Result ConnectError (ℕ × CastChannel × Session)
  set_up n addr = do
    check n.options_set socket_option
    check n.name_valid invalid_server_name
    check n.client_made tls_init
    check n.handshaken tls_handshake
    check n.poll_set socket_option
    check n.connect_sent not_written
    ok (addr, fresh_channel n, fresh_session n)

  -- The address that it is connected to, the caller's end, and what the dispatcher starts with.
  unfoldable pub connect : Network → Result ConnectError (ℕ × CastChannel × Session)
  connect n = do
    addrs ← resolve n.resolved
    addr ← stream_or (find_stream n.attempt none addrs)
    set_up n addr
