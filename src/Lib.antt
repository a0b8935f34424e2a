-- ===== src/Lib.antt =====
-- chromecast-sink: a verification library beside the Rust sources.
--
-- chromecast-sink offers a virtual sound card, encodes what is played on it with Opus and sends it to a
-- Chromecast. Samples go from the audio thread to the encoder through a ring; every Opus frame is
-- encrypted, put into one RTP packet and sent over UDP; lost frames are sent again when the receiver's
-- feedback names them; the session is set up over a TLS channel that carries length-prefixed protobuf
-- messages.
--
-- Files and the code they model:
-- - Base: bytes, words of fixed width, bits, lists, text literals and results that the modules share.
-- - Json: an interface of JSON values, which the sources build and read with serde_json.
-- - Channel (src/cast_channel.rs): Varint is write_varint and read_varint; Utf8 is
--   String::from_utf8_lossy; Message is CastMessage with encode_cast_message and
--   decode_cast_message; Frame is take_frame, the bytes of write_message, and the receive loop of
--   dispatcher; Dispatcher is dispatcher, with what it is given outside (reads, times, messages,
--   answers of writes) as arguments of each round; Handle is CastChannel, the caller's end; Connect is
--   connect, with what name resolution, TCP and TLS answer.
-- - Rtp (src/cast_rtp.rs): Packet is nonce, build_packet and build_rtcp_sr_at; History is the store of
--   sent packets; Feedback is expand_le and parse_nacked_frames; Sender is CastRtpSender with
--   send_frame and the body of serve_nacks; Threads is its three threads (the caller's, the one that
--   start spawns for the reports, the loop of serve_nacks), interleaved at every shared access and
--   every datagram. Samples holds data for tests.
-- - Ring (src/audio_ring.rs): the sample ring, its indices wrapping at 2^64, each operation as a whole;
--   Ring.Steps is the two threads over it, interleaved at every shared access, and Ring.Calls,
--   Ring.Sequence and Ring.Fifo lead from the one to the other.
-- - Capture (src/capture.rs): run, the loop that takes frames off the ring, encodes and sends them;
--   Outages follows its failed sends, Backlog the frames it takes and drops.
-- - Sink (src/virtual_sink.rs): sanitize_sink_name, run_pw_thread as PipeWire's callbacks drive it, and
--   the slice of a buffer that process takes; Handle is VirtualSink: new, take_consumer and its drop.
-- - Loopback (src/virtual_sink_windows.rs): f32le_to_s16le with its floats as sign, exponent and
--   fraction, pump_capture, run_wasapi_thread and float_format; Endpoint is the enumeration of the
--   playback devices and the choice of one; Apartment is Mta, AgileLoopback, start_capture and
--   VirtualSink as the COM references that the two threads acquire and release.
-- - Mirroring (src/mirroring.rs): the session set-up; Launch is launch_mirroring, send_stop and the drop
--   of MirroringSession, Offer is send_offer and parse_answer, Wait and Deadline are about
--   wait_for_json_message.
-- - Discovery (src/discovery.rs): Device::from_txt, is_audio_only_device and discover.
-- - Pipeline (src/pipeline.rs): run, run_with_host and run_with_device with its early returns and its
--   tear-down; Monitor is the thread that spawn_session_monitor starts; Conversation puts a session
--   over a connection of Channel.Connect. Samples holds data for tests.
-- - Cli (src/main.rs): from the parsed arguments to the exit code, with run_with_host of src/pipeline.rs.
--
-- Numbers are natural numbers with the wrap of a machine word written out; a String is the list of its
-- UTF-8 bytes; an Instant is a number of nanoseconds. A call of the operating system is the answer it
-- gives, passed as an argument: what a socket, a receiver or the mDNS daemon returns, round by round,
-- with the times. JSON values (Json) and the Opus encoder are parameters, and so is AES-128-CTR
-- (Rtp.Sender.Cipher), which undoes itself and keeps lengths. Random bytes and the process's sender id
-- are arguments.
--
-- The two threads of the ring are interleaved in one order of their accesses. The sources use relaxed
-- atomics with fences; that these leave no other outcome is an assumption of the model. At 48 kHz the
-- bound of 2^64 samples is reached after millions of years.
--
-- Loops of unknown length run on fuel: the decoder of messages, the loop around take_frame and the
-- loop of parse_nacked_frames take a byte at least in each round, so the length of the input is enough.
-- Loops that wait run over the list of the rounds observed; where it ends first, the wait has no result
-- yet.
--
-- The threads of the RTP sender are interleaved with relaxed loads that may return any value stored so
-- far; that the lock of the history orders what it guards is assumed. A schedule of the two threads of
-- the Windows sink is a list that says whose turn it is.
--
-- Not modelled: the parsing of arguments by clap, the certificate verifier, PipeWire, COM and libopus,
-- which the sources only call; src/opus_enc.rs, a wrapper of libopus; logging and the statistics that
-- the capture loop prints; the examples, which are manual tests on a device.
pub mod Base
pub mod Json
pub mod Channel
pub mod Rtp
pub mod Ring
pub mod Capture
pub mod Sink
pub mod Loopback
pub mod Mirroring
pub mod Discovery
pub mod Pipeline
pub mod Cli
