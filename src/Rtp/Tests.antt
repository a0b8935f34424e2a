-- ===== src/Rtp/Tests.antt =====
-- The theorems on src/cast_rtp.rs at concrete inputs.
use mathlib.Core.List.{foldl}
use mathlib.Core.Option
use chromecast_sink.Base.{
  ap, ℕ, ◌+◌, ◌*◌, ◌%◌, ◌≤◌, ◌^◌, ◌≡◌, ◌≢◌, refl, inl, u32, u64, true, false, none, some, List, [],
  ◌∷◌, map, length, All, if◌then◌else◌, arith,
}
use chromecast_sink.Rtp.Samples.{config, flipping}
use chromecast_sink.Rtp.Packet.{build_packet}
use chromecast_sink.Rtp.Packet.Nonce.{counter_block, counter_block-ne}
use chromecast_sink.Rtp.Packet.View.{read_rtp, read_rtp-build_packet}
use chromecast_sink.Rtp.History.{SentPacket, History, new, get_mut, record_packet}
use chromecast_sink.Rtp.History.Window.{
  IsHistory, new-IsHistory, record_packet-IsHistory, get_mut-record_packet, record_run, in_window,
  get_mut-record_run,
}
use chromecast_sink.Rtp.Feedback.{expand_le, parse_nacked_frames}
use chromecast_sink.Rtp.Feedback.Bounds.{IsNear, parse_nacked_frames_bounded}
use chromecast_sink.Rtp.Feedback.Compound.{
  Report, Block, other, feedback, compound, IsBlock, apply_block,
}
use chromecast_sink.Rtp.Feedback.Parse.{start, parse_nacked_frames-compound}
use chromecast_sink.Rtp.Sender.{CastRtpSender, snapshot, serve_datagram}
use chromecast_sink.Rtp.Sender.Stream.{
  Attempt, send_all, sent_frames, total_bytes, packets_from, send_all_lem, play, play-packets_from,
}
use chromecast_sink.Rtp.Sender.Due.{grants, names, serve_datagram_due}
use chromecast_sink.Rtp.Sender.Resend.{
  resent_id, IsDistinct, WasDue, touch, before_batch, serve_datagram_resends,
}

counter_block-ne_example : counter_block config 3 9 ≢ counter_block config 4 0
counter_block-ne_example =
    counter_block-ne config 3 4 9 0 refl (omega arith) (omega arith) (omega arith) (omega arith)
      (omega arith) (inl (omega arith))

read_rtp-build_packet_example :
    read_rtp (build_packet config (1 ∷ 2 ∷ []) 70_000)
    ≡ some (record {
      version = 2;
      marker = 1;
      payload_type = 127 % 128;
      sequence = 70_000 % 2 ^ 16;
      timestamp = 70_000 * 480 % 2 ^ 32;
      ssrc = 42;
      key_frame = 1;
      has_reference = 1;
      frame_id_low = 70_000 % 256;
      packet_id = 0;
      max_packet_id = 0;
      reference_low = 70_000 % 256;
      payload = 1 ∷ 2 ∷ [];
    })
read_rtp-build_packet_example = read_rtp-build_packet config (1 ∷ 2 ∷ []) 70_000 (omega arith)

-- Frame 5, sent at time 100
abbrev one_sent : History
one_sent = record_packet new 5 (1 ∷ 2 ∷ []) 100

one_sent-IsHistory : IsHistory one_sent
one_sent-IsHistory = record_packet-IsHistory new 5 (1 ∷ 2 ∷ []) 100 new-IsHistory

abbrev packet_of_id : ℕ → List ℕ
packet_of_id id = id ∷ []

abbrev time_of_id : ℕ → ℕ
time_of_id id = id * 10_000_000

get_mut-record_run_example : get_mut (record_run packet_of_id time_of_id 1000 200) 1100 ≡ (
    if in_window packet_of_id time_of_id 1000 200 1100
    then some (record { frame_id = 1100; packet = packet_of_id 1100; sent_at = time_of_id 1100 })
    else none)
get_mut-record_run_example = get_mut-record_run packet_of_id time_of_id 1000 200 1100 (omega arith)

abbrev nack_5 : Report
nack_5 = record {
  receiver_ssrc = 43;
  sender_ssrc = 42;
  checkpoint_low = 4;
  delay = 400;
  losses = record { frame_low = 5; packet_id = 0xffff; bits = 0 } ∷ [];
}

-- A receiver report, then feedback
abbrev blocks : List Block
blocks = other 0 201 (1 ∷ 2 ∷ 3 ∷ 4 ∷ []) ∷ feedback nack_5 ∷ []

blocks-IsBlock : All IsBlock blocks
blocks-IsBlock = omega arith

parse_nacked_frames-compound_example :
    parse_nacked_frames (compound blocks) 42 5 ≡ (foldl (apply_block 42 5) start blocks).nacked
parse_nacked_frames-compound_example = parse_nacked_frames-compound 42 5 blocks blocks-IsBlock

abbrev noise : List ℕ
noise = 0x8f ∷ 206 ∷ 0 ∷ 1 ∷ 9 ∷ 9 ∷ 9 ∷ 9 ∷ []

parse_nacked_frames_bounded_example :
    All (IsNear 5) (parse_nacked_frames noise 42 5)
    × (length (parse_nacked_frames noise 42 5) ≤ 255)
parse_nacked_frames_bounded_example =
    parse_nacked_frames_bounded noise 42 5 (omega arith) (omega arith)

abbrev calls : List Attempt
calls =
    record { opus = 1 ∷ 2 ∷ 3 ∷ []; delivered = true; now = 10 }
    ∷ record { opus = 4 ∷ []; delivered = false; now = 20 }
    ∷ record { opus = 5 ∷ 6 ∷ []; delivered = true; now = 30 }
    ∷ []

-- A sender one frame before its ids wrap
abbrev old_sender : CastRtpSender
old_sender = record {
  config = config;
  frame_id = 4_294_967_295;
  octet_count = 1000;
  history = new;
  nack_stop = false;
  rtcp_running = true;
  nack_running = true;
}

send_all_lem_example :
    ((send_all flipping old_sender calls).1
      ≡ packets_from flipping config 4_294_967_295 (sent_frames calls))
    × (snapshot (send_all flipping old_sender calls).0 ≡ (
      u32 (4_294_967_295 + length (sent_frames calls)),
      u64 (1000 + total_bytes (sent_frames calls)),
    ))
send_all_lem_example = send_all_lem flipping old_sender calls (omega arith) (omega arith)

abbrev opus_frames : List (List ℕ)
opus_frames = (1 ∷ 2 ∷ []) ∷ (3 ∷ []) ∷ []

play-packets_from_example :
    play flipping config 4_294_967_295 (packets_from flipping config 4_294_967_295 opus_frames)
    ≡ map some opus_frames
play-packets_from_example =
    play-packets_from flipping config 4_294_967_295 opus_frames (omega arith) (omega arith)

serve_datagram_resends_example :
    let r =
      serve_datagram 7 42 30_000_000 7 (compound blocks) (before_batch one_sent (true ∷ [])) in
    All (WasDue one_sent 30_000_000) r.resent
    × IsDistinct r.resent
    × ((g : ℕ)
        → get_mut r.history g ≡ (
            if resent_id g r.resent
            then Option.map (touch 30_000_000) (get_mut one_sent g)
            else get_mut one_sent g))
serve_datagram_resends_example =
    serve_datagram_resends one_sent (true ∷ []) 7 42 30_000_000 7 (compound blocks)
      one_sent-IsHistory

abbrev first_sent : SentPacket
first_sent = record { frame_id = 5; packet = 1 ∷ 2 ∷ []; sent_at = 100 }

named_ids : parse_nacked_frames (compound blocks) 42 5 ≡ 5 ∷ []
unfolding expand_le
named_ids = parse_nacked_frames-compound 42 5 blocks blocks-IsBlock

one_sent-last_sent : one_sent.last_sent ≡ some 5
unfolding record_packet
one_sent-last_sent = refl

serve_datagram_due_example :
    resent_id 5
      (serve_datagram 7 42 30_000_000 7
        (compound blocks)
        (before_batch one_sent (true ∷ []))).resent
    ≡ true
serve_datagram_due_example =
    serve_datagram_due one_sent (true ∷ []) 7 42 30_000_000 5 5 (compound blocks) first_sent
      one_sent-IsHistory one_sent-last_sent (ap (names 5) named_ids)
      (get_mut-record_packet new 5 (1 ∷ 2 ∷ []) 100 5 new-IsHistory) (omega arith)
      (ap (λ ids. grants (length ids) (true ∷ [])) named_ids)
