-- ===== src/Protocol/Audio/Tests.antt =====
-- A frame of two datagrams, sent and received.
use wiretone.Prelude.{ℕ, ◌+◌, ◌≡◌, ◌↔◌, refl, true, List, [], ◌∷◌, ◌++◌, All, arith, replicate}
use wiretone.Protocol.Bytes.{IsByte}
use wiretone.Protocol.Packet.{PacketType, ProtocolError, parse_datagram}
use wiretone.Protocol.Packet.Layout.{header_bytes}
use wiretone.Protocol.Audio.Types.{AudioFrameView, AudioFrameError}
use wiretone.Protocol.Audio.Fragment.{validate_frame_view, fragment_count, fragment_audio_frame}
use wiretone.Protocol.Audio.Fragmented.{HasWidths}
use wiretone.Protocol.Audio.Parts.{IsFragmentation, fragment_audio_frame-IsFragmentation}
use wiretone.Protocol.Audio.Sent.{fragment_audio_frame-IsWired}
use wiretone.Protocol.Audio.Slot.{empty_slot, is_expired, expire_slots}
use wiretone.Protocol.Audio.Reassembler.{reset, accept_datagram}
use wiretone.Protocol.Audio.Reassembly.{
  CanBegin, IsOrder, CompletesLast, deliver, sent, deliver-CompletesLast,
}
use wiretone.Protocol.Audio.Clock.{accept_datagram-stream}
use wiretone.Protocol.Audio.Rules.{check_shape, ObeysRules, parse_datagram-iff-ObeysRules}

abbrev two_part_frame : AudioFrameView
two_part_frame = record {
  stream_id = 7;
  first_sequence_number = 0xFFFF_FFFF;
  timestamp_samples = 1_920;
  frame_id = 3;
  flags = 1;
  payload = replicate 1_169 5;
}

two_part_frame-HasWidths : HasWidths two_part_frame
two_part_frame-HasWidths = ground arith

two_part_frame-valid : validate_frame_view two_part_frame ≡ AudioFrameError.none
unfolding validate_frame_view
two_part_frame-valid = refl

fragment_audio_frame-IsFragmentation_example :
    IsFragmentation two_part_frame (fragment_audio_frame two_part_frame)
fragment_audio_frame-IsFragmentation_example =
    fragment_audio_frame-IsFragmentation two_part_frame two_part_frame-HasWidths
      two_part_frame-valid

two_parts : fragment_count two_part_frame ≡ 2
unfolding fragment_count
two_parts = refl

fresh-CanBegin : CanBegin two_part_frame reset 100 0
unfolding reset expire_slots is_expired empty_slot
fresh-CanBegin = record { late = refl; unknown = ground arith; free = refl }

last_first : IsOrder two_part_frame ((1, 100) ∷ (0, 130) ∷ [])
unfolding fragment_count
last_first = ground arith

two_datagrams : 1 + 1 ≡ (fragment_audio_frame two_part_frame).datagram_count
two_datagrams = omega (
  arith,
  two_parts,
  (fragment_audio_frame-IsWired two_part_frame two_part_frame-HasWidths
      two_part_frame-valid).datagram_count,
)

-- The second datagram comes first.
deliver-CompletesLast_example :
    CompletesLast two_part_frame (deliver (sent two_part_frame) reset ((1, 100) ∷ (0, 130) ∷ []))
deliver-CompletesLast_example =
    deliver-CompletesLast two_part_frame reset 0 1 100 ((0, 130) ∷ []) two_part_frame-HasWidths
      two_part_frame-valid fresh-CanBegin last_first (ground arith) two_datagrams

-- A frame of silence is one datagram.
abbrev silent_frame : AudioFrameView
silent_frame = record {
  stream_id = 7;
  first_sequence_number = 1;
  timestamp_samples = 960;
  frame_id = 2;
  flags = 2;
  payload = [];
}

silent_frame-valid : validate_frame_view silent_frame ≡ AudioFrameError.none
unfolding validate_frame_view
silent_frame-valid = refl

silent_frame-CanBegin : CanBegin silent_frame reset 100 0
unfolding reset expire_slots is_expired empty_slot
silent_frame-CanBegin = record { late = refl; unknown = ground arith; free = refl }

silent-IsOrder : IsOrder silent_frame ((0, 100) ∷ [])
unfolding fragment_count
silent-IsOrder = ground arith

one_part : fragment_count silent_frame ≡ 1
unfolding fragment_count
one_part = refl

one_datagram : 1 + 0 ≡ (fragment_audio_frame silent_frame).datagram_count
one_datagram = omega (
  arith,
  one_part,
  (fragment_audio_frame-IsWired silent_frame (ground arith) silent_frame-valid).datagram_count,
)

silence-completes : (accept_datagram reset (sent silent_frame 0) 100).0.frame_completed ≡ true
silence-completes =
    (deliver-CompletesLast silent_frame reset 0 0 100 [] (ground arith) silent_frame-valid
      silent_frame-CanBegin silent-IsOrder tt one_datagram).frame_completed

accept_datagram-stream_example :
    (accept_datagram reset (sent silent_frame 0) 100).0.frame.stream_id
    ≡ (parse_datagram (sent silent_frame 0)).header.stream_id
accept_datagram-stream_example =
    accept_datagram-stream reset (sent silent_frame 0) 100 silence-completes

-- The last of two fragments.
abbrev last_fragment : List ℕ
last_fragment =
    header_bytes (record {
      version = 1;
      type = PacketType.audio;
      flags = 0;
      stream_id = 7;
      sequence_number = 3;
      timestamp_samples = 0;
      payload_size = 1;
      fragment_index = 1;
      fragment_count = 2;
      frame_id = 1;
    })
    ++ (9 ∷ [])

last_fragment-IsByte : All IsByte last_fragment
last_fragment-IsByte = ground arith

parse_datagram-iff-ObeysRules_example :
    (((parse_datagram last_fragment).error ≡ ProtocolError.none)
      × (check_shape (parse_datagram last_fragment) ≡ AudioFrameError.none))
    ↔ ObeysRules last_fragment
parse_datagram-iff-ObeysRules_example =
    parse_datagram-iff-ObeysRules last_fragment last_fragment-IsByte
