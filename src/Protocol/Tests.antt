-- ===== src/Protocol/Tests.antt =====
-- Packets and payloads at concrete values.
use wiretone.Prelude.{ℕ, ◌≡◌, ◌↔◌, refl, List, [], ◌∷◌, ◌++◌, arith, All, take, drop, replicate}
use wiretone.Protocol.Bytes.{IsByte}
use wiretone.Protocol.Packet.{
  PacketType, PacketHeader, ProtocolError, packet_header_size, validate_header, encode_header,
  parse_datagram, read_header,
}
use wiretone.Protocol.Packet.Layout.{HasWidths, header_bytes}
use wiretone.Protocol.Packet.RoundTrip.{parse_datagram-encode_header}
use wiretone.Protocol.Packet.Canonical.{encode_header-parse_datagram}
use wiretone.Protocol.Control.Types.{
  Codec, ControlPayloadError, StreamStartPayload, HeartbeatPayload, ReceiverReportPayload,
  ErrorPayloadView,
}
use wiretone.Protocol.Control.Start.{
  is_known_codec, validate_stream_start, encode_stream_start, parse_stream_start,
}
use wiretone.Protocol.Control.StartRoundTrip.{validate_stream_start_iff, parse_stream_start-encode}
use wiretone.Protocol.Control.StartRoundTrip
use wiretone.Protocol.Control.Fixed.{
  encode_stream_stop, parse_stream_stop, encode_heartbeat, parse_heartbeat, encode_receiver_report,
  parse_receiver_report,
}
use wiretone.Protocol.Control.FixedRoundTrip.{
  parse_stream_stop-encode, parse_heartbeat-encode, parse_receiver_report-encode,
}
use wiretone.Protocol.Control.Message.{
  encoded_error_payload_size, encode_error_payload, parse_error_payload,
}
use wiretone.Protocol.Control.Utf8.{valid_utf8}
use wiretone.Protocol.Control.MessageRoundTrip.{parse_error_payload-encode}

abbrev stop_header : PacketHeader
stop_header = record {
  version = 1;
  type = PacketType.stream_stop;
  flags = 0;
  stream_id = 0x1234_5678;
  sequence_number = 9;
  timestamp_samples = 960;
  payload_size = 1;
  fragment_index = 0;
  fragment_count = 1;
  frame_id = 0;
}

abbrev dirty_output : List ℕ
dirty_output = replicate 33 0xAA

stop_header-HasWidths : HasWidths stop_header
stop_header-HasWidths = ground arith

stop_header-encodes : (encode_header stop_header dirty_output).0 ≡ ProtocolError.none
unfolding encode_header validate_header
stop_header-encodes = refl

parse_datagram-encode_header_example :
    parse_datagram (take packet_header_size (encode_header stop_header dirty_output).1 ++ (3 ∷ []))
    ≡ record { error = ProtocolError.none; header = stop_header; payload = 3 ∷ [] }
parse_datagram-encode_header_example =
    parse_datagram-encode_header stop_header dirty_output (3 ∷ []) stop_header-HasWidths
      stop_header-encodes refl

abbrev stop_datagram : List ℕ
stop_datagram = header_bytes stop_header ++ (3 ∷ [])

stop_datagram-IsByte : All IsByte stop_datagram
stop_datagram-IsByte = ground arith

stop_datagram-parses : (parse_datagram stop_datagram).error ≡ ProtocolError.none
unfolding parse_datagram read_header validate_header
stop_datagram-parses = refl

encode_header-parse_datagram_example :
    (encode_header (parse_datagram stop_datagram).header dirty_output ≡ (
      ProtocolError.none,
      take packet_header_size stop_datagram ++ drop packet_header_size dirty_output,
    ))
    × (take packet_header_size stop_datagram ++ (parse_datagram stop_datagram).payload
        ≡ stop_datagram)
encode_header-parse_datagram_example =
    encode_header-parse_datagram stop_datagram dirty_output stop_datagram-IsByte
      stop_datagram-parses (omega arith)

abbrev opus_start : StreamStartPayload
opus_start = record {
  codec = Codec.opus;
  channels = 2;
  frame_duration_ms = 20;
  sample_rate = 48_000;
  target_bitrate = 96_000;
  pre_skip_samples = 312;
}

validate_stream_start_iff_example :
    (validate_stream_start opus_start ≡ ControlPayloadError.none)
    ↔ StartRoundTrip.ObeysProtocol opus_start
validate_stream_start_iff_example = validate_stream_start_iff opus_start tt

opus_start-encodes : (encode_stream_start opus_start dirty_output).0 ≡ ControlPayloadError.none
unfolding encode_stream_start validate_stream_start is_known_codec
opus_start-encodes = refl

parse_stream_start-encode_example :
    parse_stream_start (take 16 (encode_stream_start opus_start dirty_output).1)
    ≡ record { error = ControlPayloadError.none; value = opus_start }
parse_stream_start-encode_example =
    parse_stream_start-encode opus_start dirty_output (ground arith) tt opus_start-encodes

parse_stream_stop-encode_example :
    ((encode_stream_stop (record { reason = 3 }) dirty_output).0 ≡ ControlPayloadError.none)
    × (parse_stream_stop (take 1 (encode_stream_stop (record { reason = 3 }) dirty_output).1)
        ≡ record { error = ControlPayloadError.none; value = record { reason = 3 } })
parse_stream_stop-encode_example =
    parse_stream_stop-encode (record { reason = 3 }) dirty_output (omega arith)

abbrev beat : HeartbeatPayload
beat = record { sender_monotonic_time_us = 0xFFFF_FFFF_FFFF_FFFF }

parse_heartbeat-encode_example :
    ((encode_heartbeat beat dirty_output).0 ≡ ControlPayloadError.none)
    × (parse_heartbeat (take 8 (encode_heartbeat beat dirty_output).1)
        ≡ record { error = ControlPayloadError.none; value = beat })
parse_heartbeat-encode_example =
    parse_heartbeat-encode beat dirty_output (omega arith) (omega arith)

abbrev report : ReceiverReportPayload
report = record {
  highest_sequence_number_received = 0xFFFF_FFFF;
  cumulative_missing_datagrams = 7;
  cumulative_late_datagrams = 8;
  estimated_network_jitter_us = 1_500;
  buffered_audio_ms = 40;
  cumulative_playback_underruns = 65_535;
}

parse_receiver_report-encode_example :
    ((encode_receiver_report report dirty_output).0 ≡ ControlPayloadError.none)
    × (parse_receiver_report (take 20 (encode_receiver_report report dirty_output).1)
        ≡ record { error = ControlPayloadError.none; value = report })
parse_receiver_report-encode_example =
    parse_receiver_report-encode report dirty_output (ground arith) (omega arith)

-- `é!` in UTF-8
abbrev complaint : ErrorPayloadView
complaint = record { code = 0x0102; message = 0xC3 ∷ 0xA9 ∷ 0x21 ∷ [] }

complaint-encodes : (encode_error_payload complaint dirty_output).0 ≡ ControlPayloadError.none
unfolding encode_error_payload valid_utf8
complaint-encodes = refl

parse_error_payload-encode_example :
    parse_error_payload (
      take
        (encoded_error_payload_size complaint.message)
        (encode_error_payload complaint dirty_output).1)
    ≡ record { error = ControlPayloadError.none; value = complaint }
parse_error_payload-encode_example =
    parse_error_payload-encode complaint dirty_output (omega arith) complaint-encodes
