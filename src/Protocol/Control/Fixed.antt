-- ===== src/Protocol/Control/Fixed.antt =====
-- control_payload.cpp: `stream_stop`, `heartbeat` and `receiver_report`, whose payloads have a fixed
-- size and no further rules.
use wiretone.Prelude.{ℕ, List, ltb, ◌!=◌, if◌then◌else◌, length, get_or, set}
use wiretone.Protocol.Bytes.{write_u16, write_u32, write_u64, read_u16, read_u32, read_u64}
use wiretone.Protocol.Packet.{
  stream_stop_payload_size, heartbeat_payload_size, receiver_report_payload_size,
}
use wiretone.Protocol.Control.Types.{
  ControlPayloadError, ControlParseResult, StreamStopPayload, HeartbeatPayload,
  ReceiverReportPayload,
}

unfoldable pub encode_stream_stop : StreamStopPayload → List ℕ → ControlPayloadError × List ℕ
encode_stream_stop p output =
    if ltb (length output) stream_stop_payload_size
    then (ControlPayloadError.output_too_small, output)
    else (ControlPayloadError.none, set output 0 p.reason)

unfoldable pub parse_stream_stop : List ℕ → ControlParseResult StreamStopPayload
parse_stream_stop payload =
    if length payload != stream_stop_payload_size
    then record { error = ControlPayloadError.invalid_payload_size; value = record { reason = 0 } }
    else record { error = ControlPayloadError.none; value = record { reason = get_or payload 0 0 } }

unfoldable pub encode_heartbeat : HeartbeatPayload → List ℕ → ControlPayloadError × List ℕ
unfolding write_u64
encode_heartbeat p output =
    if ltb (length output) heartbeat_payload_size
    then (ControlPayloadError.output_too_small, output)
    else (ControlPayloadError.none, write_u64 output 0 p.sender_monotonic_time_us)

unfoldable pub parse_heartbeat : List ℕ → ControlParseResult HeartbeatPayload
unfolding read_u64
parse_heartbeat payload =
    if length payload != heartbeat_payload_size
    then record {
      error = ControlPayloadError.invalid_payload_size;
      value = record { sender_monotonic_time_us = 0 };
    }
    else record {
      error = ControlPayloadError.none;
      value = record { sender_monotonic_time_us = read_u64 payload 0 };
    }

unfoldable pub encode_receiver_report :
    ReceiverReportPayload → List ℕ → ControlPayloadError × List ℕ
unfolding write_u16 write_u32
encode_receiver_report p output =
    if ltb (length output) receiver_report_payload_size
    then (ControlPayloadError.output_too_small, output)
    else (ControlPayloadError.none, written)
  where
    written : List ℕ
    written =
        let output = write_u32 output 0 p.highest_sequence_number_received in
        let output = write_u32 output 4 p.cumulative_missing_datagrams in
        let output = write_u32 output 8 p.cumulative_late_datagrams in
        let output = write_u32 output 12 p.estimated_network_jitter_us in
        let output = write_u16 output 16 p.buffered_audio_ms in
        write_u16 output 18 p.cumulative_playback_underruns

unfoldable pub parse_receiver_report : List ℕ → ControlParseResult ReceiverReportPayload
unfolding read_u16 read_u32
parse_receiver_report payload =
    if length payload != receiver_report_payload_size
    then record {
      error = ControlPayloadError.invalid_payload_size;
      value = record {
        highest_sequence_number_received = 0;
        cumulative_missing_datagrams = 0;
        cumulative_late_datagrams = 0;
        estimated_network_jitter_us = 0;
        buffered_audio_ms = 0;
        cumulative_playback_underruns = 0;
      };
    }
    else record {
      error = ControlPayloadError.none;
      value = record {
        highest_sequence_number_received = read_u32 payload 0;
        cumulative_missing_datagrams = read_u32 payload 4;
        cumulative_late_datagrams = read_u32 payload 8;
        estimated_network_jitter_us = read_u32 payload 12;
        buffered_audio_ms = read_u16 payload 16;
        cumulative_playback_underruns = read_u16 payload 18;
      };
    }
