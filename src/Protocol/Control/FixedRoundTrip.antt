-- ===== src/Protocol/Control/FixedRoundTrip.antt =====
-- control_payload.cpp: the payloads of fixed size are parsed back, field by field.
use wiretone.Prelude.{ℕ, ◌^◌, ◌≤◌, ◌<◌, ◌≡◌, refl, List, [], ◌∷◌, ◌++◌, arith, length, take, drop}
use wiretone.Protocol.Bytes.{byte_at}
use wiretone.Protocol.Bytes.RoundTrip.{u16_of_bytes, u32_of_bytes, u64_of_bytes, image_of_u64}
use wiretone.Protocol.Packet.{
  stream_stop_payload_size, heartbeat_payload_size, receiver_report_payload_size,
}
use wiretone.Protocol.Control.Types.{
  ControlPayloadError, StreamStopPayload, HeartbeatPayload, ReceiverReportPayload,
}
use wiretone.Protocol.Control.Fixed.{
  encode_stream_stop, parse_stream_stop, encode_heartbeat, parse_heartbeat, encode_receiver_report,
  parse_receiver_report,
}

-- The byte that a stop reason is encoded to is parsed back, for any output with room for it.
pub parse_stream_stop-encode :
    (p : StreamStopPayload) (output : List ℕ)
    → stream_stop_payload_size ≤ length output
    → ((encode_stream_stop p output).0 ≡ ControlPayloadError.none)
      × (parse_stream_stop (take stream_stop_payload_size (encode_stream_stop p output).1)
          ≡ record { error = ControlPayloadError.none; value = p })
unfolding encode_stream_stop parse_stream_stop
parse_stream_stop-encode p (b ∷ output) fits = ground arith
parse_stream_stop-encode p _ fits = absurd (omega arith)

encode_heartbeat-eq-bytes :
    (p : HeartbeatPayload) (output : List ℕ)
    → heartbeat_payload_size ≤ length output
    → encode_heartbeat p output ≡ (
      ControlPayloadError.none,
      image_of_u64 p.sender_monotonic_time_us ++ drop heartbeat_payload_size output,
    )
unfolding encode_heartbeat
encode_heartbeat-eq-bytes p (b0 ∷ b1 ∷ b2 ∷ b3 ∷ b4 ∷ b5 ∷ b6 ∷ b7 ∷ output) fits = ground arith
encode_heartbeat-eq-bytes p _ fits = absurd (omega arith)

parse_heartbeat-bytes :
    (p : HeartbeatPayload)
    → p.sender_monotonic_time_us < 2 ^ 64
    → parse_heartbeat (image_of_u64 p.sender_monotonic_time_us)
      ≡ record { error = ControlPayloadError.none; value = p }
unfolding parse_heartbeat
parse_heartbeat-bytes p w = λ i. record {
  error = ControlPayloadError.none;
  value = record { sender_monotonic_time_us = u64_of_bytes p.sender_monotonic_time_us w i };
}

-- The eight bytes that a sender's time is encoded to are parsed back, for any output with room
-- for them.
pub parse_heartbeat-encode :
    (p : HeartbeatPayload) (output : List ℕ)
    → p.sender_monotonic_time_us < 2 ^ 64
    → heartbeat_payload_size ≤ length output
    → ((encode_heartbeat p output).0 ≡ ControlPayloadError.none)
      × (parse_heartbeat (take heartbeat_payload_size (encode_heartbeat p output).1)
          ≡ record { error = ControlPayloadError.none; value = p })
parse_heartbeat-encode p output w fits =
    rw (encode_heartbeat-eq-bytes p output fits) (refl, parse_heartbeat-bytes p w)

-- The fields lie in the ranges of their C++ types.
pub record HasWidths (p : ReceiverReportPayload) : Type 0 where
  pub highest : p.highest_sequence_number_received < 2 ^ 32
  pub missing : p.cumulative_missing_datagrams < 2 ^ 32
  pub late : p.cumulative_late_datagrams < 2 ^ 32
  pub jitter : p.estimated_network_jitter_us < 2 ^ 32
  pub buffered : p.buffered_audio_ms < 2 ^ 16
  pub underruns : p.cumulative_playback_underruns < 2 ^ 16

abbrev report_bytes : ReceiverReportPayload → List ℕ
report_bytes p =
    byte_at p.highest_sequence_number_received 3
    ∷ byte_at p.highest_sequence_number_received 2
    ∷ byte_at p.highest_sequence_number_received 1
    ∷ byte_at p.highest_sequence_number_received 0
    ∷ byte_at p.cumulative_missing_datagrams 3
    ∷ byte_at p.cumulative_missing_datagrams 2
    ∷ byte_at p.cumulative_missing_datagrams 1
    ∷ byte_at p.cumulative_missing_datagrams 0
    ∷ byte_at p.cumulative_late_datagrams 3
    ∷ byte_at p.cumulative_late_datagrams 2
    ∷ byte_at p.cumulative_late_datagrams 1
    ∷ byte_at p.cumulative_late_datagrams 0
    ∷ byte_at p.estimated_network_jitter_us 3
    ∷ byte_at p.estimated_network_jitter_us 2
    ∷ byte_at p.estimated_network_jitter_us 1
    ∷ byte_at p.estimated_network_jitter_us 0
    ∷ byte_at p.buffered_audio_ms 1
    ∷ byte_at p.buffered_audio_ms 0
    ∷ byte_at p.cumulative_playback_underruns 1
    ∷ byte_at p.cumulative_playback_underruns 0
    ∷ []

encode_receiver_report-eq-bytes :
    (p : ReceiverReportPayload) (output : List ℕ)
    → receiver_report_payload_size ≤ length output
    → encode_receiver_report p output
      ≡ (ControlPayloadError.none, report_bytes p ++ drop receiver_report_payload_size output)
unfolding encode_receiver_report
encode_receiver_report-eq-bytes p
      (b0 ∷ b1 ∷ b2 ∷ b3 ∷ b4 ∷ b5 ∷ b6 ∷ b7 ∷ b8 ∷ b9 ∷ b10 ∷ b11 ∷ b12 ∷ b13 ∷ b14 ∷ b15 ∷ b16
        ∷ b17 ∷ b18 ∷ b19 ∷ output)
      fits =
    ground arith
encode_receiver_report-eq-bytes p _ fits = absurd (omega arith)

parse_receiver_report-bytes :
    (p : ReceiverReportPayload)
    → HasWidths p
    → parse_receiver_report (report_bytes p)
      ≡ record { error = ControlPayloadError.none; value = p }
unfolding parse_receiver_report
parse_receiver_report-bytes p w = λ i. record {
  error = ControlPayloadError.none;
  value = record {
    highest_sequence_number_received = u32_of_bytes p.highest_sequence_number_received w.highest i;
    cumulative_missing_datagrams = u32_of_bytes p.cumulative_missing_datagrams w.missing i;
    cumulative_late_datagrams = u32_of_bytes p.cumulative_late_datagrams w.late i;
    estimated_network_jitter_us = u32_of_bytes p.estimated_network_jitter_us w.jitter i;
    buffered_audio_ms = u16_of_bytes p.buffered_audio_ms w.buffered i;
    cumulative_playback_underruns = u16_of_bytes p.cumulative_playback_underruns w.underruns i;
  };
}

-- The twenty bytes that a report with fields in the ranges of their types is encoded to are parsed
-- back to it, for any output with room for them.
pub parse_receiver_report-encode :
    (p : ReceiverReportPayload) (output : List ℕ)
    → HasWidths p
    → receiver_report_payload_size ≤ length output
    → ((encode_receiver_report p output).0 ≡ ControlPayloadError.none)
      × (parse_receiver_report
            (take receiver_report_payload_size (encode_receiver_report p output).1)
          ≡ record { error = ControlPayloadError.none; value = p })
parse_receiver_report-encode p output w fits =
    rw (encode_receiver_report-eq-bytes p output fits) (refl, parse_receiver_report-bytes p w)
