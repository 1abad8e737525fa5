-- ===== src/Protocol/Control/StartRoundTrip.antt =====
-- control_payload.cpp: `encode_stream_start` and `parse_stream_start` undo one another.
use wiretone.Prelude.{
  ℕ, ◌^◌, ◌≤◌, ◌<◌, ◌≡◌, ◌≢◌, ◌↔◌, refl, ◌⊎◌, true, List, [], ◌∷◌, ◌++◌, arith, length, take, drop,
  ltb-eq_false, fill_n-eq-replicate,
}
use wiretone.Protocol.Bytes.{byte_at}
use wiretone.Protocol.Bytes.RoundTrip.{u16_of_bytes, u32_of_bytes}
use wiretone.Protocol.Packet.{stream_start_payload_size}
use wiretone.Protocol.Control.Types.{
  Codec, codec_value, codec_of, ControlPayloadError, StreamStartPayload,
}
use wiretone.Protocol.Control.Start.{
  validate_stream_start, write_stream_start, encode_stream_start, read_stream_start,
  parse_stream_start, is_known_codec,
}

-- The fields lie in the ranges of their C++ types.
pub record HasWidths (p : StreamStartPayload) : Type 0 where
  pub channels : p.channels < 2 ^ 8
  pub frame_duration_ms : p.frame_duration_ms < 2 ^ 16
  pub sample_rate : p.sample_rate < 2 ^ 32
  pub target_bitrate : p.target_bitrate < 2 ^ 32
  pub pre_skip_samples : p.pre_skip_samples < 2 ^ 16

abbrev pub start_bytes : StreamStartPayload → List ℕ
start_bytes p =
    codec_value p.codec
    ∷ p.channels
    ∷ byte_at p.frame_duration_ms 1
    ∷ byte_at p.frame_duration_ms 0
    ∷ byte_at p.sample_rate 3
    ∷ byte_at p.sample_rate 2
    ∷ byte_at p.sample_rate 1
    ∷ byte_at p.sample_rate 0
    ∷ byte_at p.target_bitrate 3
    ∷ byte_at p.target_bitrate 2
    ∷ byte_at p.target_bitrate 1
    ∷ byte_at p.target_bitrate 0
    ∷ byte_at p.pre_skip_samples 1
    ∷ byte_at p.pre_skip_samples 0
    ∷ 0
    ∷ 0
    ∷ []

write_stream_start-eq-bytes :
    (p : StreamStartPayload) (output : List ℕ)
    → stream_start_payload_size ≤ length output
    → write_stream_start p output ≡ start_bytes p ++ drop stream_start_payload_size output
unfolding write_stream_start
write_stream_start-eq-bytes p output fits = rw (fill_n-eq-replicate output 16 0 fits)

-- What a format must be, by section 6.1 of docs/PROTOCOL.md.
abbrev pub ObeysCodec : Codec → StreamStartPayload → Type 0
ObeysCodec Codec.pcm_s16le p = (p.target_bitrate ≡ 0) × (p.pre_skip_samples ≡ 0)
ObeysCodec Codec.opus p = p.target_bitrate ≢ 0
ObeysCodec (Codec.unlisted v) p = ⊥

pub record ObeysProtocol (p : StreamStartPayload) : Type 0 where
  pub channels : p.channels ≡ 2
  pub frame_duration_ms : p.frame_duration_ms ≡ 20
  pub sample_rate : p.sample_rate ≡ 48_000
  pub codec : ObeysCodec p.codec p

-- A byte that no enumerator names, or an enumerator.
abbrev pub IsCodec : Codec → Type 0
IsCodec (Codec.unlisted v) = (v ≡ 0) ⊎ (2 < v)
IsCodec _ = Unit {0}

accepted_codec :
    (c : Codec) (p : StreamStartPayload)
    → IsCodec c
    → p.codec ≡ c
    → validate_stream_start p ≡ ControlPayloadError.none
    → ObeysCodec c p
unfolding validate_stream_start
accepted_codec Codec.pcm_s16le p w k e = ground arith
accepted_codec Codec.opus p w k e = ground arith
accepted_codec (Codec.unlisted v) p w k e = ground arith

accepted_obeys :
    (p : StreamStartPayload)
    → IsCodec p.codec
    → validate_stream_start p ≡ ControlPayloadError.none
    → ObeysProtocol p
unfolding validate_stream_start
accepted_obeys p w e = record {
  channels = ground arith;
  frame_duration_ms = ground arith;
  sample_rate = ground arith;
  codec = accepted_codec p.codec p w refl e;
}

obeying_accepted :
    (p : StreamStartPayload) → ObeysProtocol p → validate_stream_start p ≡ ControlPayloadError.none
unfolding validate_stream_start
obeying_accepted p o = ground arith

-- A format whose codec is an enumerator, or a byte that no enumerator names, is accepted exactly
-- when it obeys the protocol's rules.
pub validate_stream_start_iff :
    (p : StreamStartPayload)
    → IsCodec p.codec
    → (validate_stream_start p ≡ ControlPayloadError.none) ↔ ObeysProtocol p
validate_stream_start_iff p w = (accepted_obeys p w, obeying_accepted p)

codec_of-known :
    (c : Codec) → is_known_codec (codec_value c) ≡ true → IsCodec c → codec_of (codec_value c) ≡ c
unfolding is_known_codec
codec_of-known Codec.pcm_s16le k w = refl
codec_of-known Codec.opus k w = refl
codec_of-known (Codec.unlisted v) k w = ground arith

known_of_valid :
    (p : StreamStartPayload)
    → validate_stream_start p ≡ ControlPayloadError.none
    → is_known_codec (codec_value p.codec) ≡ true
unfolding validate_stream_start
known_of_valid p v = ground arith

read_stream_start-bytes :
    (p : StreamStartPayload)
    → HasWidths p
    → codec_of (codec_value p.codec) ≡ p.codec
    → read_stream_start (start_bytes p) ≡ p
unfolding read_stream_start
read_stream_start-bytes p w c = λ i. record {
  codec = c i;
  channels = p.channels;
  frame_duration_ms = u16_of_bytes p.frame_duration_ms w.frame_duration_ms i;
  sample_rate = u32_of_bytes p.sample_rate w.sample_rate i;
  target_bitrate = u32_of_bytes p.target_bitrate w.target_bitrate i;
  pre_skip_samples = u16_of_bytes p.pre_skip_samples w.pre_skip_samples i;
}

parse_stream_start-bytes :
    (p : StreamStartPayload)
    → HasWidths p
    → IsCodec p.codec
    → validate_stream_start p ≡ ControlPayloadError.none
    → parse_stream_start (start_bytes p) ≡ record { error = ControlPayloadError.none; value = p }
unfolding parse_stream_start
parse_stream_start-bytes p w c v =
    let known = known_of_valid p v in
    rw (read_stream_start-bytes p w (codec_of-known p.codec known c), known, v)

encode_stream_start-ok :
    (p : StreamStartPayload) (output : List ℕ)
    → (encode_stream_start p output).0 ≡ ControlPayloadError.none
    → (stream_start_payload_size ≤ length output)
      × (validate_stream_start p ≡ ControlPayloadError.none)
unfolding encode_stream_start
encode_stream_start-ok p output e = ground arith

encode_stream_start-eq-bytes :
    (p : StreamStartPayload) (output : List ℕ)
    → stream_start_payload_size ≤ length output
    → validate_stream_start p ≡ ControlPayloadError.none
    → encode_stream_start p output
      ≡ (ControlPayloadError.none, start_bytes p ++ drop stream_start_payload_size output)
unfolding encode_stream_start
encode_stream_start-eq-bytes p output fits valid =
    rw (valid, ltb-eq_false (length output) 16 fits, write_stream_start-eq-bytes p output fits)

-- The sixteen bytes that an accepted format is encoded to are parsed back to it, without an error.
pub parse_stream_start-encode :
    (p : StreamStartPayload) (output : List ℕ)
    → HasWidths p
    → IsCodec p.codec
    → (encode_stream_start p output).0 ≡ ControlPayloadError.none
    → parse_stream_start (take stream_start_payload_size (encode_stream_start p output).1)
      ≡ record { error = ControlPayloadError.none; value = p }
parse_stream_start-encode p output w c e =
    let (fits, valid) = encode_stream_start-ok p output e in
    rw (encode_stream_start-eq-bytes p output fits valid) (parse_stream_start-bytes p w c valid)
