-- ===== src/Protocol/Packet.antt =====
-- native/protocol/include/wiretone/protocol/packet.hpp and native/protocol/src/packet.cpp: the
-- 32-byte packet header. Machine integers are numbers; their ranges are the predicate
-- `Layout.HasWidths`.
pub mod Layout
pub mod Validity
pub mod Parsed
pub mod RoundTrip
pub mod Canonical
use wiretone.Prelude.{
  ℕ, ◌-◌, Bool, true, false, ◌&&◌, ◌||◌, not, List, [], ◌∷◌, ltb, leb, ◌==◌, ◌!=◌, if◌then◌else◌,
  has_flag, length, get_or, set, drop, fill_n, copy_into,
}
use native.Mathlib.Decide.{ℕ_discrete}
use wiretone.Protocol.Bytes.{write_u16, write_u32, write_u64, read_u16, read_u32, read_u64}

abbrev pub packet_magic : List ℕ
packet_magic = b'W' ∷ b'T' ∷ b'P' ∷ b'K' ∷ []

abbrev pub protocol_version : ℕ
protocol_version = 1

abbrev pub packet_header_size : ℕ
packet_header_size = 32

abbrev pub maximum_datagram_size : ℕ
maximum_datagram_size = 1200

abbrev pub maximum_payload_size : ℕ
maximum_payload_size = maximum_datagram_size - packet_header_size

abbrev pub flag_discontinuity : ℕ
flag_discontinuity = 0x0001

abbrev pub flag_silence : ℕ
flag_silence = 0x0002

-- `static_cast<std::uint16_t>(~known_flag_mask)`, where the mask is 0x0003
abbrev pub unknown_flag_mask : ℕ
unknown_flag_mask = 0xfffc

-- The payload sizes of control_payload.hpp that `valid_payload_size` reads.
abbrev pub stream_start_payload_size : ℕ
stream_start_payload_size = 16

abbrev pub stream_stop_payload_size : ℕ
stream_stop_payload_size = 1

abbrev pub heartbeat_payload_size : ℕ
heartbeat_payload_size = 8

abbrev pub receiver_report_payload_size : ℕ
receiver_report_payload_size = 20

abbrev pub error_payload_minimum_size : ℕ
error_payload_minimum_size = 2

abbrev pub error_payload_maximum_size : ℕ
error_payload_maximum_size = 258

-- A C++ enumeration over `std::uint8_t` may hold any byte: `unlisted` is a value that no
-- enumerator names.
pub data PacketType : Type 0 where
  stream_start stream_stop audio heartbeat receiver_report error : PacketType
  unlisted : ℕ → PacketType

pub PacketType-discrete : Discrete PacketType
PacketType-discrete = hlevel ℕ_discrete

-- `static_cast<std::uint8_t>(type)`
abbrev pub type_value : PacketType → ℕ
type_value PacketType.stream_start = 1
type_value PacketType.stream_stop = 2
type_value PacketType.audio = 3
type_value PacketType.heartbeat = 4
type_value PacketType.receiver_report = 5
type_value PacketType.error = 6
type_value (PacketType.unlisted value) = value

-- `static_cast<PacketType>(value)`
abbrev pub packet_type : ℕ → PacketType
packet_type value =
    if value == 1
    then PacketType.stream_start
    else if value == 2
    then PacketType.stream_stop
    else if value == 3
    then PacketType.audio
    else if value == 4
    then PacketType.heartbeat
    else if value == 5
    then PacketType.receiver_report
    else if value == 6
    then PacketType.error
    else PacketType.unlisted value

pub record PacketHeader : Type 0 where
  pub version : ℕ  -- uint8
  pub type : PacketType
  pub flags : ℕ  -- uint16
  pub stream_id : ℕ  -- uint32
  pub sequence_number : ℕ  -- uint32
  pub timestamp_samples : ℕ  -- uint64
  pub payload_size : ℕ  -- uint16
  pub fragment_index : ℕ  -- uint8
  pub fragment_count : ℕ  -- uint8
  pub frame_id : ℕ  -- uint32

-- `PacketHeader{}`
abbrev pub default_header : PacketHeader
default_header = record {
  version = protocol_version;
  type = PacketType.heartbeat;
  flags = 0;
  stream_id = 0;
  sequence_number = 0;
  timestamp_samples = 0;
  payload_size = 0;
  fragment_index = 0;
  fragment_count = 1;
  frame_id = 0;
}

pub data ProtocolError : Type 0 where
  none output_too_small datagram_too_small datagram_too_large invalid_magic : ProtocolError
  unsupported_version unknown_packet_type unknown_flags zero_stream_id : ProtocolError
  invalid_fragment_count invalid_fragment_index fragmented_control_packet : ProtocolError
  control_packet_has_frame_id audio_packet_has_zero_frame_id invalid_payload_size : ProtocolError
  payload_length_mismatch audio_payload_missing : ProtocolError

-- `error == ProtocolError::none`
abbrev pub is_none : ProtocolError → Bool
is_none ProtocolError.none = true
is_none _ = false

pub record ParseResult : Type 0 where
  pub error : ProtocolError
  pub header : PacketHeader
  pub payload : List ℕ

unfoldable pub is_known_packet_type : ℕ → Bool
is_known_packet_type value = leb 1 value && leb value 6

abbrev pub is_audio : PacketType → Bool
is_audio PacketType.audio = true
is_audio _ = false

unfoldable pub is_control_packet : PacketType → Bool
is_control_packet type = not (is_audio type)

unfoldable pub valid_payload_size : PacketType → ℕ → Bool
valid_payload_size PacketType.stream_start size = size == stream_start_payload_size
valid_payload_size PacketType.stream_stop size = size == stream_stop_payload_size
valid_payload_size PacketType.audio size = leb size maximum_payload_size
valid_payload_size PacketType.heartbeat size = size == heartbeat_payload_size
valid_payload_size PacketType.receiver_report size = size == receiver_report_payload_size
valid_payload_size PacketType.error size =
    leb error_payload_minimum_size size && leb size error_payload_maximum_size
valid_payload_size (PacketType.unlisted value) size = false

-- The last two tests of `validate_header`, which every kind of packet reaches.
validate_payload_size : PacketHeader → ProtocolError
unfolding valid_payload_size
validate_payload_size h =
    if not (valid_payload_size h.type h.payload_size)
    then ProtocolError.invalid_payload_size
    else if is_audio h.type && h.payload_size == 0 && not (has_flag h.flags flag_silence)
    then ProtocolError.audio_payload_missing
    else ProtocolError.none

unfoldable pub validate_header : PacketHeader → ProtocolError
unfolding validate_payload_size is_known_packet_type is_control_packet
validate_header h =
    if h.version != protocol_version
    then ProtocolError.unsupported_version
    else if not (is_known_packet_type (type_value h.type))
    then ProtocolError.unknown_packet_type
    else if has_flag h.flags unknown_flag_mask
    then ProtocolError.unknown_flags
    else if h.stream_id == 0
    then ProtocolError.zero_stream_id
    else if h.fragment_count == 0
    then ProtocolError.invalid_fragment_count
    else if leb h.fragment_count h.fragment_index
    then ProtocolError.invalid_fragment_index
    else if is_audio h.type && h.frame_id == 0
    then ProtocolError.audio_packet_has_zero_frame_id
    else if is_control_packet h.type
    then (if h.flags != 0
        then ProtocolError.unknown_flags
        else if h.fragment_count != 1 || h.fragment_index != 0
        then ProtocolError.fragmented_control_packet
        else if h.frame_id != 0
        then ProtocolError.control_packet_has_frame_id
        else validate_payload_size h)
    else validate_payload_size h

-- The writes of `encode_header` after its two guards.
unfoldable pub write_header : PacketHeader → List ℕ → List ℕ
unfolding write_u16 write_u32 write_u64
write_header h output =
    let output = fill_n output packet_header_size 0 in
    let output = copy_into output 0 packet_magic in
    let output = set output 4 h.version in
    let output = set output 5 (type_value h.type) in
    let output = write_u16 output 6 h.flags in
    let output = write_u32 output 8 h.stream_id in
    let output = write_u32 output 12 h.sequence_number in
    let output = write_u64 output 16 h.timestamp_samples in
    let output = write_u16 output 24 h.payload_size in
    let output = set output 26 h.fragment_index in
    let output = set output 27 h.fragment_count in write_u32 output 28 h.frame_id

-- The error, and the output span after the call.
unfoldable pub encode_header : PacketHeader → List ℕ → ProtocolError × List ℕ
encode_header h output =
    if ltb (length output) packet_header_size
    then (ProtocolError.output_too_small, output)
    else if not (is_none (validate_header h))
    then (validate_header h, output)
    else (ProtocolError.none, write_header h output)

-- `std::equal` of a first range against the bytes from the start of the second.
abbrev pub has_prefix : List ℕ → List ℕ → Bool
has_prefix [] _ = true
has_prefix (_ ∷ _) [] = false
has_prefix (m ∷ ms) (b ∷ bs) = m == b && has_prefix ms bs

unfoldable pub read_header : List ℕ → PacketHeader
unfolding read_u16 read_u32 read_u64
read_header datagram = record {
  version = get_or datagram 4 0;
  type = packet_type (get_or datagram 5 0);
  flags = read_u16 datagram 6;
  stream_id = read_u32 datagram 8;
  sequence_number = read_u32 datagram 12;
  timestamp_samples = read_u64 datagram 16;
  payload_size = read_u16 datagram 24;
  fragment_index = get_or datagram 26 0;
  fragment_count = get_or datagram 27 0;
  frame_id = read_u32 datagram 28;
}

abbrev pub parse_error : ProtocolError → PacketHeader → ParseResult
parse_error e h = record { error = e; header = h; payload = [] }

unfoldable pub parse_datagram : List ℕ → ParseResult
unfolding is_known_packet_type
parse_datagram datagram =
    if ltb (length datagram) packet_header_size
    then parse_error ProtocolError.datagram_too_small default_header
    else if ltb maximum_datagram_size (length datagram)
    then parse_error ProtocolError.datagram_too_large default_header
    else if not (has_prefix packet_magic datagram)
    then parse_error ProtocolError.invalid_magic default_header
    else if not (is_known_packet_type (get_or datagram 5 0))
    then parse_error ProtocolError.unknown_packet_type default_header
    else if not (is_none (validate_header (read_header datagram)))
    then parse_error (validate_header (read_header datagram)) (read_header datagram)
    else if length datagram - packet_header_size != (read_header datagram).payload_size
    then parse_error ProtocolError.payload_length_mismatch (read_header datagram)
    else record {
      error = ProtocolError.none;
      header = read_header datagram;
      payload = drop packet_header_size datagram;
    }
