-- ===== src/Protocol/Packet/Parsed.antt =====
-- packet.cpp: what a call of `parse_datagram` that reports no error says of the datagram.
use wiretone.Prelude.{
  ℕ, zero, suc, ◌+◌, ◌≤◌, ◌≡◌, true, List, [], ◌∷◌, arith, All, length, drop, get_or,
}
use wiretone.Protocol.Bytes.{IsByte}
use wiretone.Protocol.Packet.{
  ProtocolError, ParseResult, packet_type, packet_header_size, packet_magic, maximum_datagram_size,
  has_prefix, validate_header, read_header, parse_datagram,
}
use wiretone.Protocol.Packet.Layout.{IsPacketType, HasWidths}

pub record IsParsed (d : List ℕ) (r : ParseResult) : Type 0 where
  pub header_fits : packet_header_size ≤ length d
  pub datagram_fits : length d ≤ maximum_datagram_size
  pub magic : has_prefix packet_magic d ≡ true
  pub valid : validate_header r.header ≡ ProtocolError.none
  pub header : r.header ≡ read_header d
  pub payload : r.payload ≡ drop packet_header_size d
  pub declared : length d ≡ packet_header_size + r.header.payload_size

pub parse_datagram-IsParsed :
    (d : List ℕ) → (parse_datagram d).error ≡ ProtocolError.none → IsParsed d (parse_datagram d)
unfolding parse_datagram
parse_datagram-IsParsed d e = ground arith

IsByte-get_or : (d : List ℕ) (i : ℕ) → All IsByte d → IsByte (get_or d i 0)
IsByte-get_or [] i h = omega arith
IsByte-get_or (b ∷ d) zero h = h.0
IsByte-get_or (b ∷ d) (suc i) h = IsByte-get_or d i h.1

packet_type-IsPacketType : (v : ℕ) → IsByte v → IsPacketType (packet_type v)
packet_type-IsPacketType v h = ground arith

pub read_header-HasWidths : (d : List ℕ) → All IsByte d → HasWidths (read_header d)
unfolding read_header
read_header-HasWidths d h = record {
  version = IsByte-get_or d 4 h;
  type = packet_type-IsPacketType (get_or d 5 0) (IsByte-get_or d 5 h);
  flags = omega arith;
  stream_id = omega arith;
  sequence_number = omega arith;
  timestamp_samples = omega arith;
  payload_size = omega arith;
  fragment_index = IsByte-get_or d 26 h;
  fragment_count = IsByte-get_or d 27 h;
  frame_id = omega arith;
}
