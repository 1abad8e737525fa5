-- ===== src/Protocol/Packet/RoundTrip.antt =====
-- packet.cpp: `encode_header` and `parse_datagram` undo one another.
use wiretone.Prelude.{ℕ, ◌≤◌, ◌≡◌, true, List, ◌++◌, arith, length, take, drop, ltb-eq_false}
use wiretone.Protocol.Packet.{
  PacketHeader, ProtocolError, type_value, is_known_packet_type, packet_header_size,
  validate_header, encode_header, parse_datagram,
}
use wiretone.Protocol.Packet.Layout.{
  HasWidths, header_bytes, write_header-eq-bytes, read_header-bytes,
}
use wiretone.Protocol.Packet.Validity.{payload_size-le}

pub encode_header-eq-bytes :
    (h : PacketHeader) (output : List ℕ)
    → packet_header_size ≤ length output
    → validate_header h ≡ ProtocolError.none
    → encode_header h output
      ≡ (ProtocolError.none, header_bytes h ++ drop packet_header_size output)
unfolding encode_header
encode_header-eq-bytes h output fits valid =
    rw (valid, ltb-eq_false (length output) 32 fits, write_header-eq-bytes h output fits)

-- `encode_header` succeeds only where there is room for a valid header.
pub encode_header-ok :
    (h : PacketHeader) (output : List ℕ)
    → (encode_header h output).0 ≡ ProtocolError.none
    → (packet_header_size ≤ length output) × (validate_header h ≡ ProtocolError.none)
unfolding encode_header
encode_header-ok h output e = ground arith

known_of_valid :
    (h : PacketHeader)
    → validate_header h ≡ ProtocolError.none
    → is_known_packet_type (type_value h.type) ≡ true
unfolding validate_header
known_of_valid h v = ground arith

pub parse_datagram-header_bytes :
    (h : PacketHeader) (payload : List ℕ)
    → HasWidths h
    → validate_header h ≡ ProtocolError.none
    → length payload ≡ h.payload_size
    → parse_datagram (header_bytes h ++ payload)
      ≡ record { error = ProtocolError.none; header = h; payload = payload }
unfolding parse_datagram
parse_datagram-header_bytes h payload w valid len =
    rw (read_header-bytes h payload w)
      (ground (arith, known_of_valid h valid, payload_size-le h w valid))

-- A header with fields in the ranges of their types that `encode_header` accepts, followed by
-- a payload of the declared size, is parsed back: no error, the same header, the same payload,
-- whatever the output span held before.
pub parse_datagram-encode_header :
    (h : PacketHeader) (output payload : List ℕ)
    → HasWidths h
    → (encode_header h output).0 ≡ ProtocolError.none
    → length payload ≡ h.payload_size
    → parse_datagram (take packet_header_size (encode_header h output).1 ++ payload)
      ≡ record { error = ProtocolError.none; header = h; payload = payload }
parse_datagram-encode_header h output payload w e len =
    let (fits, valid) = encode_header-ok h output e in
    rw (encode_header-eq-bytes h output fits valid)
      (parse_datagram-header_bytes h payload w valid len)
