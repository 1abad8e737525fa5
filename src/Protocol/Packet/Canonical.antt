-- ===== src/Protocol/Packet/Canonical.antt =====
-- packet.cpp: the parser accepts one image of each header only, so what it accepts is what
-- `encode_header` writes.
use wiretone.Prelude.{
  ℕ, ◌≤◌, ◌≡◌, ◌∙◌, ap, true, List, [], ◌∷◌, ◌++◌, arith, length, take, drop, All, take-append-drop,
}
use wiretone.Protocol.Bytes.{IsByte}
use wiretone.Protocol.Packet.{
  ProtocolError, type_value, packet_type, packet_header_size, packet_magic, has_prefix, read_header,
  encode_header, parse_datagram,
}
use wiretone.Protocol.Bytes.RoundTrip.{bytes_of_u16, bytes_of_u32, bytes_of_u64}
use wiretone.Protocol.Packet.Layout.{header_bytes}
use wiretone.Protocol.Packet.Parsed.{parse_datagram-IsParsed}
use wiretone.Protocol.Packet.RoundTrip.{encode_header-eq-bytes}

type_value-packet_type : (v : ℕ) → type_value (packet_type v) ≡ v
type_value-packet_type v = ground arith

magic_bytes :
    (a b c d : ℕ)
    → has_prefix packet_magic (a ∷ b ∷ c ∷ d ∷ []) ≡ true
    → (b'W' ≡ a) × (b'T' ≡ b) × (b'P' ≡ c) × (b'K' ≡ d)
magic_bytes a b c d e = ground arith

-- The bytes of a header that was read from 32 bytes with the right magic are those bytes.
header_bytes-read_header :
    (d : List ℕ)
    → packet_header_size ≤ length d
    → All IsByte d
    → has_prefix packet_magic d ≡ true
    → header_bytes (read_header d) ≡ take packet_header_size d
unfolding read_header
header_bytes-read_header
      (b0 ∷ b1 ∷ b2 ∷ b3 ∷ b4 ∷ b5 ∷ b6 ∷ b7 ∷ b8 ∷ b9 ∷ b10 ∷ b11 ∷ b12 ∷ b13 ∷ b14 ∷ b15 ∷ b16
        ∷ b17 ∷ b18 ∷ b19 ∷ b20 ∷ b21 ∷ b22 ∷ b23 ∷ b24 ∷ b25 ∷ b26 ∷ b27 ∷ b28 ∷ b29 ∷ b30 ∷ b31
        ∷ rest)
      fits h magic =
    let (w, t, p, k) = magic_bytes b0 b1 b2 b3 magic in
    let flags = bytes_of_u16 b6 b7 (h.1.1.1.1.1.1.0) (h.1.1.1.1.1.1.1.0) in
    let stream =
      bytes_of_u32 b8 b9 b10 b11 (h.1.1.1.1.1.1.1.1.0) (h.1.1.1.1.1.1.1.1.1.0)
        (h.1.1.1.1.1.1.1.1.1.1.0) (h.1.1.1.1.1.1.1.1.1.1.1.0) in
    let sequence =
      bytes_of_u32 b12 b13 b14 b15 (h.1.1.1.1.1.1.1.1.1.1.1.1.0) (h.1.1.1.1.1.1.1.1.1.1.1.1.1.0)
        (h.1.1.1.1.1.1.1.1.1.1.1.1.1.1.0) (h.1.1.1.1.1.1.1.1.1.1.1.1.1.1.1.0) in
    let time =
      bytes_of_u64 b16 b17 b18 b19 b20 b21 b22 b23 (h.1.1.1.1.1.1.1.1.1.1.1.1.1.1.1.1.0)
        (h.1.1.1.1.1.1.1.1.1.1.1.1.1.1.1.1.1.0) (h.1.1.1.1.1.1.1.1.1.1.1.1.1.1.1.1.1.1.0)
        (h.1.1.1.1.1.1.1.1.1.1.1.1.1.1.1.1.1.1.1.0) (h.1.1.1.1.1.1.1.1.1.1.1.1.1.1.1.1.1.1.1.1.0)
        (h.1.1.1.1.1.1.1.1.1.1.1.1.1.1.1.1.1.1.1.1.1.0)
        (h.1.1.1.1.1.1.1.1.1.1.1.1.1.1.1.1.1.1.1.1.1.1.0)
        (h.1.1.1.1.1.1.1.1.1.1.1.1.1.1.1.1.1.1.1.1.1.1.1.0) in
    let size =
      bytes_of_u16 b24 b25 (h.1.1.1.1.1.1.1.1.1.1.1.1.1.1.1.1.1.1.1.1.1.1.1.1.0)
        (h.1.1.1.1.1.1.1.1.1.1.1.1.1.1.1.1.1.1.1.1.1.1.1.1.1.0) in
    let frame =
      bytes_of_u32 b28 b29 b30 b31 (h.1.1.1.1.1.1.1.1.1.1.1.1.1.1.1.1.1.1.1.1.1.1.1.1.1.1.1.1.0)
        (h.1.1.1.1.1.1.1.1.1.1.1.1.1.1.1.1.1.1.1.1.1.1.1.1.1.1.1.1.1.0)
        (h.1.1.1.1.1.1.1.1.1.1.1.1.1.1.1.1.1.1.1.1.1.1.1.1.1.1.1.1.1.1.0)
        (h.1.1.1.1.1.1.1.1.1.1.1.1.1.1.1.1.1.1.1.1.1.1.1.1.1.1.1.1.1.1.1.0) in
    λ i.
      w i
      ∷ t i
      ∷ p i
      ∷ k i
      ∷ b4
      ∷ type_value-packet_type b5 i
      ∷ flags.0 i
      ∷ flags.1 i
      ∷ stream.0 i
      ∷ stream.1 i
      ∷ stream.2 i
      ∷ stream.3 i
      ∷ sequence.0 i
      ∷ sequence.1 i
      ∷ sequence.2 i
      ∷ sequence.3 i
      ∷ time.0 i
      ∷ time.1 i
      ∷ time.2 i
      ∷ time.3 i
      ∷ time.4 i
      ∷ time.5 i
      ∷ time.6 i
      ∷ time.7 i
      ∷ size.0 i
      ∷ size.1 i
      ∷ b26
      ∷ b27
      ∷ frame.0 i
      ∷ frame.1 i
      ∷ frame.2 i
      ∷ frame.3 i
      ∷ []
header_bytes-read_header _ fits h magic = absurd (omega arith)

-- A datagram of bytes that the parser accepts is written again by `encode_header` from the
-- parsed header, over any output of at least 32 bytes, and the parsed payload is the rest of it.
pub encode_header-parse_datagram :
    (d output : List ℕ)
    → All IsByte d
    → (parse_datagram d).error ≡ ProtocolError.none
    → packet_header_size ≤ length output
    → (encode_header (parse_datagram d).header output
        ≡ (ProtocolError.none, take packet_header_size d ++ drop packet_header_size output))
      × (take packet_header_size d ++ (parse_datagram d).payload ≡ d)
encode_header-parse_datagram d output bytes e fits =
    let p = parse_datagram-IsParsed d e in
    let image : header_bytes (parse_datagram d).header ≡ take packet_header_size d =
      rw p.header (header_bytes-read_header d p.header_fits bytes p.magic) in
    (
      encode_header-eq-bytes (parse_datagram d).header output fits p.valid
          ∙ ap {B = ProtocolError × List ℕ}
              (λ l. (ProtocolError.none, l ++ drop packet_header_size output)) image,
      rw p.payload (take-append-drop packet_header_size d),
    )
