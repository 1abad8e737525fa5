-- ===== src/Protocol/Packet/Layout.antt =====
-- packet.cpp: where the header's fields stand in the 32 bytes, written and read.
use wiretone.Prelude.{
  ℕ, ◌^◌, ◌≤◌, ◌<◌, ◌≡◌, refl, ◌⊎◌, List, [], ◌∷◌, ◌++◌, arith, length, drop, fill_n-eq-replicate,
}
use wiretone.Protocol.Bytes.{byte_at}
use wiretone.Protocol.Bytes.RoundTrip.{u16_of_bytes, u32_of_bytes, u64_of_bytes}
use wiretone.Protocol.Packet.{
  PacketType, PacketHeader, type_value, packet_type, packet_header_size, write_header, read_header,
}

-- A byte that no enumerator names, or an enumerator.
abbrev pub IsPacketType : PacketType → Type 0
IsPacketType (PacketType.unlisted v) = (v < 256) × ((v ≡ 0) ⊎ (6 < v))
IsPacketType _ = Unit {0}

-- The fields lie in the ranges of their C++ types.
pub record HasWidths (h : PacketHeader) : Type 0 where
  pub version : h.version < 2 ^ 8
  pub type : IsPacketType h.type
  pub flags : h.flags < 2 ^ 16
  pub stream_id : h.stream_id < 2 ^ 32
  pub sequence_number : h.sequence_number < 2 ^ 32
  pub timestamp_samples : h.timestamp_samples < 2 ^ 64
  pub payload_size : h.payload_size < 2 ^ 16
  pub fragment_index : h.fragment_index < 2 ^ 8
  pub fragment_count : h.fragment_count < 2 ^ 8
  pub frame_id : h.frame_id < 2 ^ 32

-- The header's image on the wire, byte by byte.
abbrev pub header_bytes : PacketHeader → List ℕ
header_bytes h =
    b'W'
    ∷ b'T'
    ∷ b'P'
    ∷ b'K'
    ∷ h.version
    ∷ type_value h.type
    ∷ byte_at h.flags 1
    ∷ byte_at h.flags 0
    ∷ byte_at h.stream_id 3
    ∷ byte_at h.stream_id 2
    ∷ byte_at h.stream_id 1
    ∷ byte_at h.stream_id 0
    ∷ byte_at h.sequence_number 3
    ∷ byte_at h.sequence_number 2
    ∷ byte_at h.sequence_number 1
    ∷ byte_at h.sequence_number 0
    ∷ byte_at h.timestamp_samples 7
    ∷ byte_at h.timestamp_samples 6
    ∷ byte_at h.timestamp_samples 5
    ∷ byte_at h.timestamp_samples 4
    ∷ byte_at h.timestamp_samples 3
    ∷ byte_at h.timestamp_samples 2
    ∷ byte_at h.timestamp_samples 1
    ∷ byte_at h.timestamp_samples 0
    ∷ byte_at h.payload_size 1
    ∷ byte_at h.payload_size 0
    ∷ h.fragment_index
    ∷ h.fragment_count
    ∷ byte_at h.frame_id 3
    ∷ byte_at h.frame_id 2
    ∷ byte_at h.frame_id 1
    ∷ byte_at h.frame_id 0
    ∷ []

pub write_header-eq-bytes :
    (h : PacketHeader) (output : List ℕ)
    → packet_header_size ≤ length output
    → write_header h output ≡ header_bytes h ++ drop packet_header_size output
unfolding write_header
write_header-eq-bytes h output fits = rw (fill_n-eq-replicate output 32 0 fits)

pub packet_type-type_value : (t : PacketType) → IsPacketType t → packet_type (type_value t) ≡ t
packet_type-type_value (PacketType.unlisted v) w = ground arith
packet_type-type_value PacketType.stream_start w = refl
packet_type-type_value PacketType.stream_stop w = refl
packet_type-type_value PacketType.audio w = refl
packet_type-type_value PacketType.heartbeat w = refl
packet_type-type_value PacketType.receiver_report w = refl
packet_type-type_value PacketType.error w = refl

pub read_header-bytes :
    (h : PacketHeader) (rest : List ℕ) → HasWidths h → read_header (header_bytes h ++ rest) ≡ h
unfolding read_header
read_header-bytes h rest w = λ i. record {
  version = h.version;
  type = packet_type-type_value h.type w.type i;
  flags = u16_of_bytes h.flags w.flags i;
  stream_id = u32_of_bytes h.stream_id w.stream_id i;
  sequence_number = u32_of_bytes h.sequence_number w.sequence_number i;
  timestamp_samples = u64_of_bytes h.timestamp_samples w.timestamp_samples i;
  payload_size = u16_of_bytes h.payload_size w.payload_size i;
  fragment_index = h.fragment_index;
  fragment_count = h.fragment_count;
  frame_id = u32_of_bytes h.frame_id w.frame_id i;
}
