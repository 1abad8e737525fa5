-- ===== src/Protocol/Packet/Validity.antt =====
-- packet.cpp, `validate_header`, against the rules of docs/PROTOCOL.md (sections 3, 4 and 5) for
-- one header, which are stated here in arithmetic, with no order of the checks. The rules of
-- section 9 for a whole datagram are in Protocol/Audio/Rules.
use wiretone.Prelude.{ℕ, ◌≤◌, ◌<◌, ◌≡◌, refl, ◌≢◌, arith, bit_and_unknown, bit_and_two}
use wiretone.Protocol.Packet.{
  PacketType, PacketHeader, ProtocolError, maximum_payload_size, validate_header,
}
use wiretone.Protocol.Packet.Layout.{HasWidths}

-- What a packet that is no audio packet must have.
pub record IsControl (h : PacketHeader) (size : ℕ) : Type 0 where
  pub flags : h.flags ≡ 0
  pub fragment_index : h.fragment_index ≡ 0
  pub fragment_count : h.fragment_count ≡ 1
  pub frame_id : h.frame_id ≡ 0
  pub payload_size : h.payload_size ≡ size

-- What an audio packet must have; bit 1 of the flags is `silence`.
pub record IsAudio (h : PacketHeader) : Type 0 where
  pub flags : h.flags < 4
  pub fragment : h.fragment_index < h.fragment_count
  pub frame_id : h.frame_id ≢ 0
  pub payload_size : h.payload_size ≤ maximum_payload_size
  pub empty_is_silent : h.payload_size ≡ 0 → 2 ≤ h.flags

-- The rules of one kind of packet.
abbrev pub ObeysKind : PacketType → PacketHeader → Type 0
ObeysKind PacketType.stream_start h = IsControl h 16
ObeysKind PacketType.stream_stop h = IsControl h 1
ObeysKind PacketType.audio h = IsAudio h
ObeysKind PacketType.heartbeat h = IsControl h 8
ObeysKind PacketType.receiver_report h = IsControl h 20
ObeysKind PacketType.error h =
    IsControl h h.payload_size × (2 ≤ h.payload_size) × (h.payload_size ≤ 258)
ObeysKind (PacketType.unlisted v) h = ⊥

pub record ObeysProtocol (h : PacketHeader) : Type 0 where
  pub version : h.version ≡ 1
  pub stream_id : h.stream_id ≢ 0
  pub kind : ObeysKind h.type h

-- The rules of the header's own kind, one kind at a time.
accepted_kind :
    (t : PacketType) (h : PacketHeader)
    → HasWidths h
    → h.type ≡ t
    → validate_header h ≡ ProtocolError.none
    → ObeysKind t h
unfolding validate_header
accepted_kind PacketType.stream_start h w k e = ground arith
accepted_kind PacketType.stream_stop h w k e = ground arith
accepted_kind PacketType.audio h w k e =
    ground (arith, bit_and_unknown h.flags w.flags, bit_and_two h.flags)
accepted_kind PacketType.heartbeat h w k e = ground arith
accepted_kind PacketType.receiver_report h w k e = ground arith
accepted_kind PacketType.error h w k e = ground arith
accepted_kind (PacketType.unlisted v) h w k e = ground arith

pub accepted_common :
    (h : PacketHeader)
    → validate_header h ≡ ProtocolError.none
    → (h.version ≡ 1) × (h.stream_id ≢ 0)
unfolding validate_header
accepted_common h e = ground arith

pub accepted_obeys :
    (h : PacketHeader) → HasWidths h → validate_header h ≡ ProtocolError.none → ObeysProtocol h
accepted_obeys h w e = record {
  version = (accepted_common h e).0;
  stream_id = (accepted_common h e).1;
  kind = accepted_kind h.type h w refl e;
}

small_of_kind : (t : PacketType) (h : PacketHeader) → ObeysKind t h → h.payload_size ≤ 1168
small_of_kind PacketType.stream_start h k = omega arith
small_of_kind PacketType.stream_stop h k = omega arith
small_of_kind PacketType.audio h k = omega arith
small_of_kind PacketType.heartbeat h k = omega arith
small_of_kind PacketType.receiver_report h k = omega arith
small_of_kind PacketType.error h k = omega arith
small_of_kind (PacketType.unlisted v) h k = absurd k

pub payload_size-le :
    (h : PacketHeader)
    → HasWidths h
    → validate_header h ≡ ProtocolError.none
    → h.payload_size ≤ maximum_payload_size
payload_size-le h w e = small_of_kind h.type h (accepted_kind h.type h w refl e)

pub obeying_accepted :
    (h : PacketHeader) → HasWidths h → ObeysProtocol h → validate_header h ≡ ProtocolError.none
unfolding validate_header
obeying_accepted h w e = ground (arith, bit_and_unknown h.flags w.flags, bit_and_two h.flags)
