-- ===== src/Protocol/Audio/Fragmented.antt =====
-- audio_frame.cpp: what `fragment_audio_frame` sends.
use wiretone.Prelude.{
  ℕ, ◌+◌, ◌*◌, ◌^◌, ◌≤◌, ◌<◌, ◌≡◌, ◌≢◌, refl, ◌∙◌, sym, List, [], ◌++◌, arith, bit_and_unknown,
  bit_and_two, length, drop, length-take, length-drop, !=_of_ne, take-copy_into, length-replicate,
  take-append, append-nil,
}
use native.Mathlib.Decide.{ℕ_discrete}
use wiretone.Protocol.Packet.{
  ProtocolError, packet_header_size, maximum_payload_size, validate_header, encode_header,
}
use wiretone.Protocol.Packet.Layout
use wiretone.Protocol.Packet.Layout.{header_bytes}
use wiretone.Protocol.Packet.Validity.{IsAudio, obeying_accepted}
use wiretone.Protocol.Packet.RoundTrip.{encode_header-eq-bytes}
use wiretone.Protocol.Audio.Types.{AudioFrameView, bytes, empty_datagram, AudioFrameError}
use wiretone.Protocol.Audio.Fragment.{
  validate_frame_view, fragment_count, fragment_payload_size, fragment_header, fragment_payload,
  fragment_datagram,
}

-- The fields lie in the ranges of their C++ types.
pub record HasWidths (f : AudioFrameView) : Type 0 where
  pub stream_id : f.stream_id < 2 ^ 32
  pub first_sequence_number : f.first_sequence_number < 2 ^ 32
  pub timestamp_samples : f.timestamp_samples < 2 ^ 64
  pub frame_id : f.frame_id < 2 ^ 32
  pub flags : f.flags < 2 ^ 16

-- What a frame must be to be sent: `silence` (bit 1) stands for an empty payload, and only for one.
pub record IsSendable (f : AudioFrameView) : Type 0 where
  pub stream_id : f.stream_id ≢ 0
  pub frame_id : f.frame_id ≢ 0
  pub flags : f.flags < 4
  pub payload_fits : length f.payload ≤ 3840
  pub silent_is_empty : 2 ≤ f.flags → length f.payload ≡ 0
  pub sound_is_not : f.flags < 2 → 1 ≤ length f.payload

pub validated-IsSendable :
    (f : AudioFrameView) → HasWidths f → validate_frame_view f ≡ AudioFrameError.none → IsSendable f
unfolding validate_frame_view
validated-IsSendable f w e = ground (arith, bit_and_unknown f.flags w.flags, bit_and_two f.flags)

sendable-validated :
    (f : AudioFrameView) → IsSendable f → validate_frame_view f ≡ AudioFrameError.none
unfolding validate_frame_view
sendable-validated f s =
    ground (arith, bit_and_unknown f.flags (omega (arith, s.flags)), bit_and_two f.flags)

pub length-fragment_payload :
    (f : AudioFrameView) (k : ℕ) → length (fragment_payload f k) ≡ fragment_payload_size f k
unfolding fragment_payload fragment_payload_size
length-fragment_payload f k = ground (
  arith,
  length-take (fragment_payload_size f k) (drop (k * maximum_payload_size) f.payload),
  length-drop (k * maximum_payload_size) f.payload,
)

-- The sizes of a frame's fragments.
pub record Shape (f : AudioFrameView) (k : ℕ) : Type 0 where
  pub count_pos : 1 ≤ fragment_count f
  pub count_le : fragment_count f ≤ 4
  pub size_le : fragment_payload_size f k ≤ maximum_payload_size
  pub silent : 2 ≤ f.flags → (fragment_count f ≡ 1) × (fragment_payload_size f k ≡ 0)
  pub full : f.flags < 2 → k + 1 < fragment_count f → fragment_payload_size f k ≡ 1168
  pub last :
      f.flags < 2
      → k + 1 ≡ fragment_count f
      → (k * 1168 + fragment_payload_size f k ≡ length f.payload) × (1 ≤ fragment_payload_size f k)

pub sendable-Shape : (f : AudioFrameView) (k : ℕ) → IsSendable f → Shape f k
unfolding fragment_count fragment_payload_size
sendable-Shape f k s = ground (arith, bit_and_two f.flags)

-- The header of each fragment of a sendable frame has its widths and is valid.
pub fragment_header-HasWidths :
    (f : AudioFrameView) (k : ℕ) → HasWidths f → Layout.HasWidths (fragment_header f k)
unfolding fragment_header
fragment_header-HasWidths f k w = omega arith

fragment_header-IsAudio :
    (f : AudioFrameView) (k : ℕ)
    → IsSendable f
    → k < fragment_count f
    → IsAudio (fragment_header f k)
unfolding fragment_header
fragment_header-IsAudio f k s h = let shape = sendable-Shape f k s in ground (arith, shape)

pub fragment_header-valid :
    (f : AudioFrameView) (k : ℕ)
    → HasWidths f
    → IsSendable f
    → k < fragment_count f
    → validate_header (fragment_header f k) ≡ ProtocolError.none
unfolding fragment_header
fragment_header-valid f k w s h =
    obeying_accepted (fragment_header f k) (fragment_header-HasWidths f k w)
      (record { version = refl; stream_id = s.stream_id; kind = fragment_header-IsAudio f k s h })

-- The datagram on the wire: the header, then the fragment's bytes.
abbrev pub wire : AudioFrameView → ℕ → List ℕ
wire f k = header_bytes (fragment_header f k) ++ fragment_payload f k

length-empty_datagram : length empty_datagram.storage ≡ 1200
unfolding empty_datagram
length-empty_datagram = length-replicate {A = ℕ} 1200 0

-- The storage with the header of fragment `k` in place.
abbrev pub headed : AudioFrameView → ℕ → List ℕ
headed f k = header_bytes (fragment_header f k) ++ drop packet_header_size empty_datagram.storage

fragment_payload-nil :
    (f : AudioFrameView) (k : ℕ) → fragment_payload_size f k ≡ 0 → fragment_payload f k ≡ []
unfolding fragment_payload
fragment_payload-nil f k e = rw e refl

pub bytes-fragment_datagram :
    (f : AudioFrameView) (k : ℕ)
    → IsSendable f
    → bytes (fragment_datagram f k (headed f k)) ≡ wire f k
unfolding bytes fragment_datagram
bytes-fragment_datagram f k s = elim (ℕ_discrete (fragment_payload_size f k) 0) [
  | yes e ↦
      rw (e, fragment_payload-nil f k e) (take-append image rest 32 refl ∙ sym (append-nil image))
  | no ne ↦ rw (!=_of_ne (fragment_payload_size f k) 0 ne) (
      take-copy_into image rest (fragment_payload f k) 32 (fragment_payload_size f k) refl
        (length-fragment_payload f k)
        (omega (
          arith,
          length-empty_datagram,
          length-drop packet_header_size empty_datagram.storage,
          sendable-Shape f k s,
        )))
]
  where
    image : List ℕ
    image = header_bytes (fragment_header f k)

    rest : List ℕ
    rest = drop packet_header_size empty_datagram.storage

pub encode_fragment_header :
    (f : AudioFrameView) (k : ℕ)
    → HasWidths f
    → IsSendable f
    → k < fragment_count f
    → encode_header (fragment_header f k) empty_datagram.storage ≡ (ProtocolError.none, headed f k)
encode_fragment_header f k w s h =
    encode_header-eq-bytes (fragment_header f k) empty_datagram.storage
      (omega (arith, length-empty_datagram)) (fragment_header-valid f k w s h)
