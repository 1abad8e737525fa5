-- ===== src/Protocol/Audio/Parts.antt =====
-- audio_frame.cpp, `fragment_audio_frame`, against docs/PROTOCOL.md (section 9): the fragments of a
-- frame, described from its payload alone.
use wiretone.Prelude.{
  ℕ, zero, suc, ◌+◌, ◌-◌, ◌*◌, ◌%◌, ◌^◌, ◌≤◌, ◌<◌, ◌≡◌, ◌⊎◌, refl, ◌∙◌, sym, ap, inl, inr, List, [],
  ◌++◌, arith, length, take, drop, get_or, bit_and_two, length-drop, take_all, take-add,
}
use native.Mathlib.Decide.{dec_lt}
use wiretone.Protocol.Packet.{PacketType, PacketHeader, ProtocolError}
use wiretone.Protocol.Packet.Layout.{header_bytes}
use wiretone.Protocol.Audio.Types.{
  AudioFrameView, EncodedAudioDatagram, bytes, AudioFrameError, AudioFragmentationResult,
}
use wiretone.Protocol.Audio.Fragment.{
  validate_frame_view, fragment_count, fragment_payload_size, fragment_header, fragment_payload,
  fragment_audio_frame,
}
use wiretone.Protocol.Audio.Fragmented.{
  HasWidths, IsSendable, validated-IsSendable, sendable-Shape, wire, length-fragment_payload,
}
use wiretone.Protocol.Audio.Sent.{fragment_audio_frame-IsWired}

-- The k-th 1,168 bytes of the payload, or what is left of them.
abbrev pub part : AudioFrameView → ℕ → List ℕ
part f k = take 1168 (drop (k * 1168) f.payload)

-- The header of part `k` of `n`.
abbrev pub part_header : AudioFrameView → ℕ → ℕ → PacketHeader
part_header f n k = record {
  version = 1;
  type = PacketType.audio;
  flags = f.flags;
  stream_id = f.stream_id;
  sequence_number = (f.first_sequence_number + k) % 2 ^ 32;
  timestamp_samples = f.timestamp_samples;
  payload_size = length (part f k);
  fragment_index = k;
  fragment_count = n;
  frame_id = f.frame_id;
}

-- The first `n` parts, one after the other.
abbrev pub joined : AudioFrameView → ℕ → List ℕ
joined f zero = []
joined f (suc n) = joined f n ++ part f n

-- What the fragmentation of an accepted frame must return: one to four datagrams and no more than
-- the payload needs, on the wire the header and the bytes of each part, which together are the
-- payload, and the sequence number behind the last.
pub record IsFragmentation (f : AudioFrameView) (r : AudioFragmentationResult) : Type 0 where
  pub error : r.error ≡ AudioFrameError.none
  pub protocol_error : r.protocol_error ≡ ProtocolError.none
  pub some_datagram : 1 ≤ r.datagram_count
  pub few_datagrams : r.datagram_count ≤ 4
  pub needed : (r.datagram_count ≡ 1) ⊎ (r.datagram_count * 1168 < length f.payload + 1168)
  pub whole : joined f r.datagram_count ≡ f.payload
  pub next : r.next_sequence_number ≡ (f.first_sequence_number + r.datagram_count) % 2 ^ 32
  pub datagrams :
      (k : ℕ) (d : EncodedAudioDatagram)
      → k < r.datagram_count
      → bytes (get_or r.datagrams k d) ≡ header_bytes (part_header f r.datagram_count k) ++ part f k

joined-eq-take : (f : AudioFrameView) (n : ℕ) → joined f n ≡ take (n * 1168) f.payload
joined-eq-take f zero = refl
joined-eq-take f (suc n) =
    rw (joined-eq-take f n)
      (sym (take-add (n * 1168) 1168 f.payload) ∙ ap {A = ℕ} (λ m. take m f.payload) (omega arith))

-- Two counts take the same of a list that is shorter than both, or when they are the same.
take_same {ℓ} :
    {A : Type ℓ} (n m : ℕ) (xs : List A)
    → (n ≡ m) ⊎ ((length xs ≤ n) × (length xs ≤ m))
    → take n xs ≡ take m xs
take_same n m xs (inl e) = ap (λ k. take k xs) e
take_same n m xs (inr (a, b)) = take_all n xs a ∙ sym (take_all m xs b)

-- A fragment is as long as a part, or as long as what is left.
enough_taken :
    (f : AudioFrameView) (k : ℕ)
    → IsSendable f
    → (fragment_payload_size f k ≡ 1168)
      ⊎ ((length (drop (k * 1168) f.payload) ≤ fragment_payload_size f k)
          × (length (drop (k * 1168) f.payload) ≤ 1168))
unfolding fragment_payload_size
enough_taken f k s =
    let left = length-drop (k * 1168) f.payload in
    elim (dec_lt (length f.payload - k * 1168) 1168) [
      | yes few ↦ inr (ground (arith, left, bit_and_two f.flags))
      | no many ↦ inl (ground (arith, bit_and_two f.flags))
    ]

fragment_payload-eq-part :
    (f : AudioFrameView) (k : ℕ) → IsSendable f → fragment_payload f k ≡ part f k
unfolding fragment_payload
fragment_payload-eq-part f k s =
    take_same (fragment_payload_size f k) 1168 (drop (k * 1168) f.payload) (enough_taken f k s)

fragment_header-eq-part_header :
    (f : AudioFrameView) (k : ℕ)
    → IsSendable f
    → k < fragment_count f
    → fragment_header f k ≡ part_header f (fragment_count f) k
unfolding fragment_header
fragment_header-eq-part_header f k s h =
    let shape = sendable-Shape f k s in
    let size : fragment_payload_size f k % 2 ^ 16 ≡ length (part f k) = omega (
      arith,
      shape,
      length-fragment_payload f k,
      ap {B = ℕ} (λ p. length p) (fragment_payload-eq-part f k s),
    ) in
    let index : k % 2 ^ 8 ≡ k = omega (arith, shape) in
    let count : fragment_count f % 2 ^ 8 ≡ fragment_count f = omega (arith, shape) in
    rw (size, index, count) refl

wire-eq-part :
    (f : AudioFrameView) (k : ℕ)
    → IsSendable f
    → k < fragment_count f
    → wire f k ≡ header_bytes (part_header f (fragment_count f) k) ++ part f k
wire-eq-part f k s h =
    rw (fragment_header-eq-part_header f k s h, fragment_payload-eq-part f k s) refl

count_needed :
    (f : AudioFrameView)
    → IsSendable f
    → ((fragment_count f ≡ 1) ⊎ (fragment_count f * 1168 < length f.payload + 1168))
      × (length f.payload ≤ fragment_count f * 1168)
unfolding fragment_count
count_needed f s = elim (dec_lt f.flags 2) [
  | yes sound ↦ ground (arith, bit_and_two f.flags)
  | no silent ↦ ground (arith, bit_and_two f.flags)
]

-- A frame with fields in the ranges of their types that passes validation is fragmented without an
-- error into one to four datagrams, no more than its payload needs. Datagram `k` is an audio header
-- of version 1 with the frame's flags, stream, time and frame number, the sequence number `k` after
-- the first modulo 2 ^ 32, the place `k` in the count and the size of its part, then its part: the
-- `k`-th 1,168 bytes of the payload. The parts together are the payload, and the next sequence
-- number is the one after the last.
pub fragment_audio_frame-IsFragmentation :
    (f : AudioFrameView)
    → HasWidths f
    → validate_frame_view f ≡ AudioFrameError.none
    → IsFragmentation f (fragment_audio_frame f)
fragment_audio_frame-IsFragmentation f w v =
    let s = validated-IsSendable f w v in
    let h = fragment_audio_frame-IsWired f w v in
    let (needed, covered) = count_needed f s in
    record {
      error = h.error;
      protocol_error = h.protocol_error;
      some_datagram = h.some_datagram;
      few_datagrams = h.few_datagrams;
      needed = rw h.datagram_count needed;
      whole = rw h.datagram_count (
          joined-eq-take f (fragment_count f)
          ∙ take_all (fragment_count f * 1168) f.payload covered);
      next = h.next;
      datagrams = λ k d lt.
          h.datagrams k d lt
          ∙ rw h.datagram_count (wire-eq-part f k s (omega (arith, h.datagram_count)));
    }
