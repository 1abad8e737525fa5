-- ===== src/Protocol/Audio/Sent.antt =====
-- audio_frame.cpp: the loop of `fragment_audio_frame`, and what it leaves in the result.
use wiretone.Prelude.{
  ℕ, zero, suc, ◌+◌, ◌%◌, ◌^◌, ◌≤◌, ◌<◌, ◌≡◌, refl, ◌∙◌, arith, length, get_or, set,
  length-replicate, length-set, get_or-set_self, get_or-set_ne,
}
use native.Mathlib.Decide.{ℕ_discrete}
use wiretone.Protocol.Packet.{ProtocolError}
use wiretone.Protocol.Audio.Types.{
  AudioFrameView, EncodedAudioDatagram, bytes, empty_datagram, AudioFrameError,
  AudioFragmentationResult,
}
use wiretone.Protocol.Audio.Fragment.{
  validate_frame_view, fragment_count, fragment_datagram, fragment_from, fragment_audio_frame,
}
use wiretone.Protocol.Audio.Fragmented.{
  HasWidths, IsSendable, validated-IsSendable, sendable-Shape, headed, wire, encode_fragment_header,
  bytes-fragment_datagram,
}

-- The result with the datagram of an index in place.
abbrev sent_at : AudioFrameView → ℕ → AudioFragmentationResult → AudioFragmentationResult
sent_at f index result = record result {
  datagrams = set result.datagrams index (fragment_datagram f index (headed f index));
}

fragment_from-step :
    (left index : ℕ) (f : AudioFrameView) (result : AudioFragmentationResult)
    → HasWidths f
    → IsSendable f
    → index < fragment_count f
    → fragment_from (suc left) index f result
      ≡ fragment_from left (index + 1) f (sent_at f index result)
unfolding fragment_from
fragment_from-step left index f result w s h = rw (encode_fragment_header f index w s h)

-- What the rounds from `index` on leave of a result.
record Sends (f : AudioFrameView) (index : ℕ) (result after : AudioFragmentationResult)
    : Type 0 where
  error : after.error ≡ result.error
  protocol_error : after.protocol_error ≡ result.protocol_error
  datagram_count : after.datagram_count ≡ result.datagram_count
  next : after.next_sequence_number ≡ (f.first_sequence_number + fragment_count f) % 2 ^ 32
  before :
      (k : ℕ) (d : EncodedAudioDatagram)
      → k < index
      → get_or after.datagrams k d ≡ get_or result.datagrams k d
  from :
      (k : ℕ) (d : EncodedAudioDatagram)
      → index ≤ k
      → k < fragment_count f
      → bytes (get_or after.datagrams k d) ≡ wire f k

Sends-step :
    (f : AudioFrameView) (index : ℕ) (result after : AudioFragmentationResult)
    → IsSendable f
    → index < length result.datagrams
    → Sends f (index + 1) (sent_at f index result) after
    → Sends f index result after
Sends-step f index result after s room h = record {
  error = h.error;
  protocol_error = h.protocol_error;
  datagram_count = h.datagram_count;
  next = h.next;
  before = λ k d lt.
      h.before k d (omega arith) ∙ get_or-set_ne result.datagrams index k _ d (omega arith);
  from = λ k d le lt. elim (ℕ_discrete k index) [
    | yes e ↦
        rw
          (
            e,
            h.before index d (omega arith),
            get_or-set_self result.datagrams index (fragment_datagram f index (headed f index)) d
                room,
          )
          (bytes-fragment_datagram f index s)
    | no ne ↦ h.from k d (omega arith) lt
  ];
}

fragment_from-Sends :
    (left index : ℕ) (f : AudioFrameView) (result : AudioFragmentationResult)
    → HasWidths f
    → IsSendable f
    → index + left ≡ fragment_count f
    → length result.datagrams ≡ 4
    → Sends f index result (fragment_from left index f result)
fragment_from-Sends zero index f result w s e l =
    unfold fragment_from in
    record {
      error = refl;
      protocol_error = refl;
      datagram_count = refl;
      next = refl;
      before = λ k d lt. refl;
      from = λ k d le lt. absurd (omega arith);
    }
fragment_from-Sends (suc left) index f result w s e l =
    rw (fragment_from-step left index f result w s (omega arith)) (
      Sends-step f index result _ s (omega (arith, sendable-Shape f index s)) (
        fragment_from-Sends left (index + 1) f (sent_at f index result) w s (omega arith) (
          omega (
            arith,
            length-set result.datagrams index (fragment_datagram f index (headed f index)),
          ))))

-- The result with the headers and the payloads that the loop computes.
pub record IsWired (f : AudioFrameView) (r : AudioFragmentationResult) : Type 0 where
  pub error : r.error ≡ AudioFrameError.none
  pub protocol_error : r.protocol_error ≡ ProtocolError.none
  pub datagram_count : r.datagram_count ≡ fragment_count f
  pub some_datagram : 1 ≤ r.datagram_count
  pub few_datagrams : r.datagram_count ≤ 4
  pub next : r.next_sequence_number ≡ (f.first_sequence_number + r.datagram_count) % 2 ^ 32
  pub datagrams :
      (k : ℕ) (d : EncodedAudioDatagram)
      → k < r.datagram_count
      → bytes (get_or r.datagrams k d) ≡ wire f k

pub fragment_audio_frame-IsWired :
    (f : AudioFrameView)
    → HasWidths f
    → validate_frame_view f ≡ AudioFrameError.none
    → IsWired f (fragment_audio_frame f)
unfolding fragment_audio_frame
fragment_audio_frame-IsWired f w v =
    let s = validated-IsSendable f w v in
    let shape = sendable-Shape f 0 s in
    let h =
      fragment_from-Sends (fragment_count f) 0 f _ w s (omega arith)
        (length-replicate 4 empty_datagram) in
    rw v (record {
      error = h.error;
      protocol_error = h.protocol_error;
      datagram_count = h.datagram_count;
      some_datagram = rw h.datagram_count shape.count_pos;
      few_datagrams = rw h.datagram_count shape.count_le;
      next = rw h.datagram_count h.next;
      datagrams = λ k d lt. h.from k d (omega arith) (omega (arith, h.datagram_count));
    })
