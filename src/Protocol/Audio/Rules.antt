-- ===== src/Protocol/Audio/Rules.antt =====
-- packet.cpp, `parse_datagram`, and audio_frame.cpp, `validate_fragment_shape`, against the list of
-- docs/PROTOCOL.md (section 9) of what a receiver must reject.
use wiretone.Prelude.{
  ℕ, ◌+◌, ◌*◌, ◌≤◌, ◌<◌, ◌≡◌, ◌↔◌, refl, sym, ◌∙◌, ap, true, List, [], ◌∷◌, arith, All,
  if◌then◌else◌, take, drop, length, length-drop, get_or, bit_and_two,
}
use wiretone.Protocol.Bytes.{IsByte}
use wiretone.Protocol.Packet.{
  PacketType, PacketHeader, ProtocolError, ParseResult, packet_type, packet_magic, has_prefix,
  is_audio, is_known_packet_type, validate_header, read_header, parse_datagram,
}
use wiretone.Protocol.Packet.Parsed.{parse_datagram-IsParsed, read_header-HasWidths}
use wiretone.Protocol.Packet.Validity.{
  IsAudio, ObeysKind, ObeysProtocol, accepted_obeys, obeying_accepted,
}
use wiretone.Protocol.Audio.Types.{AudioFrameError}
use wiretone.Protocol.Audio.Reassembler.{validate_fragment_shape}

-- The rules for the place and the size of a fragment; bit 1 of the flags is `silence`.
pub record IsFragment (h : PacketHeader) : Type 0 where
  pub few : h.fragment_count ≤ 4
  pub full : h.fragment_index + 1 < h.fragment_count → h.payload_size ≡ 1168
  pub frame_fits : h.fragment_index * 1168 + h.payload_size ≤ 3840
  pub silence : 2 ≤ h.flags → (h.payload_size ≡ 0) × (h.fragment_index ≡ 0) × (h.fragment_count ≡ 1)

-- They are for audio packets.
abbrev pub HasShape : PacketType → PacketHeader → Type 0
HasShape PacketType.audio h = IsFragment h
HasShape _ h = Unit {0}

-- A datagram that none of the rules rejects.
pub record ObeysRules (d : List ℕ) : Type 0 where
  pub not_short : 32 ≤ length d
  pub not_long : length d ≤ 1200
  pub magic : take 4 d ≡ b'W' ∷ b'T' ∷ b'P' ∷ b'K' ∷ []
  pub header : ObeysProtocol (read_header d)
  pub declared : length d ≡ 32 + (read_header d).payload_size
  pub shape : HasShape (read_header d).type (read_header d)

-- The check of a fragment's shape, which is made of an audio packet only.
abbrev pub check_shape : ParseResult → AudioFrameError
check_shape p = if is_audio p.header.type then validate_fragment_shape p else AudioFrameError.none

module _ (p : ParseResult) (e : length p.payload ≡ p.header.payload_size)
    (a : IsAudio p.header) where
  shaped : validate_fragment_shape p ≡ AudioFrameError.none → IsFragment p.header
  unfolding validate_fragment_shape
  shaped ok = ground (arith, bit_and_two p.header.flags)

  unshaped : IsFragment p.header → validate_fragment_shape p ≡ AudioFrameError.none
  unfolding validate_fragment_shape
  unshaped ok = ground (arith, bit_and_two p.header.flags)

magic_bytes :
    (a b c x : ℕ) (d : List ℕ)
    → has_prefix packet_magic (a ∷ b ∷ c ∷ x ∷ d) ≡ true
    → (a ≡ b'W') × (b ≡ b'T') × (c ≡ b'P') × (x ≡ b'K')
magic_bytes a b c x d e = ground arith

magic_taken :
    (d : List ℕ) → has_prefix packet_magic d ≡ true → take 4 d ≡ b'W' ∷ b'T' ∷ b'P' ∷ b'K' ∷ []
magic_taken (a ∷ b ∷ c ∷ x ∷ d) e =
    let (ea, eb, ec, ex) = magic_bytes a b c x d e in rw (ea, eb, ec, ex) refl
magic_taken [] e = absurd (ground (arith, e))
magic_taken (a ∷ []) e = absurd (ground (arith, e))
magic_taken (a ∷ b ∷ []) e = absurd (ground (arith, e))
magic_taken (a ∷ b ∷ c ∷ []) e = absurd (ground (arith, e))

-- The prefix of four bytes is read from the first four.
prefix_taken :
    (d : List ℕ) → 32 ≤ length d → has_prefix packet_magic (take 4 d) ≡ has_prefix packet_magic d
prefix_taken (a ∷ b ∷ c ∷ x ∷ d) fits = refl
prefix_taken [] fits = absurd (omega arith)
prefix_taken (a ∷ []) fits = absurd (omega arith)
prefix_taken (a ∷ b ∷ []) fits = absurd (omega arith)
prefix_taken (a ∷ b ∷ c ∷ []) fits = absurd (omega arith)

magic_found :
    (d : List ℕ)
    → 32 ≤ length d
    → take 4 d ≡ b'W' ∷ b'T' ∷ b'P' ∷ b'K' ∷ []
    → has_prefix packet_magic d ≡ true
magic_found d fits e = sym (prefix_taken d fits) ∙ ap (has_prefix packet_magic) e

known : (v : ℕ) (h : PacketHeader) → ObeysKind (packet_type v) h → is_known_packet_type v ≡ true
unfolding is_known_packet_type
known v h k = ground arith

-- What the parser makes of a datagram that it accepts.
abbrev accepted : List ℕ → ParseResult
accepted d = record { error = ProtocolError.none; header = read_header d; payload = drop 32 d }

parsed :
    (d : List ℕ)
    → 32 ≤ length d
    → length d ≤ 1200
    → has_prefix packet_magic d ≡ true
    → validate_header (read_header d) ≡ ProtocolError.none
    → ObeysKind (read_header d).type (read_header d)
    → length d ≡ 32 + (read_header d).payload_size
    → parse_datagram d ≡ accepted d
unfolding parse_datagram read_header
parsed d short long magic valid kind declared =
    let type = known (get_or d 5 0) (read_header d) kind in ground (arith, type, kind)

length-accepted :
    (d : List ℕ)
    → length d ≡ 32 + (read_header d).payload_size
    → length (accepted d).payload ≡ (read_header d).payload_size
length-accepted d declared = omega (arith, length-drop 32 d)

shape_of_kind :
    (t : PacketType) (p : ParseResult)
    → p.header.type ≡ t
    → length p.payload ≡ p.header.payload_size
    → ObeysKind t p.header
    → check_shape p ≡ AudioFrameError.none
    → HasShape t p.header
shape_of_kind PacketType.audio p k e h ok = shaped p e h (sym (rw k refl) ∙ ok)
shape_of_kind PacketType.stream_start p k e h ok = tt
shape_of_kind PacketType.stream_stop p k e h ok = tt
shape_of_kind PacketType.heartbeat p k e h ok = tt
shape_of_kind PacketType.receiver_report p k e h ok = tt
shape_of_kind PacketType.error p k e h ok = tt
shape_of_kind (PacketType.unlisted v) p k e h ok = tt

check_of_kind :
    (t : PacketType) (p : ParseResult)
    → p.header.type ≡ t
    → length p.payload ≡ p.header.payload_size
    → ObeysKind t p.header
    → HasShape t p.header
    → check_shape p ≡ AudioFrameError.none
unfolding validate_fragment_shape
check_of_kind PacketType.audio p k e h ok = rw k (unshaped p e h ok)
check_of_kind PacketType.stream_start p k e h ok = rw k refl
check_of_kind PacketType.stream_stop p k e h ok = rw k refl
check_of_kind PacketType.heartbeat p k e h ok = rw k refl
check_of_kind PacketType.receiver_report p k e h ok = rw k refl
check_of_kind PacketType.error p k e h ok = rw k refl
check_of_kind (PacketType.unlisted v) p k e h ok = rw k refl

parse_datagram-ObeysRules :
    (d : List ℕ)
    → All IsByte d
    → (parse_datagram d).error ≡ ProtocolError.none
    → check_shape (parse_datagram d) ≡ AudioFrameError.none
    → ObeysRules d
parse_datagram-ObeysRules d bytes e ok =
    let h = parse_datagram-IsParsed d e in
    let valid = sym (ap validate_header h.header) ∙ h.valid in
    let declared = h.declared ∙ ap (λ k. 32 + k.payload_size) h.header in
    let obeys = accepted_obeys (read_header d) (read_header-HasWidths d bytes) valid in
    let same = parsed d h.header_fits h.datagram_fits h.magic valid obeys.kind declared in
    record {
      not_short = h.header_fits;
      not_long = h.datagram_fits;
      magic = magic_taken d h.magic;
      header = obeys;
      declared = declared;
      shape =
          shape_of_kind (read_header d).type (accepted d) refl (length-accepted d declared)
            obeys.kind (sym (ap check_shape same) ∙ ok);
    }

obeying_datagram_accepted :
    (d : List ℕ)
    → All IsByte d
    → ObeysRules d
    → ((parse_datagram d).error ≡ ProtocolError.none)
      × (check_shape (parse_datagram d) ≡ AudioFrameError.none)
obeying_datagram_accepted d bytes h =
    let valid = obeying_accepted (read_header d) (read_header-HasWidths d bytes) h.header in
    let magic = magic_found d h.not_short h.magic in
    let same = parsed d h.not_short h.not_long magic valid h.header.kind h.declared in
    rw same (
      refl,
      check_of_kind (read_header d).type (accepted d) refl (length-accepted d h.declared)
          h.header.kind h.shape,
    )

-- A datagram of bytes is one that `parse_datagram` accepts, and `validate_fragment_shape` too when
-- it is an audio packet, exactly when it obeys the protocol's rules for datagrams: its size, its
-- magic, the version, the kind of packet and what goes with it, the declared size, and the place,
-- the size and the silence of an audio fragment.
pub parse_datagram-iff-ObeysRules :
    (d : List ℕ)
    → All IsByte d
    → (((parse_datagram d).error ≡ ProtocolError.none)
        × (check_shape (parse_datagram d) ≡ AudioFrameError.none))
      ↔ ObeysRules d
parse_datagram-iff-ObeysRules d bytes =
    (λ (e, ok). parse_datagram-ObeysRules d bytes e ok, λ h. obeying_datagram_accepted d bytes h)
