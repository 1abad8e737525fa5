-- ===== src/Protocol/Audio/Reassembler.antt =====
-- audio_frame.cpp: `AudioFrameReassembler`, the receiver's half. A member function returns its
-- result and the object after the call.
use mathlib.Core.Option.{Option, none, some}
use wiretone.Prelude.{
  ℕ, ◌+◌, ◌*◌, Bool, true, false, ◌&&◌, ◌||◌, not, List, ltb, ◌==◌, ◌!=◌, if◌then◌else◌, has_flag,
  length, get_or, set, replicate,
}
use wiretone.Protocol.Packet.{
  PacketType, PacketHeader, ProtocolError, ParseResult, maximum_payload_size, flag_silence,
  is_audio, parse_datagram,
}
use wiretone.Protocol.Packet
use wiretone.Protocol.Audio.Types.{
  maximum_audio_frame_payload_size, maximum_audio_fragment_count, maximum_in_flight_audio_frames,
  AudioFrameError, is_none, AudioReassemblyResult, empty_result,
}
use wiretone.Protocol.Audio.Slot.{
  Slot, empty_slot, expire_slots, expired_count, in_flight, find_slot, claim_slot, is_inconsistent,
  store_fragment,
}

pub record Reassembler : Type 0 where
  pub slots : List Slot
  pub has_observed_time : Bool
  pub last_observed_time_ms : ℕ  -- uint64

-- `AudioFrameReassembler{}`, and the state after `reset`.
unfoldable pub reset : Reassembler
unfolding empty_slot
reset = record {
  slots = replicate maximum_in_flight_audio_frames empty_slot;
  has_observed_time = false;
  last_observed_time_ms = 0;
}

unfoldable pub validate_fragment_shape : ParseResult → AudioFrameError
validate_fragment_shape parsed =
    if ltb maximum_audio_fragment_count header.fragment_count
    then AudioFrameError.fragment_count_exceeds_limit
    else if has_flag header.flags flag_silence
    then (if length parsed.payload != 0
        then AudioFrameError.silence_payload_present
        else if header.fragment_count != 1 || header.fragment_index != 0
        then AudioFrameError.noncanonical_fragment_size
        else AudioFrameError.none)
    else if length parsed.payload == 0
    then AudioFrameError.empty_payload_without_silence
    else if not (header.fragment_index + 1 == header.fragment_count)
        && length parsed.payload != maximum_payload_size
    then AudioFrameError.noncanonical_fragment_size
    else if ltb maximum_audio_frame_payload_size
        (header.fragment_index * maximum_payload_size + length parsed.payload)
    then AudioFrameError.payload_too_large
    else AudioFrameError.none
  where
    open parsed use {header}

unfoldable pub advance_time : Reassembler → ℕ → AudioReassemblyResult × Reassembler
advance_time r now_ms =
    if r.has_observed_time && ltb now_ms r.last_observed_time_ms
    then (record empty_result { error = AudioFrameError.non_monotonic_time }, r)
    else (
      record empty_result { expired_frame_count = expired_count now_ms r.slots },
      record {
        slots = expire_slots now_ms r.slots;
        has_observed_time = true;
        last_observed_time_ms = now_ms;
      },
    )

unfoldable pub expire_incomplete : Reassembler → ℕ → AudioReassemblyResult × Reassembler
unfolding advance_time
expire_incomplete r now_ms = advance_time r now_ms

unfoldable pub in_flight_frame_count : Reassembler → ℕ
unfolding in_flight
in_flight_frame_count r = in_flight r.slots

abbrev pub put_slot :
    Reassembler → ℕ → AudioReassemblyResult × Slot → AudioReassemblyResult × Reassembler
put_slot r i (result, slot) = (result, record r { slots = set r.slots i slot })

-- With the frame's own slot, or the first free one, as the search found them.
unfoldable pub accept_in :
    Option ℕ
    → Option ℕ
    → Reassembler
    → ParseResult
    → ℕ
    → AudioReassemblyResult
    → AudioReassemblyResult × Reassembler
accept_in (some i) free_slot r parsed arrival_time_ms result =
    if is_inconsistent (get_or r.slots i empty_slot) parsed.header
    then (record result { error = AudioFrameError.inconsistent_fragment_metadata }, r)
    else put_slot r i (store_fragment (get_or r.slots i empty_slot) parsed arrival_time_ms result)
accept_in none none r parsed arrival_time_ms result =
    (record result { error = AudioFrameError.reassembly_window_full }, r)
accept_in none (some i) r parsed arrival_time_ms result = put_slot r i (
    store_fragment (claim_slot (get_or r.slots i empty_slot) parsed.header arrival_time_ms) parsed
      arrival_time_ms result)

-- From the search on, for a fragment of the right shape.
unfoldable pub accept_fragment :
    Reassembler → ParseResult → ℕ → AudioReassemblyResult → AudioReassemblyResult × Reassembler
accept_fragment r parsed arrival_time_ms result =
    let found = find_slot parsed.header r.slots 0 none in
    accept_in found.slot found.free_slot r parsed arrival_time_ms result

-- The checks of a parsed datagram.
unfoldable pub accept_parsed :
    Reassembler → ParseResult → ℕ → AudioReassemblyResult → AudioReassemblyResult × Reassembler
accept_parsed r parsed arrival_time_ms result =
    if not (Packet.is_none parsed.error)
    then (
      record result { error = AudioFrameError.malformed_datagram; protocol_error = parsed.error },
      r,
    )
    else if not (is_audio parsed.header.type)
    then (record result { error = AudioFrameError.not_audio_packet }, r)
    else if parsed.header.frame_id == 0
    then (record result { error = AudioFrameError.zero_frame_id }, r)
    else if not (is_none (validate_fragment_shape parsed))
    then (record result { error = validate_fragment_shape parsed }, r)
    else accept_fragment r parsed arrival_time_ms result

unfoldable pub accept_datagram : Reassembler → List ℕ → ℕ → AudioReassemblyResult × Reassembler
accept_datagram r datagram arrival_time_ms =
    let (result, advanced) = advance_time r arrival_time_ms in
    if not (is_none result.error)
    then (result, advanced)
    else accept_parsed advanced (parse_datagram datagram) arrival_time_ms result
