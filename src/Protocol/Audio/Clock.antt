-- ===== src/Protocol/Audio/Clock.antt =====
-- audio_frame.cpp: the reassembler's clock, and the stream of the frame that it completes.
use mathlib.Core.Option.{Option, none, some}
use wiretone.Prelude.{
  ℕ, not, if◌then◌else◌, suc, ◌+◌, ◌≡◌, refl, true, false, ◌&&◌, List, [], ◌∷◌, arith, get_or, ltb,
  inl, inr, Bool-cases,
}
use wiretone.Protocol.Packet.{ParseResult, PacketHeader, parse_datagram}
use wiretone.Protocol.Audio.Types.{AudioFrameError, AudioReassemblyResult}
use wiretone.Protocol.Audio.Slot.{
  Slot, or_else, empty_slot, find_slot, is_slot_of, store_fragment, insert_fragment, claim_slot,
  completed_frame,
}
use wiretone.Protocol.Audio.Reassembler.{
  Reassembler, advance_time, accept_in, accept_fragment, accept_parsed, accept_datagram,
}

-- The time of the last call, if there was one.
pub record IsAt (r : Reassembler) (t : ℕ) : Type 0 where
  pub has_observed_time : r.has_observed_time ≡ true
  pub last_observed_time_ms : r.last_observed_time_ms ≡ t

pub advance_time-IsAt :
    (r : Reassembler) (t : ℕ)
    → (r.has_observed_time && ltb t r.last_observed_time_ms) ≡ false
    → ((advance_time r t).0.error ≡ AudioFrameError.none) × IsAt (advance_time r t).1 t
unfolding advance_time
advance_time-IsAt r t late = ground arith

accept_in-IsAt :
    (own free : Option ℕ) (r : Reassembler) (p : ParseResult) (now t : ℕ)
    (result : AudioReassemblyResult)
    → IsAt r t
    → IsAt (accept_in own free r p now result).1 t
unfolding accept_in
accept_in-IsAt (some i) free r p now t result h = ground arith
accept_in-IsAt none (some i) r p now t result h = ground arith
accept_in-IsAt none none r p now t result h = h

accept_parsed-IsAt :
    (r : Reassembler) (p : ParseResult) (now t : ℕ) (result : AudioReassemblyResult)
    → IsAt r t
    → IsAt (accept_parsed r p now result).1 t
unfolding accept_parsed accept_fragment
accept_parsed-IsAt r p now t result h =
    let found = find_slot p.header r.slots 0 none in
    ground (arith, accept_in-IsAt found.slot found.free_slot r p now t result h)

pub accept_datagram-IsAt :
    (r : Reassembler) (d : List ℕ) (t : ℕ)
    → (r.has_observed_time && ltb t r.last_observed_time_ms) ≡ false
    → IsAt (accept_datagram r d t).1 t
unfolding accept_datagram
accept_datagram-IsAt r d t late =
    let h = advance_time-IsAt r t late in
    rw h.0 (accept_parsed-IsAt (advance_time r t).1 (parse_datagram d) t t (advance_time r t).0 h.1)

-- The slot that the search finds has the header's stream.
find_slot-own :
    (h : PacketHeader) (slots : List Slot) (index : ℕ) (free : Option ℕ) {m : ℕ}
    → (find_slot h slots index free).slot ≡ some m
    → (i : ℕ) × (m ≡ index + i) × ((get_or slots i empty_slot).stream_id ≡ h.stream_id)
unfolding find_slot is_slot_of
find_slot-own h [] index free e = absurd (cc)
find_slot-own h (slot ∷ slots) index free {m} e = elim (Bool-cases (is_slot_of h slot)) [
  | inl own ↦ (0, ground arith, ground arith)
  | inr other ↦
      let e' : (find_slot h slots (index + 1)
            (if not slot.active then or_else free index else free)).slot
          ≡ some m =
        ground arith in
      let (i, at, own) = find_slot-own h slots (index + 1) _ e' in (suc i, omega arith, own)
]

-- The frame that a call completes is of the stream of the slot.
store_fragment-stream :
    (slot : Slot) (p : ParseResult) (t : ℕ) (result : AudioReassemblyResult)
    → result.frame_completed ≡ false
    → (store_fragment slot p t result).0.frame_completed ≡ true
    → (store_fragment slot p t result).0.frame.stream_id ≡ slot.stream_id
unfolding store_fragment insert_fragment completed_frame
store_fragment-stream slot p t result partial c = ground arith

accept_in-stream :
    (own free : Option ℕ) (r : Reassembler) (p : ParseResult) (t : ℕ)
    (result : AudioReassemblyResult)
    → ((i : ℕ) → own ≡ some i → (get_or r.slots i empty_slot).stream_id ≡ p.header.stream_id)
    → result.frame_completed ≡ false
    → (accept_in own free r p t result).0.frame_completed ≡ true
    → (accept_in own free r p t result).0.frame.stream_id ≡ p.header.stream_id
unfolding accept_in claim_slot
accept_in-stream (some i) free r p t result own partial c =
    ground (arith, own i refl, store_fragment-stream (get_or r.slots i empty_slot) p t result)
accept_in-stream none (some i) r p t result own partial c =
    ground (
      arith,
      store_fragment-stream (claim_slot (get_or r.slots i empty_slot) p.header t) p t result,
    )
accept_in-stream none none r p t result own partial c = absurd (cc)

accept_parsed-stream :
    (r : Reassembler) (p : ParseResult) (t : ℕ) (result : AudioReassemblyResult)
    → result.frame_completed ≡ false
    → (accept_parsed r p t result).0.frame_completed ≡ true
    → (accept_parsed r p t result).0.frame.stream_id ≡ p.header.stream_id
unfolding accept_parsed accept_fragment
accept_parsed-stream r p t result partial c =
    let found = find_slot p.header r.slots 0 none in
    ground
      (arith, accept_in-stream found.slot found.free_slot r p t result (λ i e. in_slot i e) partial)
  where
    in_slot :
        (i : ℕ)
        → (find_slot p.header r.slots 0 none).slot ≡ some i
        → (get_or r.slots i empty_slot).stream_id ≡ p.header.stream_id
    in_slot i e =
        let (j, at, own) = find_slot-own p.header r.slots 0 none e in
        let same : i ≡ j = omega arith in rw same own

-- When a datagram completes a frame, whatever the reassembler held, the frame's stream is the one
-- in the datagram's header.
pub accept_datagram-stream :
    (r : Reassembler) (d : List ℕ) (t : ℕ)
    → (accept_datagram r d t).0.frame_completed ≡ true
    → (accept_datagram r d t).0.frame.stream_id ≡ (parse_datagram d).header.stream_id
unfolding accept_datagram advance_time
accept_datagram-stream r d t c =
    ground
      (arith, accept_parsed-stream (advance_time r t).1 (parse_datagram d) t (advance_time r t).0)
