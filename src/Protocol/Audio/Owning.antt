-- ===== src/Protocol/Audio/Owning.antt =====
-- audio_frame.cpp: the search for a frame's slot, and one step of the frame's reassembly.
use mathlib.Core.Option.{Option, none, some}
use wiretone.Prelude.{
  ℕ, zero, suc, ◌+◌, ◌<◌, ◌≡◌, refl, ◌∙◌, ap, Bool, true, false, ◌&&◌, not, List, [], ◌∷◌, arith,
  get_or, set, if◌then◌else◌, ◌==◌, bit_and_two,
}
use wiretone.Protocol.Packet.{parse_datagram}
use wiretone.Protocol.Packet.RoundTrip.{parse_datagram-header_bytes}
use wiretone.Protocol.Audio.Types.{AudioFrameView, AudioFrameError}
use wiretone.Protocol.Audio.Fragment.{fragment_count, fragment_header, fragment_payload}
use wiretone.Protocol.Audio.Fragmented.{
  HasWidths, IsSendable, Shape, sendable-Shape, length-fragment_payload, wire,
  fragment_header-HasWidths, fragment_header-valid,
}
use wiretone.Protocol.Audio.Slot.{
  Found, Slot, empty_slot, is_inconsistent, is_slot_of, find_slot, is_expired, expire_slots,
}
use wiretone.Protocol.Audio.Reassembler.{validate_fragment_shape}
use wiretone.Protocol.Audio.Holding.{IsFor, parsed_fragment, first_sequence_number-fragment}

-- The slot is that of the frame, as `is_slot_of` reads it off the header of any fragment.
abbrev pub is_slot_for : AudioFrameView → Slot → Bool
is_slot_for f slot = slot.active && slot.stream_id == f.stream_id && slot.frame_id == f.frame_id

is_slot_of-fragment_header :
    (f : AudioFrameView) (k : ℕ) (slot : Slot)
    → is_slot_of (fragment_header f k) slot ≡ is_slot_for f slot
unfolding is_slot_of fragment_header
is_slot_of-fragment_header f k slot = refl

-- The slot at an index is the first one of the frame.
abbrev pub FirstAt : AudioFrameView → List Slot → ℕ → Type 0
FirstAt f [] i = ⊥
FirstAt f (slot ∷ slots) zero = is_slot_for f slot ≡ true
FirstAt f (slot ∷ slots) (suc i) = (is_slot_for f slot ≡ false) × FirstAt f slots i

pub find_slot-FirstAt :
    (f : AudioFrameView) (k : ℕ) (slots : List Slot) (i index : ℕ) (free : Option ℕ)
    → FirstAt f slots i
    → (find_slot (fragment_header f k) slots index free).slot ≡ some (index + i)
unfolding find_slot fragment_header
find_slot-FirstAt f k [] i index free h = absurd h
find_slot-FirstAt f k (slot ∷ slots) zero index free h = rw h (ap some (omega arith))
find_slot-FirstAt f k (slot ∷ slots) (suc i) index free h =
    rw h.0 (find_slot-FirstAt f k slots i (index + 1) _ h.1 ∙ ap some (omega arith))

kept_or_reset :
    (f : AudioFrameView) (b : Bool) (slot : Slot)
    → is_slot_for f slot ≡ false
    → is_slot_for f (if b then empty_slot else slot) ≡ false
unfolding empty_slot
kept_or_reset f true slot e = refl
kept_or_reset f false slot e = e

-- What expiry keeps of the frame's slot.
pub expire_slots-FirstAt :
    (f : AudioFrameView) (now : ℕ) (slots : List Slot) (i : ℕ)
    → FirstAt f slots i
    → is_expired now (get_or slots i empty_slot) ≡ false
    → FirstAt f (expire_slots now slots) i
      × (get_or (expire_slots now slots) i empty_slot ≡ get_or slots i empty_slot)
unfolding expire_slots
expire_slots-FirstAt f now [] i h e = absurd h
expire_slots-FirstAt f now (slot ∷ slots) zero h e = rw e (h, refl)
expire_slots-FirstAt f now (slot ∷ slots) (suc i) h e =
    let (first, same) = expire_slots-FirstAt f now slots i h.1 e in
    ((kept_or_reset f (is_expired now slot) slot h.0, first), same)

pub set-FirstAt :
    (f : AudioFrameView) (slots : List Slot) (i : ℕ) (slot : Slot)
    → FirstAt f slots i
    → is_slot_for f slot ≡ true
    → FirstAt f (set slots i slot) i × (get_or (set slots i slot) i empty_slot ≡ slot)
set-FirstAt f [] i slot h e = absurd h
set-FirstAt f (x ∷ slots) zero slot h e = (e, refl)
set-FirstAt f (x ∷ slots) (suc i) slot h e =
    let (first, same) = set-FirstAt f slots i slot h.1 e in ((h.0, first), same)

pub is_slot_for-IsFor :
    (f : AudioFrameView) (slot : Slot) → IsFor f slot → is_slot_for f slot ≡ true
is_slot_for-IsFor f slot h = ground arith

-- A datagram of the frame is parsed to its fragment, and has the right shape.
pub parse_wire :
    (f : AudioFrameView) (k : ℕ)
    → HasWidths f
    → IsSendable f
    → k < fragment_count f
    → parse_datagram (wire f k) ≡ parsed_fragment f k
parse_wire f k w s h =
    parse_datagram-header_bytes (fragment_header f k) (fragment_payload f k)
      (fragment_header-HasWidths f k w) (fragment_header-valid f k w s h)
      (unfold fragment_header in omega (arith, length-fragment_payload f k, sendable-Shape f k s))

pub fragment-well_shaped :
    (f : AudioFrameView) (k : ℕ)
    → IsSendable f
    → k < fragment_count f
    → validate_fragment_shape (parsed_fragment f k) ≡ AudioFrameError.none
unfolding validate_fragment_shape fragment_header
fragment-well_shaped f k s h =
    let shape : Shape f k = sendable-Shape f k s in
    ground (arith, shape, s, length-fragment_payload f k, bit_and_two f.flags)

pub consistent :
    (f : AudioFrameView) (k : ℕ) (slot : Slot)
    → HasWidths f
    → IsSendable f
    → k < fragment_count f
    → IsFor f slot
    → is_inconsistent slot (fragment_header f k) ≡ false
unfolding is_inconsistent
consistent f k slot w s h own =
    let shape : Shape f k = sendable-Shape f k s in
    let lt : k < 4 = omega (arith, shape) in
    rw (first_sequence_number-fragment f k w lt)
      (unfold fragment_header in ground (arith, own, shape))

-- The frame has no slot yet.
abbrev pub NoSlot : AudioFrameView → List Slot → Type 0
NoSlot f [] = Unit {0}
NoSlot f (slot ∷ slots) = (is_slot_for f slot ≡ false) × NoSlot f slots

-- The first slot that is free, and as it was at the start.
abbrev pub FirstFree : List Slot → ℕ → Type 0
FirstFree [] j = ⊥
FirstFree (slot ∷ slots) zero = slot ≡ empty_slot
FirstFree (slot ∷ slots) (suc j) = (slot.active ≡ true) × FirstFree slots j

find_slot-found_free :
    (f : AudioFrameView) (k : ℕ) (slots : List Slot) (index j : ℕ)
    → NoSlot f slots
    → find_slot (fragment_header f k) slots index (some j)
      ≡ record { slot = none; free_slot = some j }
unfolding find_slot fragment_header
find_slot-found_free f k [] index j h = refl
find_slot-found_free f k (slot ∷ slots) index j h =
    rw h.0 (same_free slot.active ∙ find_slot-found_free f k slots (index + 1) j h.1)
  where
    same_free :
        (b : Bool)
        → find_slot (fragment_header f k) slots (index + 1) (if not b then some j else some j)
          ≡ find_slot (fragment_header f k) slots (index + 1) (some j)
    same_free true = refl
    same_free false = refl

pub find_slot-FirstFree :
    (f : AudioFrameView) (k : ℕ) (slots : List Slot) (index j : ℕ)
    → NoSlot f slots
    → FirstFree slots j
    → find_slot (fragment_header f k) slots index none
      ≡ record { slot = none; free_slot = some (index + j) }
unfolding find_slot fragment_header empty_slot
find_slot-FirstFree f k [] index j h e = absurd e
find_slot-FirstFree f k (slot ∷ slots) index zero h e = rw e (
    find_slot-found_free f k slots (index + 1) index h.1
    ∙ ap {B = Found} (λ (n : ℕ). record { slot = none; free_slot = some n }) (omega arith))
find_slot-FirstFree f k (slot ∷ slots) index (suc j) h e =
    rw (h.0, e.0)
      (find_slot-FirstFree f k slots (index + 1) j h.1 e.1
        ∙ ap {B = Found} (λ (n : ℕ). record { slot = none; free_slot = some n }) (omega arith))

pub claimed-FirstAt :
    (f : AudioFrameView) (slots : List Slot) (j : ℕ) (slot : Slot)
    → NoSlot f slots
    → FirstFree slots j
    → is_slot_for f slot ≡ true
    → (get_or slots j empty_slot ≡ empty_slot)
      × FirstAt f (set slots j slot) j
      × (get_or (set slots j slot) j empty_slot ≡ slot)
claimed-FirstAt f [] j slot h e p = absurd e
claimed-FirstAt f (x ∷ slots) zero slot h e p = (e, p, refl)
claimed-FirstAt f (x ∷ slots) (suc j) slot h e p =
    let (free, first, same) = claimed-FirstAt f slots j slot h.1 e.1 p in (free, (h.0, first), same)
