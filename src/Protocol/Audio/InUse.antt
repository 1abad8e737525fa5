-- ===== src/Protocol/Audio/InUse.antt =====
-- audio_frame.cpp: the slots that are in use and those that are free, as time passes and as the
-- search finds them.
use mathlib.Core.Option.{Option, none, some}
use wiretone.Prelude.{
  ℕ, suc, ◌+◌, ◌≡◌, ◌⊎◌, refl, true, false, ◌&&◌, not, List, [], ◌∷◌, arith, get_or, ltb, inl, inr,
  Bool-cases, if◌then◌else◌, All,
}
use wiretone.Protocol.Packet.{PacketHeader}
use wiretone.Protocol.Audio.Types.{AudioFrameError}
use wiretone.Protocol.Audio.Slot.{
  Slot, or_else, empty_slot, is_expired, expire_slots, find_slot, is_slot_of,
}
use wiretone.Protocol.Audio.Reassembler.{Reassembler, advance_time}

-- A slot is in use, or as good as new.
abbrev pub IsUsedOrNew : Slot → Type 0
IsUsedOrNew slot = (slot.active ≡ true) ⊎ (slot ≡ empty_slot)

abbrev pub AreUsedOrNew : Reassembler → Type 0
AreUsedOrNew r = All IsUsedOrNew r.slots

-- The time has come to `t`: what is due by then has expired.
pub record IsSettled (r : Reassembler) (t : ℕ) : Type 0 where
  pub observed : r.has_observed_time ≡ true
  pub time : r.last_observed_time_ms ≡ t
  pub expired : expire_slots t r.slots ≡ r.slots

empty_slot-kept : (t : ℕ) → is_expired t empty_slot ≡ false
unfolding is_expired empty_slot
empty_slot-kept t = refl

expire_slots-twice :
    (t : ℕ) (slots : List Slot) → expire_slots t (expire_slots t slots) ≡ expire_slots t slots
unfolding expire_slots
expire_slots-twice t [] = refl
expire_slots-twice t (slot ∷ slots) = elim (Bool-cases (is_expired t slot)) [
  | inl due ↦ rw (due, empty_slot-kept t, expire_slots-twice t slots) refl
  | inr kept ↦ rw (kept, kept, expire_slots-twice t slots) refl
]

pub advance_time-IsSettled :
    (r : Reassembler) (t : ℕ)
    → (r.has_observed_time && ltb t r.last_observed_time_ms) ≡ false
    → IsSettled (advance_time r t).1 t
unfolding advance_time
advance_time-IsSettled r t late =
    rw late (record { observed = refl; time = refl; expired = expire_slots-twice t r.slots })

not_before : (t : ℕ) → ltb t t ≡ false
not_before t = ground arith

pub advance_time-settled :
    (r : Reassembler) (t : ℕ)
    → IsSettled r t
    → ((advance_time r t).0.error ≡ AudioFrameError.none) × ((advance_time r t).1 ≡ r)
unfolding advance_time
advance_time-settled r t h = rw (h.observed, h.time, h.expired, not_before t) (refl, refl)

pub expire_slots-AreUsedOrNew :
    (t : ℕ) (slots : List Slot) → All IsUsedOrNew slots → All IsUsedOrNew (expire_slots t slots)
unfolding expire_slots
expire_slots-AreUsedOrNew t [] h = h
expire_slots-AreUsedOrNew t (slot ∷ slots) h = elim (Bool-cases (is_expired t slot)) [
  | inl due ↦ rw due (inr refl, expire_slots-AreUsedOrNew t slots h.1)
  | inr kept ↦ rw kept (h.0, expire_slots-AreUsedOrNew t slots h.1)
]

-- The slot that the search finds is in use.
find_slot-active :
    (h : PacketHeader) (slots : List Slot) (index : ℕ) (free : Option ℕ) (m : ℕ)
    → (find_slot h slots index free).slot ≡ some m
    → (i : ℕ) × (m ≡ index + i) × ((get_or slots i empty_slot).active ≡ true)
unfolding find_slot is_slot_of
find_slot-active h [] index free m e = absurd (cc)
find_slot-active h (slot ∷ slots) index free m e = elim (Bool-cases (is_slot_of h slot)) [
  | inl own ↦ (0, ground arith, ground arith)
  | inr other ↦
      let e' : (find_slot h slots (index + 1)
            (if not slot.active then or_else free index else free)).slot
          ≡ some m =
        ground arith in
      let (i, at, own) = find_slot-active h slots (index + 1) _ m e' in (suc i, omega arith, own)
]

-- The place that is noted for the slots that follow is the one before, or that of an inactive slot.
noted :
    (slot : Slot) (index : ℕ) (free : Option ℕ) (m : ℕ)
    → (if not slot.active then or_else free index else free) ≡ some m
    → (free ≡ some m) ⊎ ((m ≡ index) × (slot.active ≡ false))
noted slot index none m e = elim (Bool-cases slot.active) [
  | inl used ↦ inl (ground (arith, e))
  | inr inactive ↦ inr (ground (arith, e), inactive)
]
noted slot index (some j) m e = elim (Bool-cases slot.active) [
  | inl used ↦ inl (ground (arith, e))
  | inr inactive ↦ inl (ground (arith, e))
]

-- The free slot that the search finds is not in use.
find_slot-free :
    (h : PacketHeader) (slots : List Slot) (index : ℕ) (free : Option ℕ) (m : ℕ)
    → (find_slot h slots index free).free_slot ≡ some m
    → (free ≡ some m) ⊎ ((i : ℕ) × (m ≡ index + i) × ((get_or slots i empty_slot).active ≡ false))
unfolding find_slot is_slot_of
find_slot-free h [] index free m e = inl e
find_slot-free h (slot ∷ slots) index free m e = elim (Bool-cases (is_slot_of h slot)) [
  | inl own ↦ inl (ground arith)
  | inr other ↦
      let e' : (find_slot h slots (index + 1)
            (if not slot.active then or_else free index else free)).free_slot
          ≡ some m =
        ground arith in
      elim (find_slot-free h slots (index + 1) _ m e') [
        | inl before ↦ elim (noted slot index free m before) [
          | inl old ↦ inl old
          | inr (at, inactive) ↦ inr (0, omega arith, inactive)
        ]
        | inr (i, at, inactive) ↦ inr (suc i, omega arith, inactive)
      ]
]

pub found_active :
    (r : Reassembler) (h : PacketHeader) (i : ℕ)
    → (find_slot h r.slots 0 none).slot ≡ some i
    → (get_or r.slots i empty_slot).active ≡ true
found_active r h i e =
    let (j, at, own) = find_slot-active h r.slots 0 none i e in
    let same : i ≡ j = omega arith in rw same own

pub found_free :
    (r : Reassembler) (h : PacketHeader) (i : ℕ)
    → (find_slot h r.slots 0 none).free_slot ≡ some i
    → (get_or r.slots i empty_slot).active ≡ false
found_free r h i e = elim (find_slot-free h r.slots 0 none i e) [
  | inl before ↦ absurd (ground (arith, before))
  | inr (j, at, own) ↦ let same : i ≡ j = omega arith in rw same own
]
