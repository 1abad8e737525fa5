-- ===== src/Protocol/Audio/Refused.antt =====
-- audio_frame.cpp: a datagram that the reassembler refuses leaves the frames in flight alone.
use mathlib.Core.Option.{Option, none, some}
use wiretone.Prelude.{
  ℕ, suc, zero, ◌≡◌, ◌≢◌, refl, sym, ◌∙◌, ap, true, false, ◌&&◌, ◌==◌, not, List, [], ◌∷◌, arith,
  get_or, set, replicate, if_elim, ltb, inl, inr, Bool-cases, All-get_or, All-set, All-replicate,
}
use wiretone.Protocol.Packet.{ParseResult, PacketHeader, is_audio, parse_datagram}
use wiretone.Protocol.Packet
use wiretone.Protocol.Audio.Types.{AudioFrameError, is_none, AudioReassemblyResult}
use wiretone.Protocol.Audio.Slot.{
  Slot, empty_slot, find_slot, store_fragment, insert_fragment, claim_slot, is_inconsistent,
}
use wiretone.Protocol.Audio.Reassembler.{
  Reassembler, reset, advance_time, accept_in, accept_fragment, accept_parsed, accept_datagram,
  validate_fragment_shape,
}
use wiretone.Protocol.Audio.InUse.{
  IsUsedOrNew, AreUsedOrNew, IsSettled, advance_time-settled, expire_slots-AreUsedOrNew,
  found_active, found_free,
}

get_or-false : (n k : ℕ) → get_or (replicate n false) k false ≡ false
get_or-false zero k = refl
get_or-false (suc n) zero = refl
get_or-false (suc n) (suc k) = get_or-false n k

-- A slot that is not in use has nothing.
nothing_received :
    (slot : Slot) (k : ℕ)
    → IsUsedOrNew slot
    → slot.active ≡ false
    → get_or slot.received k false ≡ false
unfolding empty_slot
nothing_received slot k (inl used) inactive = absurd (cc)
nothing_received slot k (inr new) inactive = rw new (get_or-false 4 k)

-- A slot that refuses a fragment is left as it was.
store_fragment-refused :
    (slot : Slot) (p : ParseResult) (t : ℕ) (result : AudioReassemblyResult)
    → result.error ≡ AudioFrameError.none
    → (store_fragment slot p t result).0.error ≢ AudioFrameError.none
    → (get_or slot.received p.header.fragment_index false ≡ true)
      × ((store_fragment slot p t result).1 ≡ slot)
unfolding store_fragment
store_fragment-refused slot p t result ok e =
    elim (Bool-cases (get_or slot.received p.header.fragment_index false)) [
      | inl dup ↦ rw dup (refl, refl)
      | inr first ↦ absurd (ground (arith, e, first, ok))
    ]

store_fragment-IsUsedOrNew :
    (slot : Slot) (p : ParseResult) (t : ℕ) (result : AudioReassemblyResult)
    → slot.active ≡ true
    → IsUsedOrNew (store_fragment slot p t result).1
unfolding store_fragment insert_fragment
store_fragment-IsUsedOrNew slot p t result used =
    if_elim (λ (r : AudioReassemblyResult × Slot). IsUsedOrNew r.1)
      (get_or slot.received p.header.fragment_index false) (λ _. inl used)
      (λ _.
        if_elim (λ (r : AudioReassemblyResult × Slot). IsUsedOrNew r.1) _ (λ _. inl used)
          (λ _. inr refl))

set-get_or {ℓ} : {A : Type ℓ} (xs : List A) (i : ℕ) (d : A) → set xs i (get_or xs i d) ≡ xs
set-get_or [] i d = refl
set-get_or (x ∷ xs) zero d = refl
set-get_or (x ∷ xs) (suc i) d = ap (◌∷◌ x) (set-get_or xs i d)

put_same :
    (r : Reassembler) (i : ℕ) (slot : Slot)
    → slot ≡ get_or r.slots i empty_slot
    → record r { slots = set r.slots i slot } ≡ r
put_same r i slot e = rw (e, set-get_or r.slots i empty_slot) refl

-- An answer that leaves the reassembler as it was when it is an error.
abbrev Leaves : Reassembler → AudioReassemblyResult × Reassembler → Type 0
Leaves r answer = answer.0.error ≢ AudioFrameError.none → answer.1 ≡ r

-- An answer with slots in use or new.
abbrev Keeps : AudioReassemblyResult × Reassembler → Type 0
Keeps answer = AreUsedOrNew answer.1

true_not_false : true ≡ false → ⊥
true_not_false e = cc

accept_in-refused :
    (own free : Option ℕ) (r : Reassembler) (p : ParseResult) (t : ℕ)
    (result : AudioReassemblyResult)
    → AreUsedOrNew r
    → ((i : ℕ) → free ≡ some i → (get_or r.slots i empty_slot).active ≡ false)
    → result.error ≡ AudioFrameError.none
    → (accept_in own free r p t result).0.error ≢ AudioFrameError.none
    → (accept_in own free r p t result).1 ≡ r
unfolding accept_in claim_slot
accept_in-refused (some i) free r p t result h k ok =
    if_elim (Leaves r) (is_inconsistent (get_or r.slots i empty_slot) p.header) (λ _ _. refl)
      (λ _ e.
        put_same r i _ (store_fragment-refused (get_or r.slots i empty_slot) p t result ok e).1)
accept_in-refused none (some i) r p t result h k ok = λ e.
    let slot = get_or r.slots i empty_slot in
    let (dup, _) = store_fragment-refused (claim_slot slot p.header t) p t result ok e in
    let free = All-get_or IsUsedOrNew r.slots i empty_slot h (inr refl) in
    absurd
      (true_not_false (sym dup ∙ nothing_received slot p.header.fragment_index free (k i refl)))
accept_in-refused none none r p t result h k ok = λ e. refl

accept_in-AreUsedOrNew :
    (own free : Option ℕ) (r : Reassembler) (p : ParseResult) (t : ℕ)
    (result : AudioReassemblyResult)
    → AreUsedOrNew r
    → ((i : ℕ) → own ≡ some i → (get_or r.slots i empty_slot).active ≡ true)
    → AreUsedOrNew (accept_in own free r p t result).1
unfolding accept_in claim_slot
accept_in-AreUsedOrNew (some i) free r p t result h k =
    if_elim Keeps (is_inconsistent (get_or r.slots i empty_slot) p.header) (λ _. h)
      (λ _.
        All-set IsUsedOrNew r.slots i _ h
          (store_fragment-IsUsedOrNew (get_or r.slots i empty_slot) p t result (k i refl)))
accept_in-AreUsedOrNew none (some i) r p t result h k = All-set IsUsedOrNew r.slots i _ h (
    store_fragment-IsUsedOrNew (claim_slot (get_or r.slots i empty_slot) p.header t) p t result
      refl)
accept_in-AreUsedOrNew none none r p t result h k = h

accept_parsed-refused :
    (r : Reassembler) (p : ParseResult) (t : ℕ) (result : AudioReassemblyResult)
    → AreUsedOrNew r
    → result.error ≡ AudioFrameError.none
    → (accept_parsed r p t result).0.error ≢ AudioFrameError.none
    → (accept_parsed r p t result).1 ≡ r
unfolding accept_parsed accept_fragment
accept_parsed-refused r p t result h ok =
    let found = find_slot p.header r.slots 0 none in
    if_elim (Leaves r) (not (Packet.is_none p.error)) (λ _ _. refl)
      (λ _.
        if_elim (Leaves r) (not (is_audio p.header.type)) (λ _ _. refl)
          (λ _.
            if_elim (Leaves r) (p.header.frame_id == 0) (λ _ _. refl)
              (λ _.
                if_elim (Leaves r) (not (is_none (validate_fragment_shape p))) (λ _ _. refl)
                  (λ _.
                    accept_in-refused found.slot found.free_slot r p t result h
                      (λ i e. found_free r p.header i e) ok))))

accept_parsed-AreUsedOrNew :
    (r : Reassembler) (p : ParseResult) (t : ℕ) (result : AudioReassemblyResult)
    → AreUsedOrNew r
    → AreUsedOrNew (accept_parsed r p t result).1
unfolding accept_parsed accept_fragment
accept_parsed-AreUsedOrNew r p t result h =
    let found = find_slot p.header r.slots 0 none in
    if_elim Keeps (not (Packet.is_none p.error)) (λ _. h)
      (λ _.
        if_elim Keeps (not (is_audio p.header.type)) (λ _. h)
          (λ _.
            if_elim Keeps (p.header.frame_id == 0) (λ _. h)
              (λ _.
                if_elim Keeps (not (is_none (validate_fragment_shape p))) (λ _. h)
                  (λ _.
                    accept_in-AreUsedOrNew found.slot found.free_slot r p t result h
                      (λ i e. found_active r p.header i e)))))

-- A datagram that is refused at a time that has come leaves the reassembler as it was.
pub accept_datagram-refused_in :
    (r : Reassembler) (d : List ℕ) (t : ℕ)
    → AreUsedOrNew r
    → IsSettled r t
    → (accept_datagram r d t).0.error ≢ AudioFrameError.none
    → (accept_datagram r d t).1 ≡ r
unfolding accept_datagram
accept_datagram-refused_in r d t h settled =
    let (ok, same) = advance_time-settled r t settled in
    rw (ok, same) (λ e. accept_parsed-refused r (parse_datagram d) t (advance_time r t).0 h ok e)

pub advance_time-AreUsedOrNew :
    (r : Reassembler) (t : ℕ) → AreUsedOrNew r → AreUsedOrNew (advance_time r t).1
unfolding advance_time
advance_time-AreUsedOrNew r t h =
    if_elim Keeps (r.has_observed_time && ltb t r.last_observed_time_ms) (λ _. h)
      (λ _. expire_slots-AreUsedOrNew t r.slots h)

pub accept_datagram-AreUsedOrNew :
    (r : Reassembler) (d : List ℕ) (t : ℕ) → AreUsedOrNew r → AreUsedOrNew (accept_datagram r d t).1
unfolding accept_datagram
accept_datagram-AreUsedOrNew r d t h =
    let after = advance_time-AreUsedOrNew r t h in
    if_elim Keeps (not (is_none (advance_time r t).0.error)) (λ _. after)
      (λ _. accept_parsed-AreUsedOrNew (advance_time r t).1 (parse_datagram d) t _ after)

pub reset-AreUsedOrNew : AreUsedOrNew reset
unfolding reset
reset-AreUsedOrNew = All-replicate IsUsedOrNew 8 empty_slot (inr refl)
