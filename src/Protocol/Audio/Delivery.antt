-- ===== src/Protocol/Audio/Delivery.antt =====
-- audio_frame.cpp: `accept_datagram` on the datagrams of one frame.
use mathlib.Core.Option.{none}
use wiretone.Prelude.{
  ℕ, ◌+◌, ◌%◌, ◌^◌, ◌≤◌, ◌<◌, ◌≡◌, ◌≢◌, refl, ◌∙◌, ap, true, false, ◌&&◌, arith, get_or, set, ltb,
  !=_of_ne, !=_of_eq, zero-add,
}
use wiretone.Protocol.Audio.Types.{
  AudioFrameView, AudioFrameError, AudioReassemblyResult, empty_result,
}
use wiretone.Protocol.Audio.Fragment.{fragment_count, fragment_header}
use wiretone.Protocol.Audio.Fragmented.{HasWidths, IsSendable, sendable-Shape, wire}
use wiretone.Protocol.Audio.Slot.{
  Slot, empty_slot, insert_fragment, completed_frame, is_expired, expire_slots, expired_count,
  store_fragment,
}
use wiretone.Protocol.Audio.Reassembler.{
  Reassembler, advance_time, accept_fragment, accept_parsed, accept_datagram, put_slot, accept_in,
}
use wiretone.Protocol.Audio.Holding.{Holds, parsed_fragment}
use wiretone.Protocol.Audio.Inserting.{
  IsFrameOf, insert_fragment-Holds, received-insert, received_count-insert, last_arrival-insert,
  completed_frame-IsFrameOf,
}
use wiretone.Protocol.Audio.Owning.{
  FirstAt, find_slot-FirstAt, expire_slots-FirstAt, set-FirstAt, is_slot_for-IsFor, parse_wire,
  fragment-well_shaped, consistent,
}

-- A time that `advance_time` accepts.
abbrev pub IsLate : Reassembler → ℕ → Type 0
IsLate r t = (r.has_observed_time && ltb t r.last_observed_time_ms) ≡ false

abbrev pub advanced : Reassembler → ℕ → Reassembler
advanced r t = record {
  slots = expire_slots t r.slots;
  has_observed_time = true;
  last_observed_time_ms = t;
}

abbrev pub expiry : Reassembler → ℕ → AudioReassemblyResult
expiry r t = record empty_result { expired_frame_count = expired_count t r.slots }

pub accept_wire :
    (r : Reassembler) (f : AudioFrameView) (k t : ℕ)
    → HasWidths f
    → IsSendable f
    → k < fragment_count f
    → IsLate r t
    → accept_datagram r (wire f k) t
      ≡ accept_fragment (advanced r t) (parsed_fragment f k) t (expiry r t)
unfolding accept_datagram advance_time accept_parsed
accept_wire r f k t w s h late =
    rw (late, parse_wire f k w s h, fragment-well_shaped f k s h)
      (unfold fragment_header in ground (arith, s))

module _ (f : AudioFrameView) (k t : ℕ) (w : HasWidths f) (s : IsSendable f)
    (lt : k < fragment_count f) (result : AudioReassemblyResult) where
  abbrev pub after : Slot → Slot
  after slot = insert_fragment slot (parsed_fragment f k) t

  module _ (slot : Slot) (h : Holds f slot) (fresh : get_or slot.received k false ≡ false) where
    pub after-Holds : Holds f (after slot)
    after-Holds = insert_fragment-Holds f slot k t s h lt fresh

    not_twice : get_or slot.received (k % 2 ^ 8) false ≡ false
    not_twice = let e : k % 2 ^ 8 ≡ k = omega (arith, sendable-Shape f k s) in rw e fresh

    -- The fragment is not the last one that is missing.
    pub store_more :
        slot.received_count + 1 ≢ fragment_count f
        → store_fragment slot (parsed_fragment f k) t result ≡ (result, after slot)
    unfolding store_fragment fragment_header
    store_more ne = rw (
      not_twice,
      !=_of_ne (after slot).received_count (after slot).fragment_count (λ e. ne (
          omega
            (arith, received_count-insert f slot k t s h lt, after-Holds.is_for.fragment_count))),
    )

    -- The fragment is the last one that is missing.
    pub store_last :
        slot.received_count + 1 ≡ fragment_count f
        → store_fragment slot (parsed_fragment f k) t result ≡ (
          record result { frame_completed = true; frame = completed_frame (after slot) },
          empty_slot,
        )
    unfolding store_fragment fragment_header
    store_last e = rw (
      not_twice,
      !=_of_eq (after slot).received_count (after slot).fragment_count (
          omega
            (arith, received_count-insert f slot k t s h lt, after-Holds.is_for.fragment_count)),
    )

abbrev pub slot_at : Reassembler → ℕ → Slot
slot_at r i = get_or r.slots i empty_slot

-- The slot at `i` is the frame's own: it holds `n` of its fragments, the last of which came at `t`,
-- the time of the last call.
pub record Owns (f : AudioFrameView) (r : Reassembler) (i n t : ℕ) : Type 0 where
  pub first : FirstAt f r.slots i
  pub holds : Holds f (slot_at r i)
  pub count : (slot_at r i).received_count ≡ n
  pub arrived : (slot_at r i).last_arrival_time_ms ≡ t
  pub observed : r.last_observed_time_ms ≡ t

-- A next time before the frame expires.
abbrev pub IsTimely : ℕ → ℕ → Type 0
IsTimely t t' = (t ≤ t') × (t' < t + 250) × (t' < 2 ^ 64)

module _ (f : AudioFrameView) (r : Reassembler) (i n t : ℕ) (w : HasWidths f) (s : IsSendable f)
    (o : Owns f r i n t) (k t' : ℕ) (lt : k < fragment_count f)
    (fresh : get_or (slot_at r i).received k false ≡ false) (timely : IsTimely t t') where
  not-IsLate : IsLate r t'
  not-IsLate = ground (arith, o.observed)

  not_expired : is_expired t' (slot_at r i) ≡ false
  unfolding is_expired
  not_expired = ground (arith, o.arrived)

  kept :
      FirstAt f (expire_slots t' r.slots) i
      × (get_or (expire_slots t' r.slots) i empty_slot ≡ slot_at r i)
  kept = expire_slots-FirstAt f t' r.slots i o.first not_expired

  abbrev pub next_slot : Slot
  next_slot = insert_fragment (slot_at r i) (parsed_fragment f k) t'

  pub next : Reassembler
  next = record {
    slots = set (expire_slots t' r.slots) i next_slot;
    has_observed_time = true;
    last_observed_time_ms = t';
  }

  next-Holds : Holds f next_slot
  next-Holds = insert_fragment-Holds f (slot_at r i) k t' s o.holds lt fresh

  accept_stored :
      accept_fragment (advanced r t') (parsed_fragment f k) t' (expiry r t')
      ≡ put_slot
          (advanced r t')
          i
          (store_fragment (slot_at r i) (parsed_fragment f k) t' (expiry r t'))
  unfolding accept_fragment accept_in
  accept_stored = rw (
    accept_in,
    find_slot-FirstAt f k (expire_slots t' r.slots) i 0 none kept.0,
    zero-add i,
    kept.1,
    consistent f k (slot_at r i) w s lt o.holds.is_for,
  )

  -- A fragment that is not the last one missing is stored, and nothing is completed.
  pub accept_more :
      n + 1 ≢ fragment_count f
      → (accept_datagram r (wire f k) t' ≡ (expiry r t', next))
        × Owns f next i (n + 1) t'
        × ((slot_at next i).received ≡ set (slot_at r i).received k true)
  unfolding next
  accept_more ne =
      let (first, same) =
        set-FirstAt f (expire_slots t' r.slots) i next_slot kept.0
          (is_slot_for-IsFor f next_slot next-Holds.is_for) in
      (
        accept_wire r f k t' w s lt not-IsLate
            ∙ accept_stored
            ∙ ap (put_slot (advanced r t') i) (
                store_more f k t' w s lt (expiry r t') (slot_at r i) o.holds fresh
                  (λ e. ne (omega (arith, o.count)))),
        record {
          first = first;
          holds = rw same next-Holds;
          count =
              rw same
                (omega (arith, received_count-insert f (slot_at r i) k t' s o.holds lt, o.count));
          arrived = rw same (last_arrival-insert f (slot_at r i) k t' s o.holds lt);
          observed = refl;
        },
        rw same (received-insert f (slot_at r i) k t' s o.holds lt),
      )

  -- The last fragment that is missing completes the frame.
  pub accept_last :
      n + 1 ≡ fragment_count f
      → let (result, _) = accept_datagram r (wire f k) t' in
        (result.error ≡ AudioFrameError.none)
        × (result.frame_completed ≡ true)
        × IsFrameOf f result.frame
  accept_last e =
      rw
        (accept_wire r f k t' w s lt not-IsLate
          ∙ accept_stored
          ∙ ap (put_slot (advanced r t') i) last)
        (refl, refl, complete)
    where
      last : store_fragment (slot_at r i) (parsed_fragment f k) t' (expiry r t') ≡ (
        record (expiry r t') { frame_completed = true; frame = completed_frame next_slot },
        empty_slot,
      )
      last =
          store_last f k t' w s lt (expiry r t') (slot_at r i) o.holds fresh
            (omega (arith, o.count))

      complete : IsFrameOf f (completed_frame next_slot)
      complete = completed_frame-IsFrameOf f next_slot s next-Holds (
          omega (
            arith,
            received_count-insert f (slot_at r i) k t' s o.holds lt,
            next-Holds.is_for.fragment_count,
            o.count,
          ))
