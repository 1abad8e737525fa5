-- ===== src/Protocol/Audio/Reassembly.antt =====
-- audio_frame.cpp: the datagrams of one frame, delivered in any order, give the frame back.
use wiretone.Prelude.{
  ℕ, ◌+◌, ◌<◌, ◌≡◌, ◌≢◌, refl, ◌∙◌, sym, ap, subst, true, false, List, [], ◌∷◌, arith, All, length,
  get_or, set, zero-add, get_or-set_ne,
}
use wiretone.Protocol.Audio.Sent.{fragment_audio_frame-IsWired}
use wiretone.Protocol.Audio.Types.{
  bytes, empty_datagram, AudioFrameView, AudioFrameError, AudioReassemblyResult,
}
use wiretone.Protocol.Audio.Fragment.{
  fragment_count, fragment_header, validate_frame_view, fragment_audio_frame,
}
use wiretone.Protocol.Audio.Fragmented.{HasWidths, IsSendable, validated-IsSendable, wire}
use wiretone.Protocol.Audio.Slot.{
  Slot, empty_slot, insert_fragment, expire_slots, store_fragment, claim_slot,
}
use wiretone.Protocol.Audio.Reassembler.{
  Reassembler, accept_fragment, accept_in, accept_datagram, put_slot,
}
use wiretone.Protocol.Audio.Holding.{Holds, parsed_fragment, claim_slot-Holds, claimed_empty}
use wiretone.Protocol.Audio.Inserting.{
  IsFrameOf, received-insert, received_count-insert, last_arrival-insert, completed_frame-IsFrameOf,
}
use wiretone.Protocol.Audio.Owning.{
  NoSlot, FirstFree, find_slot-FirstFree, claimed-FirstAt, is_slot_for-IsFor,
}
use wiretone.Protocol.Audio.Delivery.{
  IsLate, advanced, expiry, accept_wire, after, after-Holds, store_more, store_last, slot_at, Owns,
  IsTimely, next, accept_more, accept_last,
}

-- What the receiver reports of a call that completes the frame.
pub record Completes (f : AudioFrameView) (result : AudioReassemblyResult) : Type 0 where
  pub error : result.error ≡ AudioFrameError.none
  pub frame_completed : result.frame_completed ≡ true
  pub frame : IsFrameOf f result.frame

-- The reassembler can begin the frame at time `t`: the time does not run backwards, and, once the
-- expired slots are reset, no slot has the frame and the slot at `j` is the first free one.
pub record CanBegin (f : AudioFrameView) (r : Reassembler) (t j : ℕ) : Type 0 where
  pub late : IsLate r t
  pub unknown : NoSlot f (expire_slots t r.slots)
  pub free : FirstFree (expire_slots t r.slots) j

module _ (f : AudioFrameView) (r : Reassembler) (t j k : ℕ) (w : HasWidths f) (s : IsSendable f)
    (b : CanBegin f r t j) (lt : k < fragment_count f) where
  abbrev claimed : Slot
  claimed = claim_slot empty_slot (fragment_header f k) t

  claimed-Holds : Holds f claimed
  claimed-Holds = claim_slot-Holds f k t w s lt

  abbrev first_slot : Slot
  first_slot = insert_fragment claimed (parsed_fragment f k) t

  first_slot-Holds : Holds f first_slot
  first_slot-Holds =
      after-Holds f k t w s lt (expiry r t) claimed claimed-Holds (claimed_empty f k t k).0

  pub begun : Reassembler
  begun = record {
    slots = set (expire_slots t r.slots) j first_slot;
    has_observed_time = true;
    last_observed_time_ms = t;
  }

  accept_claimed :
      accept_datagram r (wire f k) t
      ≡ put_slot (advanced r t) j (store_fragment claimed (parsed_fragment f k) t (expiry r t))
  unfolding accept_fragment accept_in
  accept_claimed =
      let (free, _, _) =
        claimed-FirstAt f (expire_slots t r.slots) j first_slot b.unknown b.free
          (is_slot_for-IsFor f first_slot first_slot-Holds.is_for) in
      accept_wire r f k t w s lt b.late
      ∙ rw (
        accept_in,
        find_slot-FirstFree f k (expire_slots t r.slots) 0 j b.unknown b.free,
        zero-add j,
        free,
      )

  -- The first fragment of several claims the free slot.
  pub accept_first :
      1 ≢ fragment_count f
      → (accept_datagram r (wire f k) t ≡ (expiry r t, begun))
        × Owns f begun j 1 t
        × ((slot_at begun j).received ≡ set claimed.received k true)
  unfolding begun
  accept_first ne =
      let (_, first, same) =
        claimed-FirstAt f (expire_slots t r.slots) j first_slot b.unknown b.free
          (is_slot_for-IsFor f first_slot first_slot-Holds.is_for) in
      (
        accept_claimed
            ∙ ap (put_slot (advanced r t) j) (
                store_more f k t w s lt (expiry r t) claimed claimed-Holds (claimed_empty f k t k).0
                  (λ e. ne (omega (arith, (claimed_empty f k t k).1)))),
        record {
          first = first;
          holds = rw same first_slot-Holds;
          count = rw same (
              omega (
                arith,
                received_count-insert f claimed k t s claimed-Holds lt,
                (claimed_empty f k t k).1,
              ));
          arrived = rw same (last_arrival-insert f claimed k t s claimed-Holds lt);
          observed = refl;
        },
        rw same (received-insert f claimed k t s claimed-Holds lt),
      )

  -- The only fragment completes the frame at once.
  pub accept_only : 1 ≡ fragment_count f → Completes f (accept_datagram r (wire f k) t).0
  accept_only e =
      rw
        (accept_claimed
          ∙ ap (put_slot (advanced r t) j) (
              store_last f k t w s lt (expiry r t) claimed claimed-Holds (claimed_empty f k t k).0
                (omega (arith, (claimed_empty f k t k).1))))
        (record {
          error = refl;
          frame_completed = refl;
          frame = completed_frame-IsFrameOf f first_slot s first_slot-Holds (
              omega (
                arith,
                received_count-insert f claimed k t s claimed-Holds lt,
                first_slot-Holds.is_for.fragment_count,
                (claimed_empty f k t k).1,
              ));
        })

-- The results of the calls for the fragments of a frame: which of them comes, and when.
abbrev pub deliver : (ℕ → List ℕ) → Reassembler → List (ℕ × ℕ) → List AudioReassemblyResult
deliver datagram r [] = []
deliver datagram r ((k, t) ∷ ds) =
    (accept_datagram r (datagram k) t).0 ∷ deliver datagram (accept_datagram r (datagram k) t).1 ds

-- Each fragment of the frame at most once, in any order.
abbrev pub IsOrder : AudioFrameView → List (ℕ × ℕ) → Type 0
IsOrder f [] = Unit {0}
IsOrder f ((k, t) ∷ ds) = (k < fragment_count f) × All (λ (d : ℕ × ℕ). k ≢ d.0) ds × IsOrder f ds

-- Each less than 250 ms after the one before.
abbrev pub AreTimely : ℕ → List (ℕ × ℕ) → Type 0
AreTimely t [] = Unit {0}
AreTimely t ((k, t') ∷ ds) = IsTimely t t' × AreTimely t' ds

-- The last call completes the frame; the others report no error and no frame.
abbrev pub CompletesLast : AudioFrameView → List AudioReassemblyResult → Type 0
CompletesLast f [] = ⊥
CompletesLast f (result ∷ []) = Completes f result
CompletesLast f (result ∷ next ∷ results) =
    (result.error ≡ AudioFrameError.none)
    × (result.frame_completed ≡ false)
    × CompletesLast f (next ∷ results)

CompletesLast-step :
    (f : AudioFrameView) (result : AudioReassemblyResult) (after : Reassembler)
    (call : AudioReassemblyResult × Reassembler) (d : ℕ × ℕ) (ds : List (ℕ × ℕ))
    → call ≡ (result, after)
    → result.error ≡ AudioFrameError.none
    → result.frame_completed ≡ false
    → CompletesLast f (deliver (wire f) after (d ∷ ds))
    → CompletesLast f (call.0 ∷ deliver (wire f) call.1 (d ∷ ds))
CompletesLast-step f result after call d ds e ok partial h =
    subst (λ c. CompletesLast f (c.0 ∷ deliver (wire f) c.1 (d ∷ ds))) (sym e) (ok, partial, h)

-- None of the fragments to come is in the slot.
abbrev Missing : Slot → List (ℕ × ℕ) → Type 0
Missing slot ds = All (λ (d : ℕ × ℕ). get_or slot.received d.0 false ≡ false) ds

Missing-set :
    (old new : Slot) (k : ℕ) (ds : List (ℕ × ℕ))
    → new.received ≡ set old.received k true
    → All (λ (d : ℕ × ℕ). k ≢ d.0) ds
    → Missing old ds
    → Missing new ds
Missing-set old new k [] e ne m = tt
Missing-set old new k ((j, t) ∷ ds) e ne m = (
  rw e (get_or-set_ne old.received k j true false ne.0 ∙ m.0),
  Missing-set old new k ds e ne.1 m.1,
)

-- The rest of the fragments, from a slot that has `n` of them.
deliver-rest :
    (f : AudioFrameView) (r : Reassembler) (i n t : ℕ) (d : ℕ × ℕ) (ds : List (ℕ × ℕ))
    → HasWidths f
    → IsSendable f
    → Owns f r i n t
    → Missing (slot_at r i) (d ∷ ds)
    → IsOrder f (d ∷ ds)
    → AreTimely t (d ∷ ds)
    → n + length (d ∷ ds) ≡ fragment_count f
    → CompletesLast f (deliver (wire f) r (d ∷ ds))
deliver-rest f r i n t (k, t') [] w s o m order timely e =
    let (error, frame_completed, frame) =
      accept_last f r i n t w s o k t' order.0 m.0 timely.0 (omega arith) in
    record { error = error; frame_completed = frame_completed; frame = frame }
deliver-rest f r i n t (k, t') (d ∷ ds) w s o m order timely e =
    let (step, o', received) =
      accept_more f r i n t w s o k t' order.0 m.0 timely.0 (omega arith) in
    CompletesLast-step f (expiry r t') (next f r i n t w s o k t' order.0 m.0 timely.0)
      (accept_datagram r (wire f k) t') d ds step refl refl
      (deliver-rest f (next f r i n t w s o k t' order.0 m.0 timely.0) i (n + 1) t' d ds w s o'
        (Missing-set (slot_at r i) (slot_at (next f r i n t w s o k t' order.0 m.0 timely.0) i) k
          (d ∷ ds) received order.1 m.1)
        order.2 timely.1 (omega arith))

Missing-claimed :
    (f : AudioFrameView) (k t : ℕ) (ds : List (ℕ × ℕ))
    → Missing (claim_slot empty_slot (fragment_header f k) t) ds
Missing-claimed f k t [] = tt
Missing-claimed f k t ((j, _) ∷ ds) = ((claimed_empty f k t j).0, Missing-claimed f k t ds)

deliver-wire-CompletesLast :
    (f : AudioFrameView) (r : Reassembler) (j k t : ℕ) (ds : List (ℕ × ℕ))
    → HasWidths f
    → IsSendable f
    → CanBegin f r t j
    → IsOrder f ((k, t) ∷ ds)
    → AreTimely t ds
    → 1 + length ds ≡ fragment_count f
    → CompletesLast f (deliver (wire f) r ((k, t) ∷ ds))
deliver-wire-CompletesLast f r j k t [] w s b order timely e =
    accept_only f r t j k w s b order.0 (omega arith)
deliver-wire-CompletesLast f r j k t (d ∷ ds) w s b order timely e =
    let (step, o, received) = accept_first f r t j k w s b order.0 (omega arith) in
    CompletesLast-step f (expiry r t) (begun f r t j k w s b order.0)
      (accept_datagram r (wire f k) t) d ds step refl refl
      (deliver-rest f (begun f r t j k w s b order.0) j 1 t d ds w s o
        (Missing-set (claim_slot empty_slot (fragment_header f k) t)
          (slot_at (begun f r t j k w s b order.0) j) k (d ∷ ds) received order.1
          (Missing-claimed f k t (d ∷ ds)))
        order.2 timely (omega arith))

-- The datagram of an index, as `fragment_audio_frame` returns it.
abbrev pub sent : AudioFrameView → ℕ → List ℕ
sent f k = bytes (get_or (fragment_audio_frame f).datagrams k empty_datagram)

deliver_congr :
    (f : AudioFrameView) (r : Reassembler) (ds : List (ℕ × ℕ))
    → HasWidths f
    → validate_frame_view f ≡ AudioFrameError.none
    → IsOrder f ds
    → deliver (sent f) r ds ≡ deliver (wire f) r ds
deliver_congr f r [] w v order = refl
deliver_congr f r ((k, t) ∷ ds) w v order =
    let h = fragment_audio_frame-IsWired f w v in
    rw (h.datagrams k empty_datagram (omega (arith, h.datagram_count, order.0))) (
      ap (◌∷◌ (accept_datagram r (wire f k) t).0)
        (deliver_congr f (accept_datagram r (wire f k) t).1 ds w v order.2))

-- What `fragment_audio_frame` returns for a frame that passes validation, delivered in any order,
-- each datagram once and less than 250 ms after the one before, to a reassembler that can begin
-- the frame: no call reports an error, and the last one, and only that, completes the frame, with
-- the metadata and the payload that were sent.
pub deliver-CompletesLast :
    (f : AudioFrameView) (r : Reassembler) (j k t : ℕ) (ds : List (ℕ × ℕ))
    → HasWidths f
    → validate_frame_view f ≡ AudioFrameError.none
    → CanBegin f r t j
    → IsOrder f ((k, t) ∷ ds)
    → AreTimely t ds
    → 1 + length ds ≡ (fragment_audio_frame f).datagram_count
    → CompletesLast f (deliver (sent f) r ((k, t) ∷ ds))
deliver-CompletesLast f r j k t ds w v b order timely e =
    subst (CompletesLast f) (sym (deliver_congr f r ((k, t) ∷ ds) w v order)) (
      deliver-wire-CompletesLast f r j k t ds w (validated-IsSendable f w v) b order timely
        (e ∙ (fragment_audio_frame-IsWired f w v).datagram_count))
