-- ===== src/Protocol/Audio/Inserting.antt =====
-- audio_frame.cpp: one more fragment of a frame in its slot, and the frame when it is complete.
use wiretone.Prelude.{
  ℕ, ◌+◌, ◌-◌, ◌*◌, ◌/◌, ◌%◌, ◌^◌, ◌≤◌, ◌<◌, ◌≡◌, ◌≢◌, refl, ◌∙◌, sym, ap, subst, Bool, true, false,
  List, arith, length, get_or, set, take, drop, copy_into, length-set, length-copy_into,
  length-replicate, get_or-set_self, get_or-set_ne, get_or-copy_into_in, get_or-copy_into_below,
  get_or-copy_into_above, length-take, copy_into_zero, take-append, ext_get_or, get_or-take,
  get_or-drop,
}
use native.Mathlib.Decide.{ℕ_discrete, dec_lt}
use wiretone.Protocol.Audio.Types.{
  AudioFrameView, empty_storage, frame_payload, ReassembledAudioFrame,
}
use wiretone.Protocol.Audio.Fragment.{
  fragment_count, fragment_payload_size, fragment_header, fragment_payload,
}
use wiretone.Protocol.Audio.Fragmented.{IsSendable, Shape, sendable-Shape, length-fragment_payload}
use wiretone.Protocol.Audio.Slot.{Slot, insert_fragment, completed_size, completed_frame}
use wiretone.Protocol.Audio.Holding.{trues-set, trues-le, all_true, Holds, parsed_fragment}

-- The bytes of a fragment are the frame's from the fragment's offset on.
get_or-fragment_payload :
    (f : AudioFrameView) (k j : ℕ)
    → j < fragment_payload_size f k
    → get_or (fragment_payload f k) j 0 ≡ get_or f.payload (k * 1168 + j) 0
unfolding fragment_payload
get_or-fragment_payload f k j h =
    get_or-take (fragment_payload_size f k) j (drop (k * 1168) f.payload) 0 h
    ∙ get_or-drop (k * 1168) j f.payload 0

set-true :
    (bs : List Bool) (k j : ℕ)
    → k ≢ j
    → get_or (set bs k true) j false ≡ true
    → get_or bs j false ≡ true
set-true bs k j ne e = sym (get_or-set_ne bs k j true false ne) ∙ e

module _ (f : AudioFrameView) (slot : Slot) (k t : ℕ) (s : IsSendable f) (h : Holds f slot)
    (lt : k < fragment_count f) where
  shape : Shape f k
  shape = sendable-Shape f k s

  in_storage : k * 1168 + fragment_payload_size f k ≤ 3840
  in_storage = ground (arith, shape, s)

  insert-own : (j : ℕ) → get_or (set slot.received k true) j false ≡ true → j < fragment_count f
  insert-own j e = elim (ℕ_discrete k j) [
    | yes p ↦ omega arith
    | no ne ↦ h.own j (set-true slot.received k j ne e)
  ]

  insert-sizes :
      (j : ℕ)
      → get_or (set slot.received k true) j false ≡ true
      → get_or (set slot.fragment_sizes k (length (fragment_payload f k) % 2 ^ 16)) j 0
        ≡ fragment_payload_size f j
  insert-sizes j e = elim (ℕ_discrete k j) [
    | yes p ↦
        let room : k < length slot.fragment_sizes = omega (arith, h.sizes_length, shape) in
        rw
          (
            ← p,
            get_or-set_self slot.fragment_sizes k (length (fragment_payload f k) % 2 ^ 16) 0 room,
          )
          (omega (arith, length-fragment_payload f k, shape))
    | no ne ↦
        get_or-set_ne slot.fragment_sizes k j _ 0 ne ∙ h.sizes j (set-true slot.received k j ne e)
  ]

  -- The offsets of two fragments do not meet: a full fragment has 1168 bytes at most.
  insert-bytes :
      (j i : ℕ)
      → get_or (set slot.received k true) j false ≡ true
      → i < fragment_payload_size f j
      → get_or (copy_into slot.storage (k * 1168) (fragment_payload f k)) (j * 1168 + i) 0
        ≡ get_or f.payload (j * 1168 + i) 0
  insert-bytes j i e small = elim (ℕ_discrete k j) [
    | yes p ↦
        let small' : i < fragment_payload_size f k =
          subst (λ x. i < fragment_payload_size f x) (sym p) small in
        rw (← p) (
          get_or-copy_into_in slot.storage (k * 1168) (fragment_payload f k) i 0
            (omega (arith, length-fragment_payload f k))
            (omega (arith, in_storage, h.storage_length))
          ∙ get_or-fragment_payload f k i small')
    | no ne ↦ elim (dec_lt j k) [
      | yes below ↦
          get_or-copy_into_below slot.storage (k * 1168) (fragment_payload f k) (j * 1168 + i) 0
            (omega (arith, sendable-Shape f j s))
          ∙ h.bytes j i (set-true slot.received k j ne e) small
      | no above ↦
          get_or-copy_into_above slot.storage (k * 1168) (fragment_payload f k) (j * 1168 + i) 0
            (omega (arith, length-fragment_payload f k, shape))
          ∙ h.bytes j i (set-true slot.received k j ne e) small
    ]
  ]

  -- The slot with the fragment in its place.
  abbrev placed : Slot
  placed = record slot {
    storage = copy_into slot.storage (k * 1168) (fragment_payload f k);
    received = set slot.received k true;
    fragment_sizes = set slot.fragment_sizes k (length (fragment_payload f k) % 2 ^ 16);
    received_count = (slot.received_count + 1) % 2 ^ 64;
    last_arrival_time_ms = t;
  }

  insert_fragment-eq-placed : insert_fragment slot (parsed_fragment f k) t ≡ placed
  unfolding insert_fragment fragment_header
  insert_fragment-eq-placed = let e : k % 2 ^ 8 ≡ k = omega (arith, shape) in rw e refl

  placed-Holds : get_or slot.received k false ≡ false → Holds f placed
  placed-Holds fresh = record {
    is_for = record {
      active = h.is_for.active;
      stream_id = h.is_for.stream_id;
      frame_id = h.is_for.frame_id;
      first_sequence_number = h.is_for.first_sequence_number;
      timestamp_samples = h.is_for.timestamp_samples;
      flags = h.is_for.flags;
      fragment_count = h.is_for.fragment_count;
    };
    received_length = length-set slot.received k true ∙ h.received_length;
    sizes_length = length-set slot.fragment_sizes k _ ∙ h.sizes_length;
    storage_length =
        length-copy_into slot.storage (k * 1168) (fragment_payload f k) ∙ h.storage_length;
    counted = omega (
      arith,
      trues-set slot.received k (omega (arith, h.received_length, shape)) fresh,
      trues-le (fragment_count f) slot.received h.own,
      h.counted,
      shape,
    );
    own = insert-own;
    sizes = insert-sizes;
    bytes = insert-bytes;
  }

  -- A fragment that the slot does not have yet goes into its place, and nothing else changes.
  pub insert_fragment-Holds :
      get_or slot.received k false ≡ false → Holds f (insert_fragment slot (parsed_fragment f k) t)
  insert_fragment-Holds fresh = rw insert_fragment-eq-placed (placed-Holds fresh)

  pub received-insert :
      (insert_fragment slot (parsed_fragment f k) t).received ≡ set slot.received k true
  received-insert = rw insert_fragment-eq-placed refl

  pub last_arrival-insert : (insert_fragment slot (parsed_fragment f k) t).last_arrival_time_ms ≡ t
  unfolding insert_fragment
  last_arrival-insert = refl

  pub received_count-insert :
      (insert_fragment slot (parsed_fragment f k) t).received_count ≡ slot.received_count + 1
  unfolding insert_fragment
  received_count-insert =
      omega (arith, trues-le (fragment_count f) slot.received h.own, h.counted, shape)

-- A reassembled frame is the frame that was sent: its metadata and its payload.
pub record IsFrameOf (f : AudioFrameView) (frame : ReassembledAudioFrame) : Type 0 where
  pub stream_id : frame.stream_id ≡ f.stream_id
  pub first_sequence_number : frame.first_sequence_number ≡ f.first_sequence_number
  pub timestamp_samples : frame.timestamp_samples ≡ f.timestamp_samples
  pub frame_id : frame.frame_id ≡ f.frame_id
  pub flags : frame.flags ≡ f.flags
  pub payload : frame_payload frame ≡ f.payload

-- The frame of a full slot.
module _ (f : AudioFrameView) (slot : Slot) (s : IsSendable f) (h : Holds f slot)
    (full : slot.received_count ≡ slot.fragment_count) where
  Shape-at : (k : ℕ) → Shape f k
  Shape-at k = sendable-Shape f k s

  everything : (k : ℕ) → k < fragment_count f → get_or slot.received k false ≡ true
  everything =
      all_true (fragment_count f) slot.received h.own
        (omega (arith, full, h.counted, h.is_for.fragment_count))

  completed_size-eq-length : completed_size slot ≡ length f.payload
  unfolding completed_size
  completed_size-eq-length =
      let last = fragment_count f - 1 in
      let shape : Shape f last = Shape-at last in
      rw (h.is_for.fragment_count, h.sizes last (everything last (omega (arith, shape.count_pos))))
        (ground (arith, shape, s))

  -- Byte `k` of the payload lies in fragment `k / 1168`, which has been received.
  stored_byte : (k : ℕ) → k < length f.payload → get_or slot.storage k 0 ≡ get_or f.payload k 0
  stored_byte k lt =
      let q = k / 1168 in
      let last : Shape f (fragment_count f - 1) = Shape-at (fragment_count f - 1) in
      let own : Shape f q = Shape-at q in
      let covered : q < fragment_count f = ground (arith, last, s) in
      let inside : k % 1168 < fragment_payload_size f q = place q refl covered in
      let e : q * 1168 + k % 1168 ≡ k = omega arith in
      subst (λ x. get_or slot.storage x 0 ≡ get_or f.payload x 0) e
        (h.bytes q (k % 1168) (everything q covered) inside)
    where
      place : (q : ℕ) → q ≡ k / 1168 → q < fragment_count f → k % 1168 < fragment_payload_size f q
      place q e c = ground (arith, Shape-at q, s)

  stored_payload : take (length f.payload) slot.storage ≡ f.payload
  stored_payload =
      ext_get_or 0 (take (length f.payload) slot.storage) f.payload
        (omega (arith, length-take (length f.payload) slot.storage, h.storage_length, s))
        (λ k lt.
          let lt' : k < length f.payload =
            omega (arith, length-take (length f.payload) slot.storage) in
          get_or-take (length f.payload) k slot.storage 0 lt' ∙ stored_byte k lt')

  length-empty_storage : length empty_storage ≡ 3840
  unfolding empty_storage
  length-empty_storage = length-replicate {A = ℕ} 3840 0

  -- It carries the payload of the frame that was sent.
  pub completed_frame-payload : frame_payload (completed_frame slot) ≡ f.payload
  unfolding completed_frame frame_payload
  completed_frame-payload =
      rw (completed_size-eq-length, stored_payload)
        (ap (take (length f.payload))
            (copy_into_zero empty_storage f.payload (omega (arith, length-empty_storage, s)))
          ∙ take-append f.payload (drop (length f.payload) empty_storage) (length f.payload) refl)

  -- It is the frame that was sent.
  pub completed_frame-IsFrameOf : IsFrameOf f (completed_frame slot)
  completed_frame-IsFrameOf = record {
    stream_id = unfold completed_frame in h.is_for.stream_id;
    first_sequence_number = unfold completed_frame in h.is_for.first_sequence_number;
    timestamp_samples = unfold completed_frame in h.is_for.timestamp_samples;
    frame_id = unfold completed_frame in h.is_for.frame_id;
    flags = unfold completed_frame in h.is_for.flags;
    payload = completed_frame-payload;
  }
