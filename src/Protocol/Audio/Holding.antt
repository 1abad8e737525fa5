-- ===== src/Protocol/Audio/Holding.antt =====
-- audio_frame.cpp: a slot that holds some of one frame's fragments.
use wiretone.Prelude.{
  ℕ, zero, suc, ◌+◌, ◌*◌, ◌≤◌, ◌<◌, ◌≡◌, refl, Bool, true, false, List, [], ◌∷◌, arith, length,
  get_or, set, replicate, length-replicate,
}
use wiretone.Protocol.Packet.{ProtocolError, ParseResult}
use wiretone.Protocol.Audio.Types.{AudioFrameView, empty_storage}
use wiretone.Protocol.Audio.Fragment.{
  fragment_count, fragment_payload_size, fragment_header, fragment_payload,
}
use wiretone.Protocol.Audio.Fragmented.{HasWidths, IsSendable, sendable-Shape}
use wiretone.Protocol.Audio.Slot.{Slot, empty_slot, claim_slot, first_sequence_number_of}

abbrev pub trues : List Bool → ℕ
trues [] = 0
trues (true ∷ bs) = suc (trues bs)
trues (false ∷ bs) = trues bs

pub trues-set :
    (bs : List Bool) (k : ℕ)
    → k < length bs
    → get_or bs k false ≡ false
    → trues (set bs k true) ≡ trues bs + 1
trues-set [] k h e = absurd (omega arith)
trues-set (true ∷ bs) zero h e = cc
trues-set (false ∷ bs) zero h e = omega arith
trues-set (true ∷ bs) (suc k) h e = omega (arith, trues-set bs k (omega arith) e)
trues-set (false ∷ bs) (suc k) h e = omega (arith, trues-set bs k (omega arith) e)

-- No flag is set from `n` on.
abbrev pub OnlyBelow : ℕ → List Bool → Type 0
OnlyBelow n bs = (k : ℕ) → get_or bs k false ≡ true → k < n

pub trues-le : (n : ℕ) (bs : List Bool) → OnlyBelow n bs → trues bs ≤ n
trues-le n [] h = omega arith
trues-le zero (true ∷ bs) h = absurd (omega (arith, h 0 refl))
trues-le zero (false ∷ bs) h = trues-le zero bs (λ k e. omega (arith, h (suc k) e))
trues-le (suc n) (true ∷ bs) h = omega (arith, trues-le n bs (λ k e. omega (arith, h (suc k) e)))
trues-le (suc n) (false ∷ bs) h = omega (arith, trues-le n bs (λ k e. omega (arith, h (suc k) e)))

-- `n` flags that all stand below `n` fill every place there.
pub all_true :
    (n : ℕ) (bs : List Bool)
    → OnlyBelow n bs
    → trues bs ≡ n
    → (k : ℕ) → k < n
    → get_or bs k false ≡ true
all_true zero bs h e k lt = absurd (omega arith)
all_true (suc n) [] h e k lt = absurd (omega arith)
all_true (suc n) (false ∷ bs) h e k lt =
    absurd (omega (arith, trues-le n bs (λ j p. omega (arith, h (suc j) p))))
all_true (suc n) (true ∷ bs) h e zero lt = refl
all_true (suc n) (true ∷ bs) h e (suc k) lt =
    all_true n bs (λ j p. omega (arith, h (suc j) p)) (omega arith) k (omega arith)

-- The slot belongs to the frame: all its metadata are the frame's.
pub record IsFor (f : AudioFrameView) (slot : Slot) : Type 0 where
  pub active : slot.active ≡ true
  pub stream_id : slot.stream_id ≡ f.stream_id
  pub frame_id : slot.frame_id ≡ f.frame_id
  pub first_sequence_number : slot.first_sequence_number ≡ f.first_sequence_number
  pub timestamp_samples : slot.timestamp_samples ≡ f.timestamp_samples
  pub flags : slot.flags ≡ f.flags
  pub fragment_count : slot.fragment_count ≡ fragment_count f

-- The fragments that the slot has received are the frame's, each in its place.
pub record Holds (f : AudioFrameView) (slot : Slot) : Type 0 where
  pub is_for : IsFor f slot
  pub received_length : length slot.received ≡ 4
  pub sizes_length : length slot.fragment_sizes ≡ 4
  pub storage_length : length slot.storage ≡ 3840
  pub counted : slot.received_count ≡ trues slot.received
  pub own : (k : ℕ) → get_or slot.received k false ≡ true → k < fragment_count f
  pub sizes :
      (k : ℕ)
      → get_or slot.received k false ≡ true
      → get_or slot.fragment_sizes k 0 ≡ fragment_payload_size f k
  pub bytes :
      (k j : ℕ)
      → get_or slot.received k false ≡ true
      → j < fragment_payload_size f k
      → get_or slot.storage (k * 1168 + j) 0 ≡ get_or f.payload (k * 1168 + j) 0

-- What `parse_datagram` finds in the datagram of a fragment.
abbrev pub parsed_fragment : AudioFrameView → ℕ → ParseResult
parsed_fragment f k = record {
  error = ProtocolError.none;
  header = fragment_header f k;
  payload = fragment_payload f k;
}

-- The sequence number of the first fragment, inferred from any.
pub first_sequence_number-fragment :
    (f : AudioFrameView) (k : ℕ)
    → HasWidths f
    → k < 4
    → first_sequence_number_of (fragment_header f k) ≡ f.first_sequence_number
unfolding first_sequence_number_of fragment_header
first_sequence_number-fragment f k w h = omega arith

get_or-replicate-false : (n k : ℕ) → get_or (replicate n false) k false ≡ false
get_or-replicate-false zero k = refl
get_or-replicate-false (suc n) zero = refl
get_or-replicate-false (suc n) (suc k) = get_or-replicate-false n k

not_yet : (k : ℕ) → get_or (replicate 4 false) k false ≡ true → ⊥
not_yet k e = cc (get_or-replicate-false 4 k)

-- A free slot that a fragment claims belongs to the frame and holds nothing yet.
pub claim_slot-Holds :
    (f : AudioFrameView) (k t : ℕ)
    → HasWidths f
    → IsSendable f
    → k < fragment_count f
    → Holds f (claim_slot empty_slot (fragment_header f k) t)
unfolding claim_slot empty_slot empty_storage
claim_slot-Holds f k t w s h = record {
  is_for = record {
    active = refl;
    stream_id = unfold fragment_header in refl;
    frame_id = unfold fragment_header in refl;
    first_sequence_number =
        first_sequence_number-fragment f k w (omega (arith, sendable-Shape f k s));
    timestamp_samples = unfold fragment_header in refl;
    flags = unfold fragment_header in refl;
    fragment_count = unfold fragment_header in omega (arith, sendable-Shape f k s);
  };
  received_length = refl;
  sizes_length = refl;
  storage_length = length-replicate {A = ℕ} 3840 0;
  counted = refl;
  own = λ j e. absurd (not_yet j e);
  sizes = λ j e. absurd (not_yet j e);
  bytes = λ j i e. absurd (not_yet j e);
}

-- A slot that has just been claimed has received nothing.
pub claimed_empty :
    (f : AudioFrameView) (k t j : ℕ)
    → (get_or (claim_slot empty_slot (fragment_header f k) t).received j false ≡ false)
      × ((claim_slot empty_slot (fragment_header f k) t).received_count ≡ 0)
unfolding claim_slot empty_slot
claimed_empty f k t j = (get_or-replicate-false 4 j, refl)
