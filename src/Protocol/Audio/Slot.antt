-- ===== src/Protocol/Audio/Slot.antt =====
-- audio_frame.cpp: the slots of `AudioFrameReassembler`, in which frames are put together.
use mathlib.Core.Option.{Option, none, some}
use wiretone.Prelude.{
  ℕ, ◌+◌, ◌-◌, ◌*◌, ◌%◌, ◌^◌, Bool, true, false, ◌&&◌, ◌||◌, not, List, [], ◌∷◌, leb, ◌==◌, ◌!=◌,
  if◌then◌else◌, length, take, get_or, set, replicate, copy_into,
}
use wiretone.Protocol.Packet.{PacketHeader, ParseResult, maximum_payload_size}
use wiretone.Protocol.Audio.Types.{
  maximum_audio_fragment_count, audio_frame_reassembly_timeout_ms, AudioFrameError,
  ReassembledAudioFrame, AudioReassemblyResult, empty_storage,
}

pub record Slot : Type 0 where
  pub active : Bool
  pub stream_id : ℕ  -- uint32
  pub frame_id : ℕ  -- uint32
  pub first_sequence_number : ℕ  -- uint32
  pub timestamp_samples : ℕ  -- uint64
  pub flags : ℕ  -- uint16
  pub fragment_count : ℕ  -- uint8
  pub received : List Bool
  pub fragment_sizes : List ℕ  -- uint16 each
  pub storage : List ℕ
  pub received_count : ℕ  -- size_t
  pub last_arrival_time_ms : ℕ  -- uint64

-- `Slot{}`
unfoldable pub empty_slot : Slot
empty_slot = record {
  active = false;
  stream_id = 0;
  frame_id = 0;
  first_sequence_number = 0;
  timestamp_samples = 0;
  flags = 0;
  fragment_count = 0;
  received = replicate maximum_audio_fragment_count false;
  fragment_sizes = replicate maximum_audio_fragment_count 0;
  storage = empty_storage;
  received_count = 0;
  last_arrival_time_ms = 0;
}

-- `a - b` on `std::uint64_t`.
abbrev pub sub_u64 : ℕ → ℕ → ℕ
sub_u64 a b = (a + 2 ^ 64 - b) % 2 ^ 64

unfoldable pub is_expired : ℕ → Slot → Bool
is_expired now_ms slot =
    slot.active && leb audio_frame_reassembly_timeout_ms (sub_u64 now_ms slot.last_arrival_time_ms)

-- The loop over the slots: what it leaves, and how many it resets.
unfoldable pub expire_slots : ℕ → List Slot → List Slot
expire_slots now_ms [] = []
expire_slots now_ms (slot ∷ slots) =
    (if is_expired now_ms slot then empty_slot else slot) ∷ expire_slots now_ms slots

unfoldable pub expired_count : ℕ → List Slot → ℕ
expired_count now_ms [] = 0
expired_count now_ms (slot ∷ slots) =
    (if is_expired now_ms slot then 1 else 0) + expired_count now_ms slots

unfoldable pub in_flight : List Slot → ℕ
in_flight [] = 0
in_flight (slot ∷ slots) = (if slot.active then 1 else 0) + in_flight slots

unfoldable pub is_slot_of : PacketHeader → Slot → Bool
is_slot_of header slot =
    slot.active && slot.stream_id == header.stream_id && slot.frame_id == header.frame_id

-- What the search over the slots finds: the frame's own slot, and the first free one before it.
pub record Found : Type 0 where
  pub slot : Option ℕ
  pub free_slot : Option ℕ

abbrev pub or_else : Option ℕ → ℕ → Option ℕ
or_else none i = some i
or_else (some j) i = some j

unfoldable pub find_slot : PacketHeader → List Slot → ℕ → Option ℕ → Found
unfolding is_slot_of
find_slot header [] index free_slot = record { slot = none; free_slot = free_slot }
find_slot header (candidate ∷ slots) index free_slot =
    let rest =
      find_slot header slots (index + 1)
        (if not candidate.active then or_else free_slot index else free_slot) in
    if is_slot_of header candidate
    then record { slot = some index; free_slot = free_slot }
    else rest

unfoldable pub first_sequence_number_of : PacketHeader → ℕ
first_sequence_number_of header = (header.sequence_number + 2 ^ 32 - header.fragment_index) % 2 ^ 32

unfoldable pub claim_slot : Slot → PacketHeader → ℕ → Slot
claim_slot slot header arrival_time_ms = record slot {
  active = true;
  stream_id = header.stream_id;
  frame_id = header.frame_id;
  first_sequence_number = first_sequence_number_of header;
  timestamp_samples = header.timestamp_samples;
  flags = header.flags;
  fragment_count = header.fragment_count;
  last_arrival_time_ms = arrival_time_ms;
}

unfoldable pub is_inconsistent : Slot → PacketHeader → Bool
is_inconsistent slot header =
    slot.first_sequence_number != first_sequence_number_of header
    || slot.timestamp_samples != header.timestamp_samples
    || slot.flags != header.flags
    || slot.fragment_count != header.fragment_count

-- The slot after the copy of a fragment into it.
unfoldable pub insert_fragment : Slot → ParseResult → ℕ → Slot
insert_fragment slot parsed arrival_time_ms = record slot {
  storage = copy_into slot.storage (index * maximum_payload_size) parsed.payload;
  received = set slot.received index true;
  fragment_sizes = set slot.fragment_sizes index (length parsed.payload % 2 ^ 16);
  received_count = (slot.received_count + 1) % 2 ^ 64;
  last_arrival_time_ms = arrival_time_ms;
}
  where
    index : ℕ
    index = parsed.header.fragment_index

unfoldable pub completed_size : Slot → ℕ
completed_size slot =
    (slot.fragment_count - 1) * maximum_payload_size
    + get_or slot.fragment_sizes (slot.fragment_count - 1) 0

unfoldable pub completed_frame : Slot → ReassembledAudioFrame
completed_frame slot = record {
  stream_id = slot.stream_id;
  first_sequence_number = slot.first_sequence_number;
  timestamp_samples = slot.timestamp_samples;
  frame_id = slot.frame_id;
  flags = slot.flags;
  storage = copy_into empty_storage 0 (take (completed_size slot) slot.storage);
  payload_size = completed_size slot;
}

-- From the duplicate check to the end, on the slot that was found or claimed.
unfoldable pub store_fragment :
    Slot → ParseResult → ℕ → AudioReassemblyResult → AudioReassemblyResult × Slot
store_fragment slot parsed arrival_time_ms result =
    if get_or slot.received parsed.header.fragment_index false
    then (record result { error = AudioFrameError.duplicate_fragment }, slot)
    else if stored.received_count != stored.fragment_count
    then (result, stored)
    else (record result { frame_completed = true; frame = completed_frame stored }, empty_slot)
  where
    stored : Slot
    stored = insert_fragment slot parsed arrival_time_ms
