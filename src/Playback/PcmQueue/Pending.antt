-- ===== src/Playback/PcmQueue/Pending.antt =====
-- pcm_queue.cpp: the samples that wait in the queue, as a list with the next one to play first.
use wiretone.Prelude.{
  ℕ, zero, suc, ◌+◌, ◌-◌, ◌*◌, ◌%◌, ◌^◌, ◌≤◌, ◌<◌, ◌≡◌, refl, sym, ◌∙◌, List, [], ◌∷◌, ◌++◌, arith,
  append_assoc, All, length, length-append, length-replicate, length-drop, get_or, drop, window,
  All-get_or, All-replicate,
}
use wiretone.Playback.PcmQueue.Types.{Slot, empty_slot, PcmPlaybackQueue, new}
use wiretone.Playback.PcmQueue.Enqueue.{queued_count}

-- The samples of slots in a row.
abbrev pub flat : List Slot → List ℕ
flat [] = []
flat (slot ∷ slots) = slot.samples ++ flat slots

-- The samples of a count of slots from a position on, less the frames already played of the first.
abbrev pub samples_from : List Slot → ℕ → ℕ → ℕ → List ℕ
samples_from slots read count offset =
    drop (offset * 2) (flat (window 32 empty_slot slots read count))

-- The samples that wait in the queue.
abbrev pub pending : PcmPlaybackQueue → List ℕ
pending q = samples_from q.slots q.read_position (queued_count q) q.read_offset_frames

-- A slot has the samples of one logical frame.
abbrev pub HasSamples : Slot → Type 0
HasSamples slot = length slot.samples ≡ 1920

-- The slots are 32 whole ones, no more than 32 of them are queued, and only a queued one is partly
-- played.
pub record IsValid (q : PcmPlaybackQueue) : Type 0 where
  pub slot_count : length q.slots ≡ 32
  pub whole : All HasSamples q.slots
  pub write_width : q.write_position < 2 ^ 64
  pub read_width : q.read_position < 2 ^ 64
  pub few : queued_count q ≤ 32
  pub offset : q.read_offset_frames < 960
  pub started : queued_count q ≡ 0 → q.read_offset_frames ≡ 0

pub empty_slot-HasSamples : HasSamples empty_slot
unfolding empty_slot
empty_slot-HasSamples = length-replicate {A = ℕ} 1920 0

pub new-IsValid : IsValid new
unfolding new
new-IsValid = record {
  slot_count = length-replicate 32 empty_slot;
  whole = All-replicate HasSamples 32 empty_slot empty_slot-HasSamples;
  write_width = omega arith;
  read_width = omega arith;
  few = omega arith;
  offset = omega arith;
  started = λ _. refl;
}

pub flat-append : (xs ys : List Slot) → flat (xs ++ ys) ≡ flat xs ++ flat ys
flat-append [] ys = refl
flat-append (slot ∷ xs) ys =
    rw (flat-append xs ys) (sym (append_assoc slot.samples (flat xs) (flat ys)))

pub length-flat-window :
    (slots : List Slot) (read count : ℕ)
    → All HasSamples slots
    → length (flat (window 32 empty_slot slots read count)) ≡ 1920 * count
length-flat-window slots read zero whole = refl
length-flat-window slots read (suc n) whole =
    let own : length (get_or slots (read % 32) empty_slot).samples ≡ 1920 =
      All-get_or HasSamples slots (read % 32) empty_slot whole empty_slot-HasSamples in
    omega (
      arith,
      own,
      length-append (get_or slots (read % 32) empty_slot).samples
          (flat (window 32 empty_slot slots (read + 1) n)),
      length-flat-window slots (read + 1) n whole,
    )

pub length-samples_from :
    (slots : List Slot) (read count offset : ℕ)
    → All HasSamples slots
    → length (samples_from slots read count offset) ≡ 1920 * count - offset * 2
length-samples_from slots read count offset whole =
    length-drop (offset * 2) (flat (window 32 empty_slot slots read count))
    ∙ rw (length-flat-window slots read count whole) refl
