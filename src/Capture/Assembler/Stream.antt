-- ===== src/Capture/Assembler/Stream.antt =====
-- pcm_frame_assembler.cpp: the stream that the sink is called with, over packets in a row.
use wiretone.Prelude.{
  ℕ, zero, suc, ◌+◌, ◌*◌, ◌≤◌, ◌≡◌, refl, sym, ap, ap₂, ◌∙◌, Bool, true, false, Bool-cases, inl,
  inr, List, [], ◌∷◌, ◌++◌, append-nil, append_assoc, All, ◌==◌, if◌then◌else◌, arith, has_flag,
  length, length-append, length-take, length-drop, take, take_all, drop,
}
use wiretone.Capture.Assembler.Types.{PcmFrameAssembler, PcmFrameAssemblerError, PcmFrameView}
use wiretone.Capture.Assembler.Accept.{Packet, add_u64, accept_packet}
use wiretone.Capture.Assembler.Samples.{
  Sample, flat, flat-append, flat-samples_from, samples_from, samples_of, frame_of, feed, prepend,
}
use wiretone.Capture.Assembler.Between.{Holds}
use wiretone.Capture.Assembler.Assembly.{accept_packet-Assembles}
use wiretone.Capture.Assembler.Begin.{Fits, kept, accepts}

-- The bytes of frames in a row.
abbrev pub frame_bytes : List PcmFrameView → List ℕ
frame_bytes [] = []
frame_bytes (f ∷ fs) = f.bytes ++ frame_bytes fs

-- The bytes of the frame that has been begun.
abbrev pub pending_bytes : PcmFrameAssembler → List ℕ
pending_bytes a = take (a.pending_frames * 4) a.storage

-- Frames of 3,840 bytes, numbered on from a sequence number.
abbrev pub AreConsecutive : ℕ → List PcmFrameView → Type 0
AreConsecutive next [] = Unit
AreConsecutive next (f ∷ fs) =
    (f.sequence_number ≡ next) × (length f.bytes ≡ 3840) × AreConsecutive (add_u64 next 1) fs

abbrev HasBytes : Sample → Type 0
HasBytes x = length x.bytes ≡ 4

feed-flat :
    (next : ℕ) (waiting xs : List Sample)
    → frame_bytes (feed next waiting xs).0 ++ flat (feed next waiting xs).2
      ≡ flat waiting ++ flat xs
unfolding feed
feed-flat next waiting [] = sym (append-nil (flat waiting))
feed-flat next waiting (x ∷ xs) =
    let one : flat (waiting ++ (x ∷ [])) ≡ flat waiting ++ x.bytes =
      flat-append waiting (x ∷ []) ∙ ap (◌++◌ (flat waiting)) (append-nil x.bytes) in
    elim (Bool-cases (length waiting == 959)) [
      | inl full ↦ rw full (
          append_assoc (flat (waiting ++ (x ∷ []))) (frame_bytes (feed (add_u64 next 1) [] xs).0)
            (flat (feed (add_u64 next 1) [] xs).2)
          ∙ ap₂ ◌++◌ one (feed-flat (add_u64 next 1) [] xs)
          ∙ append_assoc (flat waiting) x.bytes (flat xs))
      | inr partial ↦ rw partial (
          feed-flat next (waiting ++ (x ∷ [])) xs
          ∙ ap (λ (t : List ℕ). t ++ flat xs) one
          ∙ append_assoc (flat waiting) x.bytes (flat xs))
    ]

length-flat : (xs : List Sample) → All HasBytes xs → length (flat xs) ≡ length xs * 4
length-flat [] h = refl
length-flat (x ∷ xs) h =
    let here = h.0 in omega (arith, length-append x.bytes (flat xs), length-flat xs h.1)

pub samples_from-HasBytes :
    (p : Packet) (d : Bool) (pcm : List ℕ) (i n : ℕ)
    → n * 4 ≤ length pcm
    → All HasBytes (samples_from p d pcm i n)
samples_from-HasBytes p d pcm i zero h = tt
samples_from-HasBytes p d pcm i (suc n) h = (
  omega (arith, length-take 4 pcm),
  samples_from-HasBytes p false (drop 4 pcm) (i + 1) n (omega (arith, length-drop 4 pcm)),
)

pub feed-AreConsecutive :
    (next : ℕ) (waiting xs : List Sample)
    → length (flat waiting) ≡ length waiting * 4
    → All HasBytes xs
    → AreConsecutive next (feed next waiting xs).0
unfolding feed
feed-AreConsecutive next waiting [] own h = tt
feed-AreConsecutive next waiting (x ∷ xs) own h =
    let here = h.0 in
    let one : length (flat (waiting ++ (x ∷ []))) ≡ length (waiting ++ (x ∷ [])) * 4 = omega (
      arith,
      ap (length {A = ℕ}) (flat-append waiting (x ∷ [])),
      length-append (flat waiting) (flat (x ∷ [])),
      length-append x.bytes [],
      length-append waiting (x ∷ []),
    ) in
    elim (Bool-cases (length waiting == 959)) [
      | inl full ↦ rw full (
        refl,
        ground (arith, one, length-append waiting (x ∷ [])),
        feed-AreConsecutive (add_u64 next 1) [] xs refl h.1,
      )
      | inr partial ↦ rw partial (feed-AreConsecutive next (waiting ++ (x ∷ [])) xs one h.1)
    ]

pub feed-append :
    (next : ℕ) (waiting xs ys : List Sample)
    → feed next waiting (xs ++ ys)
      ≡ prepend (feed next waiting xs).0 (feed (feed next waiting xs).1 (feed next waiting xs).2 ys)
unfolding feed
feed-append next waiting [] ys = refl
feed-append next waiting (x ∷ xs) ys = elim (Bool-cases (length waiting == 959)) [
  | inl full ↦ rw full (
      ap (prepend (frame_of next (waiting ++ (x ∷ [])) ∷ []))
        (feed-append (add_u64 next 1) [] xs ys))
  | inr partial ↦ rw partial (feed-append next (waiting ++ (x ∷ [])) xs ys)
]

-- What an assembler holds, its storage shows.
Holds-pending_bytes :
    (a : PcmFrameAssembler) (waiting : List Sample)
    → Holds a waiting
    → pending_bytes a ≡ flat waiting
Holds-pending_bytes a waiting h =
    ap (λ (k : ℕ). take (k * 4) a.storage) h.stores.count ∙ h.stores.bytes

pub accept_packet-pending_bytes :
    (a : PcmFrameAssembler) (p : Packet) (waiting : List Sample)
    → Holds a waiting
    → Fits p
    → (accept_packet a p).0.error ≡ PcmFrameAssemblerError.none
    → frame_bytes (accept_packet a p).1 ++ pending_bytes (accept_packet a p).2
      ≡ (if has_flag p.flags 2 then [] else pending_bytes a) ++ p.normalized_pcm
accept_packet-pending_bytes a p waiting h fits e =
    let r = accept_packet-Assembles a p waiting h fits e in
    let size = (accepts a p fits.flags e).size in
    let fed = feed a.next_sequence_number (kept p waiting) (samples_of p) in
    ap₂ (λ (fs : List PcmFrameView) (t : List ℕ). frame_bytes fs ++ t) r.delivered
      (Holds-pending_bytes (accept_packet a p).2 fed.2 r.holds)
    ∙ feed-flat a.next_sequence_number (kept p waiting) (samples_of p)
    ∙ ap₂ ◌++◌ (kept_flat (has_flag p.flags 2)) (
        flat-samples_from p (has_flag p.flags 2) p.normalized_pcm 0 p.frame_count
        ∙ take_all (p.frame_count * 4) p.normalized_pcm (omega arith))
  where
    kept_flat : (b : Bool) → flat (if b then [] else waiting) ≡ (if b then [] else pending_bytes a)
    kept_flat true = refl
    kept_flat false = sym (Holds-pending_bytes a waiting h)
