-- ===== src/Capture/Assembler/Samples.antt =====
-- pcm_frame_assembler.hpp: the frames that a row of captured samples makes, one sample at a time.
use wiretone.Prelude.{
  ℕ, zero, suc, ◌+◌, ◌*◌, ◌/◌, ◌%◌, ◌^◌, ◌≤◌, ◌<◌, ◌≡◌, refl, sym, ap, ap₂, ◌∙◌, Bool, true, false,
  ◌&&◌, ◌||◌, List, [], ◌∷◌, ◌++◌, append-nil, append_assoc, ◌==◌, if◌then◌else◌, arith, has_flag,
  length, length-append, take, drop, take-add, drop-drop,
}
use wiretone.Capture.Assembler.Types.{PcmFrameView}
use wiretone.Capture.Assembler.Accept.{Packet, add_u64}

-- The two channels of one instant, with what the packet that brings them says of it.
pub record Sample : Type 0 where
  pub bytes : List ℕ
  pub discontinuous : Bool
  pub timestamp_error : Bool
  pub silent : Bool
  pub device_position : ℕ
  pub qpc_position : ℕ

abbrev pub flat : List Sample → List ℕ
flat [] = []
flat (x ∷ xs) = x.bytes ++ flat xs

abbrev pub any_timestamp_error : List Sample → Bool
any_timestamp_error [] = false
any_timestamp_error (x ∷ xs) = x.timestamp_error || any_timestamp_error xs

abbrev pub all_silent : List Sample → Bool
all_silent [] = true
all_silent (x ∷ xs) = x.silent && all_silent xs

abbrev pub starts_discontinuous : List Sample → Bool
starts_discontinuous [] = false
starts_discontinuous (x ∷ _) = x.discontinuous

abbrev pub first_device_position : List Sample → ℕ
first_device_position [] = 0
first_device_position (x ∷ _) = x.device_position

abbrev pub first_qpc_position : List Sample → ℕ
first_qpc_position [] = 0
first_qpc_position (x ∷ _) = x.qpc_position

abbrev pub frame_flags : Bool → Bool → Bool → ℕ
frame_flags discontinuous timestamp_error silent =
    (if discontinuous then 2 else 0)
    + (if timestamp_error then 4 else 0)
    + (if silent then 1 else 0)

-- The frame of some samples.
abbrev pub frame_of : ℕ → List Sample → PcmFrameView
frame_of sequence_number xs = record {
  bytes = flat xs;
  sequence_number = sequence_number;
  flags = frame_flags (starts_discontinuous xs) (any_timestamp_error xs) (all_silent xs);
  device_position_frames = first_device_position xs;
  qpc_position_100ns = first_qpc_position xs;
}

-- A sample of a packet, with its bytes at the head of a list.
abbrev pub sample_at : Packet → Bool → List ℕ → ℕ → Sample
sample_at p discontinuous pcm index = record {
  bytes = take 4 pcm;
  discontinuous = discontinuous;
  timestamp_error = has_flag p.flags 4;
  silent = has_flag p.flags 1;
  device_position = (p.device_position_frames + index) % 2 ^ 64;
  qpc_position = (p.qpc_position_100ns + index * 10_000_000 / 48_000) % 2 ^ 64;
}

-- The samples of a packet from one on, in order; only the first can be discontinuous.
abbrev pub samples_from : Packet → Bool → List ℕ → ℕ → ℕ → List Sample
samples_from p discontinuous pcm index zero = []
samples_from p discontinuous pcm index (suc n) =
    sample_at p discontinuous pcm index ∷ samples_from p false (drop 4 pcm) (index + 1) n

abbrev pub samples_of : Packet → List Sample
samples_of p = samples_from p (has_flag p.flags 2) p.normalized_pcm 0 p.frame_count

-- Samples go behind those that wait; the 960th makes a frame. The frames, the next sequence number
-- and the samples that wait.
unfoldable pub feed : ℕ → List Sample → List Sample → List PcmFrameView × ℕ × List Sample
feed next waiting [] = ([], next, waiting)
feed next waiting (x ∷ xs) =
    let full = length waiting == 959 in
    let rest =
      feed (if full then add_u64 next 1 else next) (if full then [] else waiting ++ (x ∷ [])) xs in
    if full then (frame_of next (waiting ++ (x ∷ [])) ∷ rest.0, rest.1, rest.2) else rest

-- Frames that go before others.
abbrev pub prepend :
    List PcmFrameView → List PcmFrameView × ℕ × List Sample → List PcmFrameView × ℕ × List Sample
prepend frames fed = (frames ++ fed.0, fed.1, fed.2)

pub length-samples_from :
    (p : Packet) (d : Bool) (pcm : List ℕ) (i n : ℕ) → length (samples_from p d pcm i n) ≡ n
length-samples_from p d pcm i zero = refl
length-samples_from p d pcm i (suc n) = ap suc (length-samples_from p false (drop 4 pcm) (i + 1) n)

pub samples_from-add :
    (p : Packet) (d : Bool) (pcm : List ℕ) (i n m : ℕ)
    → 1 ≤ n
    → samples_from p d pcm i (n + m)
      ≡ samples_from p d pcm i n ++ samples_from p false (drop (n * 4) pcm) (i + n) m
samples_from-add p d pcm i zero m h = absurd (omega arith)
samples_from-add p d pcm i (suc zero) m h = let e : suc zero + m ≡ suc m = omega arith in rw e
samples_from-add p d pcm i (suc (suc n)) m h =
    let e : suc (suc n) + m ≡ suc (suc n + m) = omega arith in
    let i_moves : i + 1 + suc n ≡ i + suc (suc n) = omega arith in
    let all : 4 + suc n * 4 ≡ suc (suc n) * 4 = omega arith in
    rw e (
      ap (◌∷◌ (sample_at p d pcm i)) (
        samples_from-add p false (drop 4 pcm) (i + 1) (suc n) m (omega arith)
        ∙ ap₂
            (λ (t : List ℕ) (j : ℕ).
              samples_from p false (drop 4 pcm) (i + 1) (suc n) ++ samples_from p false t j m)
            (drop-drop 4 (suc n * 4) pcm ∙ ap (λ (k : ℕ). drop k pcm) all) i_moves))

pub flat-samples_from :
    (p : Packet) (d : Bool) (pcm : List ℕ) (i n : ℕ)
    → flat (samples_from p d pcm i n) ≡ take (n * 4) pcm
flat-samples_from p d pcm i zero = refl
flat-samples_from p d pcm i (suc n) =
    let e : 4 + n * 4 ≡ suc n * 4 = omega arith in
    ap (◌++◌ (take 4 pcm)) (flat-samples_from p false (drop 4 pcm) (i + 1) n)
    ∙ sym (take-add 4 (n * 4) pcm)
    ∙ ap (λ (k : ℕ). take k pcm) e

pub flat-append : (xs ys : List Sample) → flat (xs ++ ys) ≡ flat xs ++ flat ys
flat-append [] ys = refl
flat-append (x ∷ xs) ys = rw (flat-append xs ys) (sym (append_assoc x.bytes (flat xs) (flat ys)))

pub any-append :
    (xs ys : List Sample)
    → any_timestamp_error (xs ++ ys) ≡ (any_timestamp_error xs || any_timestamp_error ys)
any-append [] ys = refl
any-append (x ∷ xs) ys = ground (arith, any-append xs ys)

pub all-append : (xs ys : List Sample) → all_silent (xs ++ ys) ≡ (all_silent xs && all_silent ys)
all-append [] ys = refl
all-append (x ∷ xs) ys = ground (arith, all-append xs ys)

pub any-samples_from :
    (p : Packet) (d : Bool) (pcm : List ℕ) (i n : ℕ)
    → 1 ≤ n
    → any_timestamp_error (samples_from p d pcm i n) ≡ has_flag p.flags 4
any-samples_from p d pcm i zero h = absurd (omega arith)
any-samples_from p d pcm i (suc zero) h = ground arith
any-samples_from p d pcm i (suc (suc n)) h =
    rw (any-samples_from p false (drop 4 pcm) (i + 1) (suc n) (omega arith)) ground arith

pub all-samples_from :
    (p : Packet) (d : Bool) (pcm : List ℕ) (i n : ℕ)
    → 1 ≤ n
    → all_silent (samples_from p d pcm i n) ≡ has_flag p.flags 1
all-samples_from p d pcm i zero h = absurd (omega arith)
all-samples_from p d pcm i (suc zero) h = ground arith
all-samples_from p d pcm i (suc (suc n)) h =
    rw (all-samples_from p false (drop 4 pcm) (i + 1) (suc n) (omega arith)) ground arith

-- Samples that do not fill a frame wait.
pub feed-wait :
    (next : ℕ) (waiting t xs : List Sample)
    → length waiting + length t < 960
    → feed next waiting (t ++ xs) ≡ feed next (waiting ++ t) xs
unfolding feed
feed-wait next waiting [] xs h = ap (λ (w : List Sample). feed next w xs) (sym (append-nil waiting))
feed-wait next waiting (x ∷ t) xs h =
    let not_full : (length waiting == 959) ≡ false = ground arith in
    rw not_full (
      feed-wait next (waiting ++ (x ∷ [])) t xs (omega (arith, length-append waiting (x ∷ [])))
      ∙ ap (λ (w : List Sample). feed next w xs) (append_assoc waiting (x ∷ []) t))

-- Samples that fill a frame make it.
pub feed-fill :
    (next : ℕ) (waiting t xs : List Sample)
    → length waiting < 960
    → length waiting + length t ≡ 960
    → feed next waiting (t ++ xs)
      ≡ prepend (frame_of next (waiting ++ t) ∷ []) (feed (add_u64 next 1) [] xs)
unfolding feed
feed-fill next waiting [] xs lt h = absurd (omega arith)
feed-fill next waiting (x ∷ []) xs lt h =
    let full : (length waiting == 959) ≡ true = ground arith in rw full refl
feed-fill next waiting (x ∷ (y ∷ t)) xs lt h =
    let not_full : (length waiting == 959) ≡ false = ground arith in
    rw not_full (
      feed-fill next (waiting ++ (x ∷ [])) (y ∷ t) xs
        (omega (arith, length-append waiting (x ∷ [])))
        (omega (arith, length-append waiting (x ∷ [])))
      ∙ ap (λ (w : List Sample). prepend (frame_of next w ∷ []) (feed (add_u64 next 1) [] xs))
          (append_assoc waiting (x ∷ []) (y ∷ t)))
