-- ===== src/Capture/Assembler/Filling.antt =====
-- pcm_frame_assembler.cpp: what one round of the loop of `accept_packet` does.
use wiretone.Prelude.{
  ℕ, zero, suc, ◌+◌, ◌*◌, ◌^◌, ◌≤◌, ◌<◌, ◌≡◌, refl, sym, ap, ap₂, ◌∙◌, Bool, true, false, ◌&&◌,
  ◌||◌, List, [], ◌∷◌, ◌++◌, ◌==◌, if◌then◌else◌, arith, bit_or, has_flag, length, length-append,
  length-take, length-drop, take, drop, take_all, take-copy_into, take-append-drop,
  length-copy_into, copy_into,
}
use wiretone.Capture.Assembler.Types.{PcmFrameAssembler}
use wiretone.Capture.Assembler.Accept.{
  Packet, Assembling, begin_frame, mark_frame, copied_bytes, copy_round, completed_frame,
}
use wiretone.Capture.Assembler.Samples.{
  Sample, flat, any_timestamp_error, all_silent, starts_discontinuous, first_device_position,
  first_qpc_position, frame_flags, frame_of, samples_from, length-samples_from, any-append,
  all-append, flat-append, flat-samples_from, any-samples_from, all-samples_from,
}

-- The fields of a frame that has been begun sum up its samples.
pub record SumsUp (a : PcmFrameAssembler) (waiting : List Sample) : Type 0 where
  pub flags :
      a.pending_flags
      ≡ frame_flags (starts_discontinuous waiting) (any_timestamp_error waiting) false
  pub silent : a.pending_all_silent ≡ all_silent waiting
  pub device_position : a.pending_device_position_frames ≡ first_device_position waiting
  pub qpc_position : a.pending_qpc_position_100ns ≡ first_qpc_position waiting

-- The storage has the bytes of the samples at its start.
pub record Stores (a : PcmFrameAssembler) (waiting : List Sample) : Type 0 where
  pub size : length a.storage ≡ 3840
  pub count : a.pending_frames ≡ length waiting
  pub bytes : take (length waiting * 4) a.storage ≡ flat waiting

mark_flags :
    (d t e : Bool)
    → (if e then bit_or (frame_flags d t false) 4 else frame_flags d t false)
      ≡ frame_flags d (t || e) false
mark_flags true true true = refl
mark_flags true true false = refl
mark_flags true false true = refl
mark_flags true false false = refl
mark_flags false true true = refl
mark_flags false true false = refl
mark_flags false false true = refl
mark_flags false false false = refl

first_flags : (d : Bool) → (if d then 2 else 0) ≡ frame_flags d false false
first_flags true = refl
first_flags false = refl

silence_flag :
    (d t s : Bool)
    → (if s then bit_or (frame_flags d t false) 1 else frame_flags d t false) ≡ frame_flags d t s
silence_flag true true true = refl
silence_flag true true false = refl
silence_flag true false true = refl
silence_flag true false false = refl
silence_flag false true true = refl
silence_flag false true false = refl
silence_flag false false true = refl
silence_flag false false false = refl

-- A frame that is begun, or goes on, sums up its samples with those that the round adds.
pub mark_frame-SumsUp :
    (p : Packet) (s : Assembling) (waiting : List Sample) (pcm : List ℕ) (n : ℕ)
    → SumsUp s.assembler waiting
    → s.assembler.pending_frames ≡ length waiting
    → (s.apply_discontinuity ≡ true → waiting ≡ [])
    → s.consumed_frames < 2 ^ 32
    → 1 ≤ n
    → SumsUp
        (mark_frame p (begin_frame p s).assembler)
        (waiting ++ samples_from p s.apply_discontinuity pcm s.consumed_frames n)
unfolding mark_frame begin_frame
mark_frame-SumsUp p s waiting pcm zero h count apply width some = absurd (omega arith)
mark_frame-SumsUp p s [] pcm (suc n) h count apply width some =
    let none : (s.assembler.pending_frames == 0) ≡ true = ground arith in
    let e = any-samples_from p s.apply_discontinuity pcm s.consumed_frames (suc n) some in
    let q = all-samples_from p s.apply_discontinuity pcm s.consumed_frames (suc n) some in
    rw none (record {
      flags =
          ap (λ (f : ℕ). if has_flag p.flags 4 then bit_or f 4 else f)
            (first_flags s.apply_discontinuity)
          ∙ mark_flags s.apply_discontinuity false (has_flag p.flags 4)
          ∙ ap (λ (t : Bool). frame_flags s.apply_discontinuity t false) (sym e);
      silent = sym q;
      device_position = refl;
      qpc_position = omega arith;
    })
mark_frame-SumsUp p s (w ∷ waiting) pcm (suc n) h count apply width some =
    let going_on : (s.assembler.pending_frames == 0) ≡ false = ground arith in
    let e = any-samples_from p s.apply_discontinuity pcm s.consumed_frames (suc n) some in
    let q = all-samples_from p s.apply_discontinuity pcm s.consumed_frames (suc n) some in
    rw going_on (record {
      flags =
          ap (λ (f : ℕ). if has_flag p.flags 4 then bit_or f 4 else f) h.flags
          ∙ mark_flags w.discontinuous (any_timestamp_error (w ∷ waiting)) (has_flag p.flags 4)
          ∙ ap (λ (t : Bool). frame_flags w.discontinuous t false)
              (ap (◌||◌ (any_timestamp_error (w ∷ waiting))) (sym e)
                ∙ sym (
                    any-append (w ∷ waiting)
                      (samples_from p s.apply_discontinuity pcm s.consumed_frames (suc n))));
      silent =
          ap₂ ◌&&◌ h.silent (sym q)
          ∙ sym (
              all-append (w ∷ waiting)
                (samples_from p s.apply_discontinuity pcm s.consumed_frames (suc n)));
      device_position = h.device_position;
      qpc_position = h.qpc_position;
    })

-- The bytes of the round's samples are copied behind those that wait.
pub copy_round-Stores :
    (p : Packet) (s : Assembling) (waiting : List Sample) (d : Bool) (n : ℕ)
    → Stores s.assembler waiting
    → length waiting + n ≤ 960
    → s.consumed_frames + n ≤ p.frame_count
    → length p.normalized_pcm ≡ p.frame_count * 4
    → Stores (copy_round p s n).assembler (
        waiting
        ++ samples_from p d (drop (s.consumed_frames * 4) p.normalized_pcm) s.consumed_frames n)
unfolding copy_round copied_bytes
copy_round-Stores p s waiting d n h fits enough size =
    let added : List Sample =
      samples_from p d (drop (s.consumed_frames * 4) p.normalized_pcm) s.consumed_frames n in
    let chunk : List ℕ = take (n * 4) (drop (s.consumed_frames * 4) p.normalized_pcm) in
    let head : List ℕ = take (length waiting * 4) s.assembler.storage in
    let rest : List ℕ = drop (length waiting * 4) s.assembler.storage in
    let stored = h.size in
    let whole : length (waiting ++ added) ≡ length waiting + n = omega (
      arith,
      length-append waiting added,
      length-samples_from p d (drop (s.consumed_frames * 4) p.normalized_pcm) s.consumed_frames n,
    ) in
    let counted = h.count in
    let ends : length (waiting ++ added) * 4 ≡ length waiting * 4 + n * 4 = omega (arith, whole) in
    record {
      size = length-copy_into s.assembler.storage (s.assembler.pending_frames * 4) chunk ∙ h.size;
      count = omega (arith, whole);
      bytes =
          ap₂ (λ (k i : ℕ). take k (copy_into s.assembler.storage (i * 4) chunk)) ends h.count
          ∙ ap
              (λ (t : List ℕ).
                take (length waiting * 4 + n * 4) (copy_into t (length waiting * 4) chunk))
              (sym (take-append-drop (length waiting * 4) s.assembler.storage))
          ∙ take-copy_into head rest chunk (length waiting * 4) (n * 4)
              (omega (arith, length-take (length waiting * 4) s.assembler.storage))
              (omega (
                arith,
                length-take (n * 4) (drop (s.consumed_frames * 4) p.normalized_pcm),
                length-drop (s.consumed_frames * 4) p.normalized_pcm,
              ))
              (omega (arith, length-drop (length waiting * 4) s.assembler.storage))
          ∙ ap₂ ◌++◌ h.bytes (
              sym (
                flat-samples_from p d (drop (s.consumed_frames * 4) p.normalized_pcm)
                  s.consumed_frames n))
          ∙ sym (flat-append waiting added);
    }

-- A full frame is that of its samples.
pub completed_frame-frame_of :
    (a : PcmFrameAssembler) (waiting : List Sample)
    → SumsUp a waiting
    → Stores a waiting
    → length waiting ≡ 960
    → completed_frame a ≡ frame_of a.next_sequence_number waiting
unfolding completed_frame
completed_frame-frame_of a waiting h t full =
    let stored = t.size in
    let bytes : a.storage ≡ flat waiting =
      sym (take_all (length waiting * 4) a.storage (omega arith)) ∙ t.bytes in
    let flags : (if a.pending_all_silent then bit_or a.pending_flags 1 else a.pending_flags)
        ≡ frame_flags (starts_discontinuous waiting) (any_timestamp_error waiting)
            (all_silent waiting) =
      ap₂ (λ (s : Bool) (f : ℕ). if s then bit_or f 1 else f) h.silent h.flags
      ∙ silence_flag (starts_discontinuous waiting) (any_timestamp_error waiting)
          (all_silent waiting) in
    λ i. record {
      bytes = bytes i;
      sequence_number = a.next_sequence_number;
      flags = flags i;
      device_position_frames = h.device_position i;
      qpc_position_100ns = h.qpc_position i;
    }
