-- ===== src/Capture/CapturedPacket/Output.antt =====
-- captured_packet.cpp: what the conversion writes, and when it succeeds.
use wiretone.Prelude.{
  ℕ, zero, suc, ◌+◌, ◌*◌, ◌/◌, ◌%◌, ◌^◌, ◌≤◌, ◌<◌, ◌≡◌, ◌≢◌, ◌↔◌, refl, sym, ap, ap₂, ◌∙◌, Bool,
  true, false, ◌&&◌, Bool-cases, inl, inr, List, [], ◌∷◌, ◌++◌, map, append-nil, append_assoc, All,
  if◌then◌else◌, arith, has_flag, length, length-append, set, take, drop, fill_n, drop-drop,
  bit_and_above_three,
}
use wiretone.Capture.CapturedPacket.Types.{CapturedPacketView, CapturedPacketError}
use wiretone.Capture.CapturedPacket.Convert.{
  Floats, write_little_endian_s16, float_to_pcm_s16, sample_at, all_finite, write_samples,
  convert_float32_stereo_to_pcm_s16le,
}

-- Samples as bytes, the low byte of each first.
abbrev pub little_endian : List ℕ → List ℕ
little_endian [] = []
little_endian (x ∷ xs) = x % 2 ^ 8 ∷ (x / 2 ^ 8 % 2 ^ 8 ∷ little_endian xs)

pub length-little_endian : (xs : List ℕ) → length (little_endian xs) ≡ length xs * 2
length-little_endian [] = refl
length-little_endian (x ∷ xs) = omega (arith, length-little_endian xs)

set-append :
    (xs : List ℕ) (a v : ℕ) (ys : List ℕ) (i : ℕ)
    → length xs ≡ i
    → set (xs ++ (a ∷ ys)) i v ≡ xs ++ (v ∷ ys)
set-append [] a v ys zero e = refl
set-append [] a v ys (suc i) e = absurd (omega arith)
set-append (x ∷ xs) a v ys zero e = absurd (omega arith)
set-append (x ∷ xs) a v ys (suc i) e = ap (◌∷◌ x) (set-append xs a v ys i (omega arith))

write_little_endian_s16-append :
    (xs : List ℕ) (a b s : ℕ) (ys : List ℕ) (i : ℕ)
    → length xs ≡ i
    → write_little_endian_s16 s (xs ++ (a ∷ (b ∷ ys))) i ≡ (xs ++ little_endian (s ∷ [])) ++ ys
unfolding write_little_endian_s16
write_little_endian_s16-append xs a b s ys i e =
    let low : List ℕ = s % 2 ^ 8 ∷ [] in
    let high : ℕ = s / 2 ^ 8 % 2 ^ 8 in
    ap (λ (t : List ℕ). set t (i + 1) high)
      (set-append xs a (s % 2 ^ 8) (b ∷ ys) i e ∙ sym (append_assoc xs low (b ∷ ys)))
    ∙ set-append (xs ++ low) b high ys (i + 1) (omega (arith, length-append xs low))
    ∙ append_assoc xs low (high ∷ ys)
    ∙ sym (append_assoc xs (little_endian (s ∷ [])) ys)

and_left : (a b : Bool) → (a && b) ≡ true → a ≡ true
and_left a b e = ground arith

and_right : (a b : Bool) → (a && b) ≡ true → b ≡ true
and_right a b e = ground arith

module _ (floats : Floats) where
  -- The float samples of some bytes, in order.
  abbrev pub floats_of : ℕ → List ℕ → List floats.Float
  floats_of zero bytes = []
  floats_of (suc n) bytes = floats.from_bytes (take 4 bytes) ∷ floats_of n (drop 4 bytes)

  abbrev pub IsFinite : floats.Float → Type 0
  IsFinite x = floats.isfinite x ≡ true

  -- The bytes that the float samples become.
  abbrev pub converted_bytes : ℕ → List ℕ → List ℕ
  converted_bytes n bytes = little_endian (map (float_to_pcm_s16 floats) (floats_of n bytes))

  pub length-converted_bytes : (n : ℕ) (bytes : List ℕ) → length (converted_bytes n bytes) ≡ n * 2
  length-converted_bytes zero bytes = refl
  length-converted_bytes (suc n) bytes = omega (arith, length-converted_bytes n (drop 4 bytes))

  drop_next : (bytes : List ℕ) (i : ℕ) → drop 4 (drop (i * 4) bytes) ≡ drop ((i + 1) * 4) bytes
  drop_next bytes i =
      let e : i * 4 + 4 ≡ (i + 1) * 4 = omega arith in
      drop-drop (i * 4) 4 bytes ∙ ap (λ (k : ℕ). drop k bytes) e

  pub write_samples-append :
      (bytes : List ℕ) (i n : ℕ) (done rest : List ℕ)
      → length done ≡ i * 2
      → n * 2 ≤ length rest
      → write_samples floats bytes i n (done ++ rest)
        ≡ (done ++ converted_bytes n (drop (i * 4) bytes)) ++ drop (n * 2) rest
  unfolding write_samples
  write_samples-append bytes i zero done rest e h =
      ap (λ (t : List ℕ). t ++ rest) (sym (append-nil done))
  write_samples-append bytes i (suc n) done [] e h = absurd (omega arith)
  write_samples-append bytes i (suc n) done (a ∷ []) e h = absurd (omega arith)
  write_samples-append bytes i (suc n) done (a ∷ (b ∷ rest)) e h =
      let s : ℕ = float_to_pcm_s16 floats (sample_at floats bytes i) in
      let two_more : suc (suc (n * 2)) ≡ suc n * 2 = omega arith in
      let more : List ℕ = done ++ little_endian (s ∷ []) in
      ap (write_samples floats bytes (i + 1) n)
        (write_little_endian_s16-append done a b s rest (i * 2) e)
      ∙ write_samples-append bytes (i + 1) n more rest
          (omega (arith, length-append done (little_endian (s ∷ [])))) (omega arith)
      ∙ ap (λ (t : List ℕ). t ++ drop (n * 2) rest)
          (append_assoc done (little_endian (s ∷ [])) (converted_bytes n (drop ((i + 1) * 4) bytes))
            ∙ ap (λ (t : List ℕ). done ++ (little_endian (s ∷ []) ++ converted_bytes n t))
                (sym (drop_next bytes i)))
      ∙ ap
          (λ (k : ℕ).
            (done ++ converted_bytes (suc n) (drop (i * 4) bytes)) ++ drop k (a ∷ (b ∷ rest)))
          two_more

  all_finite_iff :
      (bytes : List ℕ) (i n : ℕ)
      → (all_finite floats bytes i n ≡ true) ↔ All IsFinite (floats_of n (drop (i * 4) bytes))
  unfolding all_finite
  all_finite_iff bytes i zero = (λ _. tt, λ _. refl)
  all_finite_iff bytes i (suc n) =
      let others : (all_finite floats bytes (i + 1) n ≡ true)
          ↔ All IsFinite (floats_of n (drop 4 (drop (i * 4) bytes))) =
        rw (drop_next bytes i) (all_finite_iff bytes (i + 1) n) in
      let here : Bool = floats.isfinite (sample_at floats bytes i) in
      (
        λ e. (
          and_left here (all_finite floats bytes (i + 1) n) e,
          others.0 (and_right here (all_finite floats bytes (i + 1) n) e),
        ),
        λ h. ap₂ ◌&&◌ h.0 (others.1 h.1),
      )

  -- What the conversion wants of a packet and of the output.
  pub record CanConvert (packet : CapturedPacketView) (output : List ℕ) : Type 0 where
    pub some_frames : packet.frame_count ≢ 0
    pub flags : packet.flags < 8
    pub room : packet.frame_count * 4 ≤ length output
    pub samples :
        has_flag packet.flags 1 ≡ false
        → (length packet.bytes ≡ packet.frame_count * 8)
          × All IsFinite (floats_of (packet.frame_count * 2) packet.bytes)

  pub accepts :
      (packet : CapturedPacketView) (output : List ℕ)
      → packet.flags < 2 ^ 32
      → (convert_float32_stereo_to_pcm_s16le floats packet output).0.error
        ≡ CapturedPacketError.none
      → CanConvert packet output
  unfolding convert_float32_stereo_to_pcm_s16le
  accepts packet output w e =
      let mask = bit_and_above_three packet.flags w in
      let finite = all_finite_iff packet.bytes 0 (packet.frame_count * 2) in
      record {
        some_frames = ground arith;
        flags = ground arith;
        room = ground arith;
        samples = λ loud. (ground arith, finite.0 (ground arith));
      }

  pub accepted :
      (packet : CapturedPacketView) (output : List ℕ)
      → packet.flags < 2 ^ 32
      → CanConvert packet output
      → ((convert_float32_stereo_to_pcm_s16le floats packet output).0.error
          ≡ CapturedPacketError.none)
        × ((convert_float32_stereo_to_pcm_s16le floats packet output).0.output_size
            ≡ packet.frame_count * 4)
        × ((convert_float32_stereo_to_pcm_s16le floats packet output).1 ≡ (
            if has_flag packet.flags 1
            then fill_n output (packet.frame_count * 4) 0
            else write_samples floats packet.bytes 0 (packet.frame_count * 2) output))
  unfolding convert_float32_stereo_to_pcm_s16le
  accepted packet output w h = elim (Bool-cases (has_flag packet.flags 1)) [
    | inl quiet ↦ ground (arith, bit_and_above_three packet.flags w, quiet)
    | inr loud ↦
        let (size, finite) = h.samples loud in
        let passed = (all_finite_iff packet.bytes 0 (packet.frame_count * 2)).1 finite in
        ground (arith, bit_and_above_three packet.flags w, loud, size, passed)
  ]
