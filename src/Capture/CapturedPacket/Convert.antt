-- ===== src/Capture/CapturedPacket/Convert.antt =====
-- captured_packet.cpp: the conversion of a packet's float samples to 16 bits. The float operations
-- of the platform are a parameter; a 16-bit sample is its bit pattern.
use wiretone.Prelude.{
  ℕ, zero, suc, ◌+◌, ◌-◌, ◌*◌, ◌/◌, ◌%◌, ◌^◌, Bool, true, not, ◌&&◌, List, ltb, ◌==◌, ◌!=◌,
  if◌then◌else◌, has_flag, length, set, take, drop, fill_n,
}
use wiretone.Capture.CapturedPacket.Types.{
  normalized_channel_count, normalized_bytes_per_sample, float32_stereo_bytes_per_frame,
  captured_packet_flag_silence, captured_packet_unknown_flag_mask, CapturedPacketView,
  CapturedPacketError, CapturedPacketConversionResult, normalized_pcm_size_for_frames,
}

-- Whole numbers, such as `std::lround` returns.
pub data ℤ : Type 0 where
  pos negsuc : ℕ → ℤ

-- `float` and the library's functions on it.
pub record Floats : Type 1 where
  pub Float : Type 0
  pub from_bytes : List ℕ → Float  -- `std::memcpy` of four bytes
  pub isfinite : Float → Bool
  pub is_at_least_one : Float → Bool  -- `value >= 1.0F`
  pub is_at_most_minus_one : Float → Bool  -- `value <= -1.0F`
  pub is_negative : Float → Bool  -- `value < 0.0F`
  pub lround_scaled : Float → ℕ → ℤ  -- `std::lround(value * scale)`

-- The conversion of a whole number to `std::int16_t`.
abbrev pub to_s16 : ℤ → ℕ
to_s16 (pos n) = n % 2 ^ 16
to_s16 (negsuc n) = 2 ^ 16 - 1 - n % 2 ^ 16

unfoldable pub write_little_endian_s16 : ℕ → List ℕ → ℕ → List ℕ
write_little_endian_s16 sample output offset =
    set (set output offset (sample % 2 ^ 8)) (offset + 1) (sample / 2 ^ 8 % 2 ^ 8)

module _ (floats : Floats) where
  unfoldable pub float_to_pcm_s16 : floats.Float → ℕ
  float_to_pcm_s16 value =
      if floats.is_at_least_one value
      then to_s16 (pos 32_767)
      else if floats.is_at_most_minus_one value
      then to_s16 (negsuc 32_767)
      else to_s16 (floats.lround_scaled value (if floats.is_negative value then 32_768 else 32_767))

  -- The sample at an index of the packet's data.
  abbrev pub sample_at : List ℕ → ℕ → floats.Float
  sample_at bytes index = floats.from_bytes (take 4 (drop (index * 4) bytes))

  -- The loop that looks for a sample that is not finite: a count of samples from an index on.
  unfoldable pub all_finite : List ℕ → ℕ → ℕ → Bool
  all_finite bytes index zero = true
  all_finite bytes index (suc n) =
      floats.isfinite (sample_at bytes index) && all_finite bytes (index + 1) n

  -- The loop that writes the samples.
  unfoldable pub write_samples : List ℕ → ℕ → ℕ → List ℕ → List ℕ
  write_samples bytes index zero output = output
  write_samples bytes index (suc n) output = write_samples bytes (index + 1) n (
      write_little_endian_s16 (float_to_pcm_s16 (sample_at bytes index)) output
        (index * normalized_bytes_per_sample))

  -- The result, and the output span after the call.
  unfoldable pub convert_float32_stereo_to_pcm_s16le :
      CapturedPacketView → List ℕ → CapturedPacketConversionResult × List ℕ
  convert_float32_stereo_to_pcm_s16le packet output =
      if packet.frame_count == 0
      then (refused CapturedPacketError.zero_frame_count, output)
      else if has_flag packet.flags captured_packet_unknown_flag_mask
      then (refused CapturedPacketError.unknown_flags, output)
      else if ltb (length output) required_output_size
      then (refused CapturedPacketError.output_too_small, output)
      else if has_flag packet.flags captured_packet_flag_silence
      then (converted, fill_n output required_output_size 0)
      else if length packet.bytes == 0
      then (refused CapturedPacketError.data_missing, output)
      else if length packet.bytes != packet.frame_count * float32_stereo_bytes_per_frame
      then (refused CapturedPacketError.invalid_data_size, output)
      else if not (all_finite packet.bytes 0 sample_count)
      then (refused CapturedPacketError.non_finite_sample, output)
      else (converted, write_samples packet.bytes 0 sample_count output)
    where
      required_output_size : ℕ
      required_output_size = normalized_pcm_size_for_frames packet.frame_count

      sample_count : ℕ
      sample_count = packet.frame_count * normalized_channel_count

      refused : CapturedPacketError → CapturedPacketConversionResult
      refused e = record {
        error = e;
        output_size = 0;
        frame_count = packet.frame_count;
        flags = packet.flags;
        device_position_frames = packet.device_position_frames;
        qpc_position_100ns = packet.qpc_position_100ns;
      }

      converted : CapturedPacketConversionResult
      converted = record (refused CapturedPacketError.none) { output_size = required_output_size }
