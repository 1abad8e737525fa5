-- ===== src/Capture/CapturedPacket/Tests.antt =====
-- A packet of one frame, with fixed-point numbers of one byte for the float samples.
use wiretone.Prelude.{
  ℕ, ◌*◌, ◌≡◌, ◌↔◌, refl, false, List, [], ◌∷◌, ◌++◌, ltb, leb, arith, get_or, drop, replicate,
}
use wiretone.Capture.CapturedPacket.Types.{CapturedPacketView, CapturedPacketError}
use wiretone.Capture.CapturedPacket.Convert.{Floats, pos, convert_float32_stereo_to_pcm_s16le}
use wiretone.Capture.CapturedPacket.Output.{CanConvert}
use wiretone.Capture.CapturedPacket.Conversion.{
  convert-iff-CanConvert, packet_bytes, convert-output, converted_packet, convert-accept_packet,
}
use wiretone.Capture.Assembler.Types.{PcmFrameAssemblerError, new}
use wiretone.Capture.Assembler.Accept.{accept_packet}
use wiretone.Capture.Assembler.Begin.{new-Holds}

-- 100 stands for 1; a byte of 255 is not finite.
abbrev hundredths : Floats
hundredths = record {
  Float = ℕ;
  from_bytes = λ bytes. get_or bytes 0 0;
  isfinite = λ x. ltb x 255;
  is_at_least_one = λ x. leb 100 x;
  is_at_most_minus_one = λ x. false;
  is_negative = λ x. false;
  lround_scaled = λ x scale. pos (x * 327);
}

abbrev packet : CapturedPacketView
packet = record {
  bytes = 50 ∷ (0 ∷ (0 ∷ (0 ∷ (120 ∷ (0 ∷ (0 ∷ (0 ∷ [])))))));
  frame_count = 1;
  flags = 0;
  device_position_frames = 100;
  qpc_position_100ns = 200;
}

abbrev scratch : List ℕ
scratch = replicate 6 9

succeeds :
    (convert_float32_stereo_to_pcm_s16le hundredths packet scratch).0.error
    ≡ CapturedPacketError.none
succeeds = (convert-iff-CanConvert hundredths packet scratch (omega arith)).1 (record {
  some_frames = omega arith;
  flags = omega arith;
  room = omega arith;
  samples = λ _. (refl, (refl, (refl, tt)));
})

convert-output_example :
    ((convert_float32_stereo_to_pcm_s16le hundredths packet scratch).0.output_size ≡ 1 * 4)
    × ((convert_float32_stereo_to_pcm_s16le hundredths packet scratch).1
        ≡ packet_bytes hundredths packet ++ drop (1 * 4) scratch)
convert-output_example = convert-output hundredths packet scratch (omega arith) succeeds

convert-accept_packet_example :
    (accept_packet new (converted_packet hundredths packet scratch)).0.error
    ≡ PcmFrameAssemblerError.none
convert-accept_packet_example =
    convert-accept_packet hundredths packet scratch new [] (omega arith) (omega arith) new-Holds
      succeeds

convert-iff-CanConvert_example :
    ((convert_float32_stereo_to_pcm_s16le hundredths packet scratch).0.error
      ≡ CapturedPacketError.none)
    ↔ CanConvert hundredths packet scratch
convert-iff-CanConvert_example = convert-iff-CanConvert hundredths packet scratch (omega arith)
