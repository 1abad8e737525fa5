-- ===== src/Capture/CapturedPacket/Conversion.antt =====
-- captured_packet.cpp: the conversion as a whole, and that the frame assembler takes its result.
use wiretone.Prelude.{
  ℕ, ◌*◌, ◌^◌, ◌<◌, ◌≡◌, ◌≢◌, ◌↔◌, refl, ap, ap₂, ◌∙◌, true, Bool-cases, inl, inr, List, [], ◌++◌,
  if◌then◌else◌, arith, has_flag, length, length-replicate, take, take-append, drop, replicate,
  fill_n-eq-replicate,
}
use wiretone.Capture.CapturedPacket.Types.{CapturedPacketView, CapturedPacketError}
use wiretone.Capture.CapturedPacket.Convert.{Floats, convert_float32_stereo_to_pcm_s16le}
use wiretone.Capture.CapturedPacket.Output.{
  CanConvert, accepts, accepted, converted_bytes, length-converted_bytes, write_samples-append,
}
use wiretone.Capture.Assembler.Types.{PcmFrameAssembler, PcmFrameAssemblerError}
use wiretone.Capture.Assembler.Accept.{Packet, accept_packet}
use wiretone.Capture.Assembler.Samples.{Sample}
use wiretone.Capture.Assembler.Between.{Holds}
use wiretone.Capture.Assembler.Assembly.{accept_packet-iff-CanAssemble}

module _ (floats : Floats) where
  -- The conversion succeeds exactly on a packet with frames and no unknown flag, where the output
  -- has room and the packet is silent or has eight bytes for each frame, of finite samples.
  pub convert-iff-CanConvert :
      (packet : CapturedPacketView) (output : List ℕ)
      → packet.flags < 2 ^ 32
      → ((convert_float32_stereo_to_pcm_s16le floats packet output).0.error
          ≡ CapturedPacketError.none)
        ↔ CanConvert floats packet output
  convert-iff-CanConvert packet output w =
      (accepts floats packet output w, λ h. (accepted floats packet output w h).0)

  -- The bytes that a packet is converted to.
  abbrev pub packet_bytes : CapturedPacketView → List ℕ
  packet_bytes packet =
      if has_flag packet.flags 1
      then replicate (packet.frame_count * 4) 0
      else converted_bytes floats (packet.frame_count * 2) packet.bytes

  length-packet_bytes :
      (packet : CapturedPacketView) → length (packet_bytes packet) ≡ packet.frame_count * 4
  length-packet_bytes packet = elim (Bool-cases (has_flag packet.flags 1)) [
    | inl e ↦ rw e (length-replicate (packet.frame_count * 4) 0)
    | inr e ↦
        rw e (omega (arith, length-converted_bytes floats (packet.frame_count * 2) packet.bytes))
  ]

  -- A conversion that succeeds writes four bytes for each frame, zeros for a silent packet and else
  -- its samples in order, each with the low byte first; the rest of the output stays.
  pub convert-output :
      (packet : CapturedPacketView) (output : List ℕ)
      → packet.flags < 2 ^ 32
      → (convert_float32_stereo_to_pcm_s16le floats packet output).0.error
        ≡ CapturedPacketError.none
      → ((convert_float32_stereo_to_pcm_s16le floats packet output).0.output_size
          ≡ packet.frame_count * 4)
        × ((convert_float32_stereo_to_pcm_s16le floats packet output).1
            ≡ packet_bytes packet ++ drop (packet.frame_count * 4) output)
  convert-output packet output w e =
      let can = accepts floats packet output w e in
      let (_, size, written) = accepted floats packet output w can in
      let room = can.room in
      let twice : packet.frame_count * 2 * 2 ≡ packet.frame_count * 4 = omega arith in
      (
        size,
        written ∙ elim (Bool-cases (has_flag packet.flags 1)) [
          | inl quiet ↦ rw quiet (fill_n-eq-replicate output (packet.frame_count * 4) 0 room)
          | inr loud ↦ rw loud (
              write_samples-append floats packet.bytes 0 (packet.frame_count * 2) [] output refl
                (omega arith)
              ∙ ap
                  (λ (k : ℕ).
                    converted_bytes floats (packet.frame_count * 2) packet.bytes ++ drop k output)
                  twice)
        ],
      )

  -- A conversion that fails leaves the output and gives no size.
  pub convert-refused :
      (packet : CapturedPacketView) (output : List ℕ)
      → (convert_float32_stereo_to_pcm_s16le floats packet output).0.error
        ≢ CapturedPacketError.none
      → ((convert_float32_stereo_to_pcm_s16le floats packet output).1 ≡ output)
        × ((convert_float32_stereo_to_pcm_s16le floats packet output).0.output_size ≡ 0)
  unfolding convert_float32_stereo_to_pcm_s16le
  convert-refused packet output e = ground (arith, e)

  -- The packet that the capture hands to the assembler, from the output of a conversion.
  abbrev pub converted_packet : CapturedPacketView → List ℕ → Packet
  converted_packet packet output = record {
    normalized_pcm =
        take (convert_float32_stereo_to_pcm_s16le floats packet output).0.output_size
          (convert_float32_stereo_to_pcm_s16le floats packet output).1;
    frame_count = packet.frame_count;
    flags = packet.flags;
    device_position_frames = packet.device_position_frames;
    qpc_position_100ns = packet.qpc_position_100ns;
    has_sink = true;
  }

  -- The assembler accepts whatever has been converted.
  pub convert-accept_packet :
      (packet : CapturedPacketView) (output : List ℕ) (a : PcmFrameAssembler)
      (waiting : List Sample)
      → packet.flags < 2 ^ 32
      → packet.frame_count < 2 ^ 32
      → Holds a waiting
      → (convert_float32_stereo_to_pcm_s16le floats packet output).0.error
        ≡ CapturedPacketError.none
      → (accept_packet a (converted_packet packet output)).0.error ≡ PcmFrameAssemblerError.none
  convert-accept_packet packet output a waiting w n h e =
      let can = accepts floats packet output w e in
      let (size, written) = convert-output packet output w e in
      let out = (convert_float32_stereo_to_pcm_s16le floats packet output).1 in
      let bytes : (converted_packet packet output).normalized_pcm ≡ packet_bytes packet =
        ap₂ (λ (k : ℕ) (t : List ℕ). take k t) size written
        ∙ take-append (packet_bytes packet) (drop (packet.frame_count * 4) output)
            (packet.frame_count * 4) (length-packet_bytes packet) in
      (accept_packet-iff-CanAssemble a (converted_packet packet output) waiting h
          (record { frame_count = n; flags = w })).1
        (record {
          some_frames = can.some_frames;
          flags = can.flags;
          size = ap (length {A = ℕ}) bytes ∙ length-packet_bytes packet;
          sink = refl;
        })
