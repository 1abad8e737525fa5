-- ===== src/Capture/Assembler/Tests.antt =====
-- A new assembler, and packets of one sample.
use wiretone.Prelude.{◌≡◌, ◌≢◌, refl, true, [], ◌∷◌, ◌++◌, has_flag, if◌then◌else◌, arith}
use wiretone.Capture.Assembler.Types.{PcmFrameAssemblerError, new}
use wiretone.Capture.Assembler.Accept.{Packet, accept_packet}
use wiretone.Capture.Assembler.Samples.{samples_of, feed}
use wiretone.Capture.Assembler.Assembly.{
  Assembles, accept_packet-iff-CanAssemble, accept_packet-Assembles, accept_packet-refused,
}
use wiretone.Capture.Assembler.Begin.{Fits, CanAssemble, kept, new-Holds}
use wiretone.Capture.Assembler.Stream.{frame_bytes, pending_bytes, AreConsecutive}
use wiretone.Capture.Assembler.Packets.{
  Continues, Follows, accept_packets, all_samples, accept_packets-feed, accept_packet-stream,
}

abbrev packet : Packet
packet = record {
  normalized_pcm = 1 ∷ (2 ∷ (3 ∷ (4 ∷ [])));
  frame_count = 1;
  flags = 4;
  device_position_frames = 100;
  qpc_position_100ns = 200;
  has_sink = true;
}

fits : Fits packet
fits = record { frame_count = omega arith; flags = omega arith }

can : CanAssemble packet
can = record { some_frames = omega arith; flags = omega arith; size = refl; sink = refl }

succeeds : (accept_packet new packet).0.error ≡ PcmFrameAssemblerError.none
succeeds = (accept_packet-iff-CanAssemble new packet [] new-Holds fits).1 can

accept_packet-Assembles_example :
    Assembles
      (feed new.next_sequence_number (kept packet []) (samples_of packet))
      (accept_packet new packet).0
      (accept_packet new packet).1
      (accept_packet new packet).2
accept_packet-Assembles_example = accept_packet-Assembles new packet [] new-Holds fits succeeds

accept_packet-stream_example :
    AreConsecutive new.next_sequence_number (accept_packet new packet).1
    × (frame_bytes (accept_packet new packet).1 ++ pending_bytes (accept_packet new packet).2
        ≡ (if has_flag packet.flags 2 then [] else pending_bytes new) ++ packet.normalized_pcm)
accept_packet-stream_example = accept_packet-stream new packet [] new-Holds fits succeeds

continues : Continues packet
continues = record { fits = fits; can = can; continuous = refl }

accept_packets-feed_example :
    Follows
      (feed new.next_sequence_number [] (all_samples (packet ∷ (packet ∷ []))))
      (accept_packets new (packet ∷ (packet ∷ [])))
accept_packets-feed_example =
    accept_packets-feed (packet ∷ (packet ∷ [])) new [] new-Holds (continues, (continues, tt))

abbrev empty_packet : Packet
empty_packet = record packet { normalized_pcm = []; frame_count = 0 }

is_refused : (accept_packet new empty_packet).0.error ≢ PcmFrameAssemblerError.none
unfolding accept_packet
is_refused e = cc

accept_packet-refused_example :
    ((accept_packet new empty_packet).1 ≡ []) × ((accept_packet new empty_packet).2 ≡ new)
accept_packet-refused_example =
    accept_packet-refused new empty_packet [] new-Holds
      (record { frame_count = omega arith; flags = omega arith }) is_refused
