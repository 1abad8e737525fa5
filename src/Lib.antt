-- ===== src/Lib.antt =====
-- Wiretone sends the audio that a Windows machine plays to an Android receiver. This library models
-- the portable core under native/: the wire protocol (native/protocol), the sender's capture logic
-- (native/capture) and the receiver's playback logic (native/playback); and of the sender's program
-- (apps/windows-sender) how the capture starts, stops and survives a change of its device.
--
-- How the parts interact. The sender converts a captured packet of float samples to 16 bits
-- (convert_float32_stereo_to_pcm_s16le) and gives the bytes to the frame assembler
-- (PcmFrameAssembler::accept_packet), which calls its sink with frames of 960 samples. A frame of
-- audio is turned into one to four datagrams (fragment_audio_frame), each a 32-byte header
-- (encode_header) and a part of the payload. The receiver's session
-- (ReceiverSession::accept_datagram) parses a datagram (parse_datagram), reads the control payloads
-- (parse_stream_start and the others), gives the audio packets to the reassembler
-- (AudioFrameReassembler::accept_datagram), and queues the frames that it completes. The playback puts
-- frames into a ring of 32 slots (PcmPlaybackQueue::enqueue), from which the audio callback plays
-- (PcmPlaybackQueue::render). Time comes with the calls: there is no clock.
--
-- Which file models which part:
--   Prelude             native numbers, lists as arrays and spans, flags, a list used as a ring
--   Protocol/Bytes      native/protocol/src/byte_order.hpp: write_u16 to read_u64
--   Protocol/Packet     native/protocol/src/packet.cpp: validate_header, encode_header, parse_datagram
--   Protocol/Control    native/protocol/src/control_payload.cpp: the five payloads, valid_utf8
--   Protocol/Audio      native/protocol/src/audio_frame.cpp: fragment_audio_frame (Fragment), the slots
--                       (Slot) and the calls (Reassembler) of AudioFrameReassembler; the rules of
--                       docs/PROTOCOL.md for datagrams (Rules) and fragments (Parts)
--   Protocol/Session    native/protocol/src/session.cpp: ReceiverSession, its state (Types), the parts
--                       of its calls (Handlers) and accept_datagram (Receive)
--   Capture/Lifecycle   native/capture/src/lifecycle.cpp: CaptureLifecycle
--   Capture/Recovery    native/capture/src/recovery.cpp: CaptureRecoveryController
--   Capture/CapturedPacket  native/capture/src/captured_packet.cpp: the conversion (Convert), its
--                       output (Output, Conversion)
--   Capture/Assembler   native/capture/src/pcm_frame_assembler.cpp: PcmFrameAssembler (Accept), the
--                       frames that samples make one by one (Samples), the loop (Filling, Feeding,
--                       Rounds, between which Between holds), the call (Begin, Assembly), calls in a row
--                       (Stream, Packets)
--   Playback/Lifecycle  native/playback/src/lifecycle.cpp: PlaybackLifecycle
--   Playback/PcmQueue   native/playback/src/pcm_queue.cpp: PcmPlaybackQueue, its calls (Enqueue,
--                       Render, Control), the samples that wait (Pending, Appending, Counting), the
--                       loop of render (Between, Round, Playing), calls of enqueue between its rounds
--                       (Interleaving, Bounds), all calls (Refinement)
--   Sender/Wasapi       apps/windows-sender/src/wasapi_loopback_capture.cpp: the calls of WASAPI
--                       (Platform), WasapiLoopbackCapture::Impl (Types), its resources (Endpoint),
--                       recover_if_requested (Recover), how it ends (Configured, Held, UnderWay,
--                       Outcome, Recovered),
--                       initialize, start and stop (Calls, Answers), the assembler's sink (Frames)
--
-- How the code is read. A byte is a number below 256 and a span a list of them; an integer of w bits
-- is a number, and arithmetic that may wrap is written with `% 2 ^ w`. A member function that changes
-- its object takes the object's fields as a record and returns its result and the record after it; an
-- encoder returns its error and the output span after the call. An enumeration over a byte has a
-- constructor for the bytes that no enumerator names, since a cast makes such values. A write outside
-- a span has no effect in the model; the code makes none after its guards.
--
-- Bounds. Every loop is over a list, or over a number of rounds that the code computes first: the
-- fragments of a frame in fragment_from, the continuation bytes in continuations. The UTF-8 loop
-- runs on fuel, the length of the text, which is enough since every round moves at least one byte
-- on. The loops of render and accept_packet run on fuel, the count of frames, which is enough since
-- every round moves a frame at least. The loop of recover_if_requested runs on three rounds of
-- fuel, the attempts that the recovery allows.
--
-- Parameters. The float type of the conversion, with its comparisons, std::isfinite and
-- std::lround, is the record Floats. The sink of the assembler is the list of the frames that it is
-- called with. The calls of COM and WASAPI are the record Platform: each takes a state of the
-- platform to an answer and the state after it.
--
-- Not modelled: of the WASAPI capture drain_available, snapshot and the release of COM at its end,
-- but for the packet that it hands from the conversion to the assembler; the AAudio output with its
-- threads and callbacks; the JNI bridge and the command line, which are calls of the platform; the
-- memory order of the PCM queue's atomics, and a call of enqueue inside a round of render; the
-- to_string functions of the protocol and of the capture errors.
pub mod Prelude
pub mod Protocol
pub mod Capture
pub mod Playback
pub mod Sender
