-- ===== src/Protocol/Session/Ownership.antt =====
-- session.cpp: the frames in the queue are of the stream that is active.
use wiretone.Prelude.{
  ℕ, ◌^◌, ◌<◌, ◌≡◌, ◌⊎◌, refl, sym, ◌∙◌, true, not, ◌!=◌, ap, List, [], ◌∷◌, ◌++◌, arith, All,
  length, leb, inl, inr, Bool-cases,
}
use wiretone.Protocol.Packet.{PacketType, ParseResult, ProtocolError, parse_datagram}
use wiretone.Protocol.Packet
use wiretone.Protocol.Audio.Types.{AudioFrameError, AudioReassemblyResult, ReassembledAudioFrame}
use wiretone.Protocol.Audio.Types as Audio
use wiretone.Protocol.Audio.Reassembler
use wiretone.Protocol.Audio.Clock.{accept_datagram-IsAt, accept_datagram-stream}
use wiretone.Protocol.Session.Types.{
  ReceiverSessionState, ReceiverSessionResult, ReceiverSession, is_streaming,
}
use wiretone.Protocol.Session.Handlers.{
  reset, clear_frame_queue, refuse_control, clear_stream_state, check_liveness, observe_expiry,
  observe_time, enqueue_frame, drop_oldest, pop_frame, handle_stream_start, handle_stream_stop,
  handle_heartbeat, handle_error,
}
use wiretone.Protocol.Session.Receive.{
  clear_if_discontinuous, queue_completed, handle_reassembled, handle_audio, dispatch,
  is_stream_start, receive, refuse_packet_type, count_datagram, accept_datagram,
}
use wiretone.Protocol.Session.Invariant.{
  IsValid, IsAtTime, is_past, observe_time-now, observe_time-past,
}
use wiretone.Protocol.Session.Preserved.{
  clear_if_discontinuous-IsValid, heard_now, IsValid-counters,
}
use wiretone.Protocol.Session.Queue.{
  queued_frames, push_bounded, pop_first, enqueue_frame-queued_frames, pop_frame-queued_frames,
}

-- The frame is of the stream.
abbrev pub IsOfStream : ℕ → ReassembledAudioFrame → Type 0
IsOfStream id f = f.stream_id ≡ id

-- Every queued frame is of the active stream.
abbrev pub OwnsFrames : ReceiverSession → Type 0
OwnsFrames s = All (IsOfStream s.active_stream_id) (queued_frames s)

All-append :
    (id : ℕ) (fs gs : List ReassembledAudioFrame)
    → All (IsOfStream id) fs
    → All (IsOfStream id) gs
    → All (IsOfStream id) (fs ++ gs)
All-append id [] gs h k = k
All-append id (f ∷ fs) gs h k = (h.0, All-append id fs gs h.1 k)

All-push_bounded :
    (id : ℕ) (fs : List ReassembledAudioFrame) (f : ReassembledAudioFrame)
    → All (IsOfStream id) fs
    → f.stream_id ≡ id
    → All (IsOfStream id) (push_bounded fs f)
All-push_bounded id [] f h e = (e, tt)
All-push_bounded id (g ∷ fs) f h e = elim (Bool-cases (leb 8 (length (g ∷ fs)))) [
  | inl full ↦ rw full (All-append id fs (f ∷ []) h.1 (e, tt))
  | inr free ↦ rw free (All-append id (g ∷ fs) (f ∷ []) h (e, tt))
]

All-pop_first :
    (id : ℕ) (fs : List ReassembledAudioFrame)
    → All (IsOfStream id) fs
    → All (IsOfStream id) (pop_first fs).1
All-pop_first id [] h = tt
All-pop_first id (f ∷ fs) h = h.1

-- Two sessions with the same queue and the same active stream.
pub record HasSameFrames (s c : ReceiverSession) : Type 0 where
  queue : c.frame_queue ≡ s.frame_queue
  head : c.queue_head ≡ s.queue_head
  size : c.queue_size ≡ s.queue_size
  stream : c.active_stream_id ≡ s.active_stream_id

same_frames : (s c : ReceiverSession) → HasSameFrames s c → OwnsFrames s → OwnsFrames c
same_frames s c e h = rw (e.queue, e.head, e.size, e.stream) h

pub no_frames : (s : ReceiverSession) → s.queue_size ≡ 0 → OwnsFrames s
no_frames s e = rw e tt

cleared : (s : ReceiverSession) → (clear_stream_state s).queue_size ≡ 0
unfolding clear_stream_state clear_frame_queue
cleared s = refl

-- A call that keeps the queue and its stream or empties the queue.
abbrev pub KeepsOrClears : ReceiverSession → ReceiverSession → Type 0
KeepsOrClears s c = HasSameFrames s c ⊎ (c.queue_size ≡ 0)

pub OwnsFrames-of : (s c : ReceiverSession) → KeepsOrClears s c → OwnsFrames s → OwnsFrames c
OwnsFrames-of s c (inl e) h = same_frames s c e h
OwnsFrames-of s c (inr e) h = no_frames c e

same : (s : ReceiverSession) → HasSameFrames s s
same s = record { queue = refl; head = refl; size = refl; stream = refl }

check_liveness-frames :
    (s : ReceiverSession) (t : ℕ) (result : ReceiverSessionResult)
    → KeepsOrClears s (check_liveness s t result).1
unfolding check_liveness
check_liveness-frames s t result = ground (arith, cleared s)

pub observe_time-frames : (s : ReceiverSession) (t : ℕ) → KeepsOrClears s (observe_time s t).1
unfolding observe_time observe_expiry check_liveness clear_stream_state clear_frame_queue
observe_time-frames s t = ground arith

clear_if_discontinuous-frames :
    (s : ReceiverSession) (flags : ℕ)
    → KeepsOrClears s (clear_if_discontinuous s flags)
      × ((clear_if_discontinuous s flags).active_stream_id ≡ s.active_stream_id)
unfolding clear_if_discontinuous clear_frame_queue
clear_if_discontinuous-frames s flags = ground arith

enqueue_frame-stream :
    (s : ReceiverSession) (f : ReassembledAudioFrame)
    → (enqueue_frame s f).active_stream_id ≡ s.active_stream_id
unfolding enqueue_frame drop_oldest
enqueue_frame-stream s f = ground arith

enqueue_frame-OwnsFrames :
    (s : ReceiverSession) (f : ReassembledAudioFrame)
    → IsValid s
    → f.stream_id ≡ s.active_stream_id
    → OwnsFrames s
    → OwnsFrames (enqueue_frame s f)
enqueue_frame-OwnsFrames s f v e h =
    rw (enqueue_frame-stream s f, enqueue_frame-queued_frames s f v)
      (All-push_bounded s.active_stream_id (queued_frames s) f h e)

queue_completed-OwnsFrames :
    (s : ReceiverSession) (audio : AudioReassemblyResult) (result : ReceiverSessionResult)
    → IsValid s
    → s.state ≡ ReceiverSessionState.streaming
    → audio.frame.stream_id ≡ s.active_stream_id
    → OwnsFrames s
    → OwnsFrames (queue_completed s audio result).1
unfolding queue_completed
queue_completed-OwnsFrames s audio result v on e h =
    let c = clear_if_discontinuous s audio.frame.flags in
    let (kept, stream) = clear_if_discontinuous-frames s audio.frame.flags in
    let (w, on') = clear_if_discontinuous-IsValid s audio.frame.flags v on in
    enqueue_frame-OwnsFrames c audio.frame w (e ∙ sym stream) (OwnsFrames-of s c kept h)

handle_reassembled-OwnsFrames :
    (s : ReceiverSession) (audio : AudioReassemblyResult) (t : ℕ) (result : ReceiverSessionResult)
    → IsValid s
    → IsAtTime s t
    → s.state ≡ ReceiverSessionState.streaming
    → (audio.frame_completed ≡ true → audio.frame.stream_id ≡ s.active_stream_id)
    → OwnsFrames s
    → OwnsFrames (handle_reassembled s audio t result).1
unfolding handle_reassembled
handle_reassembled-OwnsFrames s audio t result v at on e h =
    elim (Bool-cases (not (Audio.is_none audio.error))) [
      | inl bad ↦ rw bad h
      | inr good ↦ elim (Bool-cases (not audio.frame_completed)) [
        | inl partial ↦ rw (good, partial) h
        | inr complete ↦
            rw (good, complete)
              (queue_completed-OwnsFrames _ audio _ (heard_now s t _ v at) on (e (ground arith)) h)
      ]
    ]

handle_audio-OwnsFrames :
    (s : ReceiverSession) (d : List ℕ) (t : ℕ) (result : ReceiverSessionResult)
    → IsValid s
    → IsAtTime s t
    → s.state ≡ ReceiverSessionState.streaming
    → (parse_datagram d).header.stream_id ≡ s.active_stream_id
    → OwnsFrames s
    → OwnsFrames (handle_audio s d t result).1
unfolding handle_audio
handle_audio-OwnsFrames s d t result v at on e h =
    let clock = accept_datagram-IsAt s.reassembler d t (ground (arith, v, at)) in
    handle_reassembled-OwnsFrames _ (Reassembler.accept_datagram s.reassembler d t).0 t result
      (ground (arith, v, at, clock)) (ground (arith, at, clock)) on
      (λ complete. accept_datagram-stream s.reassembler d t complete ∙ e) h

-- The handlers of control packets.
module _ (s : ReceiverSession) (p : ParseResult) (t : ℕ) (result : ReceiverSessionResult) where
  handle_stream_start-frames : KeepsOrClears s (handle_stream_start s p t result).1
  unfolding handle_stream_start refuse_control
  handle_stream_start-frames = ground (arith, cleared s)

  handle_stream_stop-frames : KeepsOrClears s (handle_stream_stop s p result).1
  unfolding handle_stream_stop refuse_control
  handle_stream_stop-frames = ground (arith, cleared s)

  handle_heartbeat-frames : KeepsOrClears s (handle_heartbeat s p t result).1
  unfolding handle_heartbeat refuse_control
  handle_heartbeat-frames = ground arith

  handle_error-frames : KeepsOrClears s (handle_error s p t result).1
  unfolding handle_error refuse_control
  handle_error-frames = ground arith

dispatch-OwnsFrames :
    (k : PacketType) (s : ReceiverSession) (d : List ℕ) (t : ℕ) (result : ReceiverSessionResult)
    → IsValid s
    → IsAtTime s t
    → s.state ≡ ReceiverSessionState.streaming
    → (parse_datagram d).header.stream_id ≡ s.active_stream_id
    → OwnsFrames s
    → OwnsFrames (dispatch k s d (parse_datagram d) t result).1
unfolding dispatch refuse_packet_type
dispatch-OwnsFrames PacketType.stream_start s d t result v at on e h = h
dispatch-OwnsFrames PacketType.stream_stop s d t result v at on e h =
    OwnsFrames-of s _ (handle_stream_stop-frames s (parse_datagram d) t result) h
dispatch-OwnsFrames PacketType.heartbeat s d t result v at on e h =
    OwnsFrames-of s _ (handle_heartbeat-frames s (parse_datagram d) t result) h
dispatch-OwnsFrames PacketType.audio s d t result v at on e h =
    handle_audio-OwnsFrames s d t result v at on e h
dispatch-OwnsFrames PacketType.error s d t result v at on e h =
    OwnsFrames-of s _ (handle_error-frames s (parse_datagram d) t result) h
dispatch-OwnsFrames PacketType.receiver_report s d t result v at on e h = h
dispatch-OwnsFrames (PacketType.unlisted n) s d t result v at on e h = h

receive-OwnsFrames :
    (s : ReceiverSession) (d : List ℕ) (t : ℕ) (result : ReceiverSessionResult)
    → IsValid s
    → IsAtTime s t
    → OwnsFrames s
    → OwnsFrames (receive s d (parse_datagram d) t result).1
unfolding receive
receive-OwnsFrames s d t result v at h = elim (Bool-cases (not (Packet.is_none parsed.error))) [
  | inl bad ↦ rw bad h
  | inr good ↦ elim (Bool-cases (is_stream_start parsed.header.type)) [
    | inl start ↦
        rw (good, start) (OwnsFrames-of s _ (handle_stream_start-frames s parsed t result) h)
    | inr other ↦ elim (Bool-cases (not (is_streaming s.state))) [
      | inl idle ↦ rw (good, other, idle) h
      | inr on ↦ elim (Bool-cases (parsed.header.stream_id != s.active_stream_id)) [
        | inl wrong ↦ rw (good, other, on, wrong) h
        | inr own ↦
            rw (good, other, on, own)
              (dispatch-OwnsFrames parsed.header.type s d t result v at (ground arith)
                (ground arith) h)
      ]
    ]
  ]
]
  where
    parsed : ParseResult
    parsed = parse_datagram d

pub accept_datagram-OwnsFrames :
    (s : ReceiverSession) (d : List ℕ) (t : ℕ)
    → t < 2 ^ 64
    → IsValid s
    → OwnsFrames s
    → OwnsFrames (accept_datagram s d t).1
unfolding accept_datagram
accept_datagram-OwnsFrames s d t w v h = elim (Bool-cases (is_past s t)) [
  | inl past ↦ let (e, same) = observe_time-past s t past in rw (e, same) h
  | inr now ↦
      let (v', at, e) = observe_time-now s t w v now in
      rw e (
        receive-OwnsFrames (count_datagram (observe_time s t).1) d t _ (IsValid-counters _ _ v')
          (ground (arith, at)) (OwnsFrames-of s _ (observe_time-frames s t) h))
]

pop_frame-stream : (s : ReceiverSession) → (pop_frame s).1.active_stream_id ≡ s.active_stream_id
unfolding pop_frame
pop_frame-stream s = ground arith

pub pop_frame-OwnsFrames :
    (s : ReceiverSession) → IsValid s → OwnsFrames s → OwnsFrames (pop_frame s).1
pop_frame-OwnsFrames s v h =
    let frames : queued_frames (pop_frame s).1 ≡ (pop_first (queued_frames s)).1 =
      ap (λ r. r.1) (pop_frame-queued_frames s v) in
    rw (pop_frame-stream s, frames) (All-pop_first s.active_stream_id (queued_frames s) h)

pub reset-OwnsFrames : (s : ReceiverSession) → OwnsFrames (reset s)
unfolding reset
reset-OwnsFrames s = no_frames (reset s) (cleared s)
