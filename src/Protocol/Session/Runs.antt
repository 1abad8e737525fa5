-- ===== src/Protocol/Session/Runs.antt =====
-- session.cpp: the session under any sequence of calls of its public operations.
use wiretone.Prelude.{ℕ, ◌^◌, ◌≤◌, ◌<◌, List, length, length-window}
use wiretone.Protocol.Audio.Types.{empty_frame}
use wiretone.Protocol.Session.Types.{ReceiverSession, new}
use wiretone.Protocol.Session.Handlers.{pop_frame, reset, advance_time}
use wiretone.Protocol.Session.Receive.{accept_datagram}
use wiretone.Protocol.Session.Invariant.{
  IsValid, new-IsValid, observe_time-IsValid, pop_frame-IsValid, reset-IsValid,
}
use wiretone.Protocol.Session.Preserved.{accept_datagram-IsValid}
use wiretone.Protocol.Session.Queue.{queued_frames}
use wiretone.Protocol.Session.Ownership.{
  OwnsFrames, OwnsFrames-of, observe_time-frames, pop_frame-OwnsFrames, reset-OwnsFrames,
  accept_datagram-OwnsFrames,
}

-- A call of one operation takes a session to the session after it. The times are any 64-bit
-- ones: nothing says that they rise.
pub data Calls : ReceiverSession → ReceiverSession → Type 0 where
  done : (s : ReceiverSession) → Calls s s
  accepted :
      (s c : ReceiverSession) (d : List ℕ) (t : ℕ)
      → t < 2 ^ 64
      → Calls s c
      → Calls s (accept_datagram c d t).1
  advanced : (s c : ReceiverSession) (t : ℕ) → t < 2 ^ 64 → Calls s c → Calls s (advance_time c t).1
  popped : (s c : ReceiverSession) → Calls s c → Calls s (pop_frame c).1
  restarted : (s c : ReceiverSession) → Calls s c → Calls s (reset c)

-- A property that every operation keeps holds after every sequence of calls.
invariant_calls :
    (s c : ReceiverSession) → Calls s c → IsValid s × OwnsFrames s → IsValid c × OwnsFrames c
unfolding advance_time
invariant_calls s c (done _) h = h
invariant_calls s c (accepted _ b d t w r) h =
    let (v, own) = invariant_calls s b r h in
    (accept_datagram-IsValid b d t w v, accept_datagram-OwnsFrames b d t w v own)
invariant_calls s c (advanced _ b t w r) h =
    let (v, own) = invariant_calls s b r h in
    (observe_time-IsValid b t w v, OwnsFrames-of b _ (observe_time-frames b t) own)
invariant_calls s c (popped _ b r) h =
    let (v, own) = invariant_calls s b r h in (pop_frame-IsValid b v, pop_frame-OwnsFrames b v own)
invariant_calls s c (restarted _ b r) h =
    let (v, own) = invariant_calls s b r h in (reset-IsValid b v, reset-OwnsFrames b)

new-OwnsFrames : OwnsFrames new
unfolding new
new-OwnsFrames = tt

-- A session that any sequence of calls has reached from a new one is valid: its indices are in
-- range, it has a stream with a supported format when it streams and no frame when it is idle, and
-- its last call came less than 3 s after it last heard of its stream.
pub Calls-IsValid : (c : ReceiverSession) → Calls new c → IsValid c
Calls-IsValid c r = (invariant_calls new c r (new-IsValid, new-OwnsFrames)).0

-- After any sequence of calls of a new session, every frame in the queue is of the active stream,
-- and there are at most eight.
pub Calls-OwnsFrames :
    (c : ReceiverSession) → Calls new c → OwnsFrames c × (length (queued_frames c) ≤ 8)
Calls-OwnsFrames c r =
    let (v, own) = invariant_calls new c r (new-IsValid, new-OwnsFrames) in
    let few = v.size_in in
    (own, rw (length-window 8 empty_frame c.frame_queue c.queue_head c.queue_size) few)
