-- ===== src/Protocol/Session/Refused.antt =====
-- session.cpp: what a refused datagram leaves alone.
use wiretone.Prelude.{ℕ, ◌^◌, ◌<◌, ◌≡◌, ◌≢◌, refl, ◌∙◌, false, not, ◌!=◌, ap, List, arith, if_elim}
use wiretone.Protocol.Packet.{PacketType, ParseResult, parse_datagram}
use wiretone.Protocol.Packet
use wiretone.Protocol.Audio.Types.{AudioFrameError, AudioReassemblyResult}
use wiretone.Protocol.Audio.Reassembler.{Reassembler, expire_incomplete}
use wiretone.Protocol.Audio.Reassembler
use wiretone.Protocol.Audio.InUse.{AreUsedOrNew, IsSettled, advance_time-IsSettled}
use wiretone.Protocol.Audio.Refused.{accept_datagram-refused_in}
use wiretone.Protocol.Session.Types.{
  ReceiverSessionState, ReceiverSessionError, ReceiverSessionResult, ReceiverSession, new,
  is_streaming,
}
use wiretone.Protocol.Session.Handlers.{
  observe_time, observe_expiry, check_liveness, clear_stream_state, advance_time, refuse_control,
  handle_stream_start, handle_stream_stop, handle_heartbeat, handle_error,
}
use wiretone.Protocol.Session.Receive.{
  handle_reassembled, queue_completed, handle_audio, dispatch, receive, refuse_packet_type,
  is_stream_start, count_datagram, accept_datagram,
}
use wiretone.Protocol.Session.Invariant.{IsValid, is_past, observe_time-now}
use wiretone.Protocol.Session.Runs.{Calls, Calls-IsValid}
use wiretone.Protocol.Session.InFlight.{observe_time-AreUsedOrNew, Calls-AreUsedOrNew}

-- What a refused datagram leaves alone: the stream, its frames in flight and its queue, and the
-- time it was last heard of.
pub record HasSameStream (s c : ReceiverSession) : Type 0 where
  pub state : c.state ≡ s.state
  pub active_stream_id : c.active_stream_id ≡ s.active_stream_id
  pub active_format : c.active_format ≡ s.active_format
  pub reassembler : c.reassembler ≡ s.reassembler
  pub frame_queue : c.frame_queue ≡ s.frame_queue
  pub queue_head : c.queue_head ≡ s.queue_head
  pub queue_size : c.queue_size ≡ s.queue_size
  pub last_liveness_time_ms : c.last_liveness_time_ms ≡ s.last_liveness_time_ms
  pub last_sender_monotonic_time_us :
      c.last_sender_monotonic_time_us ≡ s.last_sender_monotonic_time_us

same_stream : (s : ReceiverSession) → HasSameStream s s
same_stream s = record {
  state = refl;
  active_stream_id = refl;
  active_format = refl;
  reassembler = refl;
  frame_queue = refl;
  queue_head = refl;
  queue_size = refl;
  last_liveness_time_ms = refl;
  last_sender_monotonic_time_us = refl;
}

module _ (s : ReceiverSession) (p : ParseResult) (t : ℕ) (result : ReceiverSessionResult)
    (ok : result.error ≡ ReceiverSessionError.none) where
  handle_stream_start-refused :
      (handle_stream_start s p t result).0.error ≢ ReceiverSessionError.none
      → HasSameStream s (handle_stream_start s p t result).1
  unfolding handle_stream_start refuse_control
  handle_stream_start-refused e = ground arith

  handle_stream_stop-refused :
      (handle_stream_stop s p result).0.error ≢ ReceiverSessionError.none
      → HasSameStream s (handle_stream_stop s p result).1
  unfolding handle_stream_stop refuse_control
  handle_stream_stop-refused e = ground arith

  handle_heartbeat-refused :
      (handle_heartbeat s p t result).0.error ≢ ReceiverSessionError.none
      → HasSameStream s (handle_heartbeat s p t result).1
  unfolding handle_heartbeat refuse_control
  handle_heartbeat-refused e = ground arith

  handle_error-refused :
      (handle_error s p t result).0.error ≢ ReceiverSessionError.none
      → HasSameStream s (handle_error s p t result).1
  unfolding handle_error refuse_control
  handle_error-refused e = ground arith

is_streaming-eq :
    (state : ReceiverSessionState)
    → not (is_streaming state) ≡ false
    → state ≡ ReceiverSessionState.streaming
is_streaming-eq state e = ground (arith, e)

-- An answer that leaves the stream alone when it is an error.
abbrev Refuses : ReceiverSession → ReceiverSessionResult × ReceiverSession → Type 0
Refuses s answer = answer.0.error ≢ ReceiverSessionError.none → HasSameStream s answer.1

handle_reassembled-refused :
    (s : ReceiverSession) (audio : AudioReassemblyResult) (t : ℕ) (result : ReceiverSessionResult)
    → result.error ≡ ReceiverSessionError.none
    → (handle_reassembled s audio t result).0.error ≢ ReceiverSessionError.none
    → (audio.error ≢ AudioFrameError.none) × HasSameStream s (handle_reassembled s audio t result).1
unfolding handle_reassembled queue_completed
handle_reassembled-refused s audio t result ok e = ground arith

same_reassembler :
    (s c : ReceiverSession) (r : Reassembler)
    → r ≡ s.reassembler
    → HasSameStream (record s { reassembler = r }) c
    → HasSameStream s c
same_reassembler s c r e h = record {
  state = h.state;
  active_stream_id = h.active_stream_id;
  active_format = h.active_format;
  reassembler = h.reassembler ∙ e;
  frame_queue = h.frame_queue;
  queue_head = h.queue_head;
  queue_size = h.queue_size;
  last_liveness_time_ms = h.last_liveness_time_ms;
  last_sender_monotonic_time_us = h.last_sender_monotonic_time_us;
}

module _ (s : ReceiverSession) (d : List ℕ) (p : ParseResult) (t : ℕ)
    (result : ReceiverSessionResult) (ok : result.error ≡ ReceiverSessionError.none)
    (known : AreUsedOrNew s.reassembler) where
  handle_audio-refused : IsSettled s.reassembler t → Refuses s (handle_audio s d t result)
  unfolding handle_audio
  handle_audio-refused settled e =
      let r = Reassembler.accept_datagram s.reassembler d t in
      let (refused, same) =
        handle_reassembled-refused (record s { reassembler = r.1 }) r.0 t result ok e in
      same_reassembler s _ r.1 (accept_datagram-refused_in s.reassembler d t known settled refused)
        same

  dispatch-refused :
      (k : PacketType) → IsSettled s.reassembler t → Refuses s (dispatch k s d p t result)
  unfolding dispatch refuse_packet_type
  dispatch-refused PacketType.stream_start settled = λ e. ground arith
  dispatch-refused PacketType.stream_stop settled = handle_stream_stop-refused s p t result ok
  dispatch-refused PacketType.heartbeat settled = handle_heartbeat-refused s p t result ok
  dispatch-refused PacketType.audio settled = handle_audio-refused settled
  dispatch-refused PacketType.error settled = handle_error-refused s p t result ok
  dispatch-refused PacketType.receiver_report settled = λ e. ground arith
  dispatch-refused (PacketType.unlisted n) settled = λ e. ground arith

  receive-refused :
      (s.state ≡ ReceiverSessionState.streaming → IsSettled s.reassembler t)
      → Refuses s (receive s d p t result)
  unfolding receive
  receive-refused settled =
      if_elim (Refuses s) (not (Packet.is_none p.error)) (λ _ _. ground (arith, same_stream s))
        (λ _.
          if_elim (Refuses s) (is_stream_start p.header.type)
            (λ _. handle_stream_start-refused s p t result ok)
            (λ _.
              if_elim (Refuses s) (not (is_streaming s.state))
                (λ _ _. ground (arith, same_stream s))
                (λ on.
                  if_elim (Refuses s) (p.header.stream_id != s.active_stream_id)
                    (λ _ _. ground (arith, same_stream s))
                    (λ _. dispatch-refused p.header.type (settled (is_streaming-eq s.state on))))))

accept_datagram-now :
    (s : ReceiverSession) (d : List ℕ) (t : ℕ)
    → (observe_time s t).0.error ≡ ReceiverSessionError.none
    → accept_datagram s d t
      ≡ receive (count_datagram (observe_time s t).1) d (parse_datagram d) t (observe_time s t).0
unfolding accept_datagram
accept_datagram-now s d t ok = rw ok refl

uncounted : (s c : ReceiverSession) → HasSameStream (count_datagram s) c → HasSameStream s c
uncounted s c h = record {
  state = h.state;
  active_stream_id = h.active_stream_id;
  active_format = h.active_format;
  reassembler = h.reassembler;
  frame_queue = h.frame_queue;
  queue_head = h.queue_head;
  queue_size = h.queue_size;
  last_liveness_time_ms = h.last_liveness_time_ms;
  last_sender_monotonic_time_us = h.last_sender_monotonic_time_us;
}

-- A stream that goes on at a time that is not past has a reassembler that is at it.
observe_time-IsSettled :
    (s : ReceiverSession) (t : ℕ)
    → IsValid s
    → is_past s t ≡ false
    → (observe_time s t).1.state ≡ ReceiverSessionState.streaming
    → IsSettled (observe_time s t).1.reassembler t
unfolding observe_time observe_expiry check_liveness clear_stream_state expire_incomplete
observe_time-IsSettled s t v now on =
    ground (arith, advance_time-IsSettled s.reassembler t (ground (arith, v)))

-- A datagram that a session answers with an error, after any calls from a new one, at a time that
-- is not past changes nothing of the stream, its frames in flight and its queue that the passing of
-- the time to it does not change, and does not count as hearing of the stream.
pub accept_datagram-refused :
    (s : ReceiverSession) (d : List ℕ) (t : ℕ)
    → t < 2 ^ 64
    → Calls new s
    → is_past s t ≡ false
    → (accept_datagram s d t).0.error ≢ ReceiverSessionError.none
    → HasSameStream (advance_time s t).1 (accept_datagram s d t).1
unfolding advance_time
accept_datagram-refused s d t w calls now e =
    let v = Calls-IsValid s calls in
    let known = observe_time-AreUsedOrNew s t (Calls-AreUsedOrNew s calls) in
    let (_, _, ok) = observe_time-now s t w v now in
    let accepts = accept_datagram-now s d t ok in
    let refused =
      receive-refused (count_datagram (observe_time s t).1) d (parse_datagram d) t _ ok known
        (observe_time-IsSettled s t v now) (λ k. e (ap (λ r. r.0.error) accepts ∙ k)) in
    uncounted (observe_time s t).1 _ (rw accepts refused)
