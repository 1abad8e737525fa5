-- ===== src/Protocol/Session/Preserved.antt =====
-- session.cpp: the handlers keep what holds between two calls.
use wiretone.Prelude.{ℕ, ◌^◌, ◌<◌, ◌≡◌, ◌≢◌, not, List, arith, inl, inr, Bool-cases}
use wiretone.Protocol.Packet.{PacketType, ParseResult, ProtocolError, parse_datagram}
use wiretone.Protocol.Packet.Parsed.{parse_datagram-IsParsed}
use wiretone.Protocol.Packet.Validity.{accepted_common}
use wiretone.Protocol.Control.Types.{ControlPayloadError}
use wiretone.Protocol.Control.Start.{validate_stream_start, parse_stream_start}
use wiretone.Protocol.Audio.Types.{AudioFrameError, AudioReassemblyResult}
use wiretone.Protocol.Audio.Types as Audio
use wiretone.Protocol.Audio.Reassembler
use wiretone.Protocol.Audio.Clock.{accept_datagram-IsAt}
use wiretone.Protocol.Session.Types.{
  ReceiverSessionState, ReceiverSessionResult, ReceiverSession, ReceiverSessionCounters,
}
use wiretone.Protocol.Session.Handlers.{
  clear_frame_queue, refuse_control, observe_time, handle_stream_start, handle_stream_stop,
  handle_heartbeat, handle_error,
}
use wiretone.Protocol.Session.Receive.{
  clear_if_discontinuous, queue_completed, handle_reassembled, handle_audio, dispatch, receive,
  refuse_packet_type, count_datagram, accept_datagram,
}
use wiretone.Protocol.Session.Invariant.{
  IsValid, IsAtTime, is_past, clear_stream_state-IsCleared, observe_time-now, observe_time-past,
  enqueue_frame-IsValid,
}

parse_stream_start-validate :
    (payload : List ℕ)
    → (parse_stream_start payload).error ≡ ControlPayloadError.none
    → validate_stream_start (parse_stream_start payload).value ≡ ControlPayloadError.none
unfolding parse_stream_start
parse_stream_start-validate payload e = ground arith

module _ (s : ReceiverSession) (p : ParseResult) (t : ℕ) (result : ReceiverSessionResult)
    (v : IsValid s) (at : IsAtTime s t) where
  handle_stream_start-IsValid :
      p.header.stream_id ≢ 0 → IsValid (handle_stream_start s p t result).1
  unfolding handle_stream_start refuse_control
  handle_stream_start-IsValid id =
      ground (arith, v, at, clear_stream_state-IsCleared s, parse_stream_start-validate p.payload)

  handle_stream_stop-IsValid : IsValid (handle_stream_stop s p result).1
  unfolding handle_stream_stop refuse_control
  handle_stream_stop-IsValid = ground (arith, v, at, clear_stream_state-IsCleared s)

  handle_heartbeat-IsValid : IsValid (handle_heartbeat s p t result).1
  unfolding handle_heartbeat refuse_control
  handle_heartbeat-IsValid = ground (arith, v, at)

  handle_error-IsValid : IsValid (handle_error s p t result).1
  unfolding handle_error refuse_control
  handle_error-IsValid = ground (arith, v, at)

pub clear_if_discontinuous-IsValid :
    (s : ReceiverSession) (flags : ℕ)
    → IsValid s
    → s.state ≡ ReceiverSessionState.streaming
    → IsValid (clear_if_discontinuous s flags)
      × ((clear_if_discontinuous s flags).state ≡ ReceiverSessionState.streaming)
unfolding clear_if_discontinuous clear_frame_queue
clear_if_discontinuous-IsValid s flags v on = ground (arith, v)

pub IsValid-counters :
    (s : ReceiverSession) (c : ReceiverSessionCounters)
    → IsValid s
    → IsValid (record s { counters = c })
IsValid-counters s c v = ground (arith, v)

queue_completed-IsValid :
    (s : ReceiverSession) (audio : AudioReassemblyResult) (result : ReceiverSessionResult)
    → IsValid s
    → s.state ≡ ReceiverSessionState.streaming
    → IsValid (queue_completed s audio result).1
unfolding queue_completed
queue_completed-IsValid s audio result v on =
    let (w, on') = clear_if_discontinuous-IsValid s audio.frame.flags v on in
    IsValid-counters _ _
      (enqueue_frame-IsValid (clear_if_discontinuous s audio.frame.flags) audio.frame w on')

pub heard_now :
    (s : ReceiverSession) (t : ℕ) (c : ReceiverSessionCounters)
    → IsValid s
    → IsAtTime s t
    → IsValid (record s { counters = c; last_liveness_time_ms = t })
heard_now s t c v at = ground (arith, v, at)

pub handle_reassembled-IsValid :
    (s : ReceiverSession) (audio : AudioReassemblyResult) (t : ℕ) (result : ReceiverSessionResult)
    → IsValid s
    → IsAtTime s t
    → s.state ≡ ReceiverSessionState.streaming
    → IsValid (handle_reassembled s audio t result).1
unfolding handle_reassembled
handle_reassembled-IsValid s audio t result v at on =
    elim (Bool-cases (not (Audio.is_none audio.error))) [
      | inl bad ↦ rw bad (IsValid-counters s _ v)
      | inr good ↦ elim (Bool-cases (not audio.frame_completed)) [
        | inl partial ↦ rw (good, partial) (heard_now s t _ v at)
        | inr complete ↦
            rw (good, complete) (queue_completed-IsValid _ audio _ (heard_now s t _ v at) on)
      ]
    ]

handle_audio-IsValid :
    (s : ReceiverSession) (d : List ℕ) (t : ℕ) (result : ReceiverSessionResult)
    → IsValid s
    → IsAtTime s t
    → s.state ≡ ReceiverSessionState.streaming
    → IsValid (handle_audio s d t result).1
unfolding handle_audio
handle_audio-IsValid s d t result v at on =
    let clock = accept_datagram-IsAt s.reassembler d t (ground (arith, v, at)) in
    handle_reassembled-IsValid _ (Reassembler.accept_datagram s.reassembler d t).0 t result
      (ground (arith, v, at, clock)) (ground (arith, at, clock)) on

-- The kinds of packet that the session looks at while it streams.
dispatch-IsValid :
    (k : PacketType) (s : ReceiverSession) (d : List ℕ) (p : ParseResult) (t : ℕ)
    (result : ReceiverSessionResult)
    → IsValid s
    → IsAtTime s t
    → s.state ≡ ReceiverSessionState.streaming
    → IsValid (dispatch k s d p t result).1
unfolding dispatch refuse_packet_type
dispatch-IsValid PacketType.stream_start s d p t result v at on = IsValid-counters s _ v
dispatch-IsValid PacketType.stream_stop s d p t result v at on =
    handle_stream_stop-IsValid s p t result v at
dispatch-IsValid PacketType.heartbeat s d p t result v at on =
    handle_heartbeat-IsValid s p t result v at
dispatch-IsValid PacketType.audio s d p t result v at on = handle_audio-IsValid s d t result v at on
dispatch-IsValid PacketType.error s d p t result v at on = handle_error-IsValid s p t result v at
dispatch-IsValid PacketType.receiver_report s d p t result v at on = IsValid-counters s _ v
dispatch-IsValid (PacketType.unlisted n) s d p t result v at on = IsValid-counters s _ v

receive-IsValid :
    (s : ReceiverSession) (d : List ℕ) (p : ParseResult) (t : ℕ) (result : ReceiverSessionResult)
    → IsValid s
    → IsAtTime s t
    → (p.error ≡ ProtocolError.none → p.header.stream_id ≢ 0)
    → IsValid (receive s d p t result).1
unfolding receive
receive-IsValid s d p t result v at id = ground (
  arith,
  handle_stream_start-IsValid s p t result v at,
  IsValid-counters s,
  v,
  dispatch-IsValid p.header.type s d p t result v at,
)

parsed_id :
    (d : List ℕ)
    → (parse_datagram d).error ≡ ProtocolError.none
    → (parse_datagram d).header.stream_id ≢ 0
parsed_id d e = (accepted_common _ (parse_datagram-IsParsed d e).valid).1

-- Every call of `accept_datagram` keeps what holds between two calls, whatever the datagram and
-- the time.
pub accept_datagram-IsValid :
    (s : ReceiverSession) (d : List ℕ) (t : ℕ)
    → t < 2 ^ 64
    → IsValid s
    → IsValid (accept_datagram s d t).1
unfolding accept_datagram
accept_datagram-IsValid s d t w v = elim (Bool-cases (is_past s t)) [
  | inl past ↦ let (e, same) = observe_time-past s t past in rw (e, same) v
  | inr now ↦
      let (v', at, e) = observe_time-now s t w v now in
      rw e (
        receive-IsValid (count_datagram (observe_time s t).1) d (parse_datagram d) t _
          (IsValid-counters _ _ v') (ground (arith, at)) (parsed_id d))
]
