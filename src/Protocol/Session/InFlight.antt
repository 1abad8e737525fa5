-- ===== src/Protocol/Session/InFlight.antt =====
-- session.cpp: the slots of the session's reassembler stay in use or new.
use wiretone.Prelude.{ℕ, List, arith}
use wiretone.Protocol.Packet.{PacketType, ParseResult, parse_datagram}
use wiretone.Protocol.Audio.Types.{AudioReassemblyResult}
use wiretone.Protocol.Audio.Reassembler.{expire_incomplete}
use wiretone.Protocol.Audio.InUse.{AreUsedOrNew}
use wiretone.Protocol.Audio.Refused.{
  advance_time-AreUsedOrNew, accept_datagram-AreUsedOrNew, reset-AreUsedOrNew,
}
use wiretone.Protocol.Session.Types.{ReceiverSessionResult, ReceiverSession, new}
use wiretone.Protocol.Session.Handlers.{
  clear_frame_queue, clear_stream_state, observe_time, observe_expiry, check_liveness, drop_oldest,
  enqueue_frame, pop_frame, reset, advance_time, refuse_control, handle_stream_start,
  handle_stream_stop, handle_heartbeat, handle_error,
}
use wiretone.Protocol.Session.Receive.{
  clear_if_discontinuous, handle_reassembled, queue_completed, handle_audio, dispatch, receive,
  refuse_packet_type, count_datagram, accept_datagram,
}
use wiretone.Protocol.Session.Runs.{Calls, done, accepted, advanced, popped, restarted}

-- The passing of time keeps them so.
pub observe_time-AreUsedOrNew :
    (s : ReceiverSession) (t : ℕ)
    → AreUsedOrNew s.reassembler
    → AreUsedOrNew (observe_time s t).1.reassembler
unfolding observe_time observe_expiry check_liveness clear_stream_state expire_incomplete
observe_time-AreUsedOrNew s t h =
    ground (arith, advance_time-AreUsedOrNew s.reassembler t h, reset-AreUsedOrNew)

handle_reassembled-AreUsedOrNew :
    (s : ReceiverSession) (audio : AudioReassemblyResult) (t : ℕ) (result : ReceiverSessionResult)
    → AreUsedOrNew s.reassembler
    → AreUsedOrNew (handle_reassembled s audio t result).1.reassembler
unfolding handle_reassembled queue_completed enqueue_frame drop_oldest clear_if_discontinuous
    clear_frame_queue
handle_reassembled-AreUsedOrNew s audio t result h = ground arith

dispatch-AreUsedOrNew :
    (k : PacketType) (s : ReceiverSession) (d : List ℕ) (p : ParseResult) (t : ℕ)
    (result : ReceiverSessionResult)
    → AreUsedOrNew s.reassembler
    → AreUsedOrNew (dispatch k s d p t result).1.reassembler
unfolding dispatch refuse_packet_type handle_stream_stop handle_heartbeat handle_error
    refuse_control handle_audio clear_stream_state
dispatch-AreUsedOrNew PacketType.audio s d p t result h =
    handle_reassembled-AreUsedOrNew _ _ t result (accept_datagram-AreUsedOrNew s.reassembler d t h)
dispatch-AreUsedOrNew PacketType.stream_stop s d p t result h = ground (arith, reset-AreUsedOrNew)
dispatch-AreUsedOrNew PacketType.heartbeat s d p t result h = ground arith
dispatch-AreUsedOrNew PacketType.error s d p t result h = ground arith
dispatch-AreUsedOrNew PacketType.stream_start s d p t result h = h
dispatch-AreUsedOrNew PacketType.receiver_report s d p t result h = h
dispatch-AreUsedOrNew (PacketType.unlisted n) s d p t result h = h

receive-AreUsedOrNew :
    (s : ReceiverSession) (d : List ℕ) (p : ParseResult) (t : ℕ) (result : ReceiverSessionResult)
    → AreUsedOrNew s.reassembler
    → AreUsedOrNew (receive s d p t result).1.reassembler
unfolding receive handle_stream_start refuse_control clear_stream_state
receive-AreUsedOrNew s d p t result h =
    ground (arith, reset-AreUsedOrNew, dispatch-AreUsedOrNew p.header.type s d p t result h)

accept_datagram-AreUsedOrNew_lem :
    (s : ReceiverSession) (d : List ℕ) (t : ℕ)
    → AreUsedOrNew s.reassembler
    → AreUsedOrNew (accept_datagram s d t).1.reassembler
unfolding accept_datagram
accept_datagram-AreUsedOrNew_lem s d t h =
    let after = observe_time-AreUsedOrNew s t h in
    ground (
      arith,
      after,
      receive-AreUsedOrNew (count_datagram (observe_time s t).1) d (parse_datagram d) t
          (observe_time s t).0 after,
    )

kept_calls :
    (s c : ReceiverSession) → Calls s c → AreUsedOrNew s.reassembler → AreUsedOrNew c.reassembler
unfolding advance_time pop_frame reset clear_stream_state
kept_calls s c (done _) h = h
kept_calls s c (accepted _ b d t w r) h =
    accept_datagram-AreUsedOrNew_lem b d t (kept_calls s b r h)
kept_calls s c (advanced _ b t w r) h = observe_time-AreUsedOrNew b t (kept_calls s b r h)
kept_calls s c (popped _ b r) h = let k = kept_calls s b r h in ground (arith, k)
kept_calls s c (restarted _ b r) h = reset-AreUsedOrNew

pub Calls-AreUsedOrNew : (c : ReceiverSession) → Calls new c → AreUsedOrNew c.reassembler
unfolding new
Calls-AreUsedOrNew c r = kept_calls new c r reset-AreUsedOrNew
