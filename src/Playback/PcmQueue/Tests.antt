-- ===== src/Playback/PcmQueue/Tests.antt =====
-- A queue with one frame of silence.
use wiretone.Prelude.{
  ◌*◌, ◌++◌, ◌-◌, take, drop, ℕ, ◌+◌, ◌≡◌, ◌↔◌, refl, false, ◌&&◌, List, [], ◌∷◌, ltb, ◌!=◌,
  if◌then◌else◌, ◌%◌, ◌/◌, arith, replicate, length, length-replicate, All-replicate,
}
use wiretone.Playback.PcmQueue.Types.{
  PcmPlaybackFrameView, PcmPlaybackQueueError, PcmPlaybackQueue, empty_slot, new,
}
use wiretone.Playback.PcmQueue.Enqueue.{enqueue}
use wiretone.Playback.PcmQueue.Render.{Rendering, render, render_loop, begin_render}
use wiretone.Playback.PcmQueue.Control.{discard_pending}
use wiretone.Playback.PcmQueue.Pending.{
  pending, HasSamples, IsValid, empty_slot-HasSamples, new-IsValid,
}
use wiretone.Playback.PcmQueue.Appending.{CanEnqueue, enqueue-iff-CanEnqueue}
use wiretone.Playback.PcmQueue.Playing.{Renders, render-Renders}
use wiretone.Playback.PcmQueue.Counting.{discard_pending-empty}
use wiretone.Playback.PcmQueue.Interleaving.{interrupt}
use wiretone.Playback.PcmQueue.Between.{left_samples}
use wiretone.Playback.PcmQueue.Bounds.{
  Rounds, accepting, Rounds-output, GoesOn, start, CopiesWithin, Rounds-CopiesWithin,
  render_loop-stops,
}
use wiretone.Playback.PcmQueue.Refinement.{
  QueueCall, perform_calls, specified_calls, perform_calls-refines,
}

abbrev frame : PcmPlaybackFrameView
frame = record { samples = replicate 1920 7; sequence_number = 1; flags = 0 }

abbrev output : List ℕ
output = 5 ∷ (5 ∷ [])

-- The first slot is queued.
abbrev filled : PcmPlaybackQueue
filled = record new { write_position = 1 }

filled-IsValid : IsValid filled
unfolding new
filled-IsValid = record {
  slot_count = length-replicate 32 empty_slot;
  whole = All-replicate HasSamples 32 empty_slot empty_slot-HasSamples;
  write_width = omega arith;
  read_width = omega arith;
  few = omega arith;
  offset = omega arith;
  started = λ _. refl;
}

abbrev calls : List QueueCall
calls =
    QueueCall.enqueuing frame
    ∷ (QueueCall.rendering output 1 ∷ (QueueCall.discarding ∷ (QueueCall.resetting ∷ [])))

perform_calls-refines_example :
    IsValid (perform_calls calls new).1
    × ((perform_calls calls new).0 ≡ (specified_calls calls (pending new)).0)
    × (pending (perform_calls calls new).1 ≡ (specified_calls calls (pending new)).1)
perform_calls-refines_example =
    perform_calls-refines calls new new-IsValid (omega arith, (omega arith, (tt, (tt, tt))))

render-Renders_example :
    ((render filled output 1).0.error ≡ PcmPlaybackQueueError.none)
    × Renders 1
        (pending filled)
        (render filled output 1).2
        (render filled output 1).1
        (render filled output 1).0.queue_frames
        (render filled output 1).0.silence_frames
render-Renders_example =
    render-Renders filled output 1 filled-IsValid (omega arith) (omega arith) refl

enqueue-iff-CanEnqueue_example :
    ((enqueue new frame).0.error ≡ PcmPlaybackQueueError.none) ↔ CanEnqueue new frame
enqueue-iff-CanEnqueue_example = enqueue-iff-CanEnqueue new frame (omega arith)

abbrev begun : Rendering
begun = begin_render filled output 1

can_enqueue : CanEnqueue filled frame
unfolding new
can_enqueue = record {
  whole = length-replicate {A = ℕ} 1920 7;
  numbered = omega arith;
  flags = omega arith;
  room = omega arith;
}

takes_frame : (enqueue filled frame).0.error ≡ PcmPlaybackQueueError.none
takes_frame = (enqueue-iff-CanEnqueue filled frame (omega arith)).1 can_enqueue

-- The other thread enqueues before the first round.
rounds : Rounds 1 begun ([] ++ frame.samples) (interrupt begun frame)
rounds = accepting frame start (omega arith) takes_frame

Rounds-output_example :
    ((interrupt begun frame).output
      ≡ take (0 * 2) (pending filled ++ ([] ++ frame.samples)) ++ replicate ((1 - 0) * 2) 0)
    × (left_samples (interrupt begun frame)
        ≡ drop (0 * 2) (pending filled ++ ([] ++ frame.samples)))
Rounds-output_example =
    Rounds-output filled output ([] ++ frame.samples) 1 (interrupt begun frame) filled-IsValid
      (omega arith) refl rounds

goes_on : GoesOn 1 begun
unfolding new
goes_on = record { not_full = omega arith; not_empty = omega arith }

Rounds-CopiesWithin_example : CopiesWithin 1 begun
Rounds-CopiesWithin_example =
    Rounds-CopiesWithin filled output [] 1 begun filled-IsValid (omega arith) refl start goes_on

render_loop-stops_example :
    (ltb (render_loop 1 1 (begin_render filled output 1)).output_frame_offset 1
      && (render_loop 1 1 (begin_render filled output 1)).read
        != (render_loop 1 1 (begin_render filled output 1)).queue.write_position)
    ≡ false
render_loop-stops_example = render_loop-stops filled output 1 filled-IsValid (omega arith) refl

discard_pending-empty_example :
    IsValid (discard_pending filled).1
    × (pending (discard_pending filled).1 ≡ [])
    × ((discard_pending filled).0.discarded_logical_frames
        ≡ (length (pending filled) + 1919) / 1920)
    × ((discard_pending filled).0.discarded_partial_frames
        ≡ (if length (pending filled) % 1920 != 0 then 1 else 0))
discard_pending-empty_example = discard_pending-empty filled filled-IsValid
