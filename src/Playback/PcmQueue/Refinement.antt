-- ===== src/Playback/PcmQueue/Refinement.antt =====
-- pcm_queue.hpp: the queue's calls, one after another, against a list of the samples that wait.
use wiretone.Prelude.{
  ℕ, ◌*◌, ◌^◌, ◌<◌, ◌≡◌, refl, sym, ap, ap₂, ◌∙◌, Bool, true, Bool-cases, inl, inr, List, [], ◌∷◌,
  ◌++◌, ◌&&◌, ◌||◌, ltb, leb, ◌==◌, ◌!=◌, if◌then◌else◌, arith, All, length, take, drop, replicate,
}
use mathlib.Core.Bool.{false≢true}
use wiretone.Playback.PcmQueue.Types.{PcmPlaybackFrameView, PcmPlaybackQueue}
use wiretone.Playback.PcmQueue.Enqueue.{enqueue}
use wiretone.Playback.PcmQueue.Render.{render}
use wiretone.Playback.PcmQueue.Control.{discard_pending, reset}
use wiretone.Playback.PcmQueue.Pending.{pending, IsValid}
use wiretone.Playback.PcmQueue.Appending.{
  CanEnqueue, accepted, accepts, enqueue-pending, enqueue-refused,
}
use wiretone.Playback.PcmQueue.Playing.{render-Renders}
use wiretone.Playback.PcmQueue.Counting.{length-pending, discard_pending-empty, reset-empty}

pub data QueueCall : Type 0 where
  enqueuing : PcmPlaybackFrameView → QueueCall
  rendering : List ℕ → ℕ → QueueCall
  discarding resetting : QueueCall

-- The 32-bit arguments are in range.
abbrev pub Fits : QueueCall → Type 0
Fits (enqueuing frame) = frame.flags < 2 ^ 32
Fits (rendering output n) = n < 2 ^ 32
Fits discarding = Unit
Fits resetting = Unit

-- A call of the queue: the output that it writes, and the queue after it.
unfoldable pub perform_call : QueueCall → PcmPlaybackQueue → List ℕ × PcmPlaybackQueue
perform_call (enqueuing frame) q = ([], (enqueue q frame).1)
perform_call (rendering output n) q = ((render q output n).1, (render q output n).2)
perform_call discarding q = ([], (discard_pending q).1)
perform_call resetting q = ([], reset q)

-- The frame is accepted where at most 31 slots are taken.
abbrev pub is_accepted : List ℕ → PcmPlaybackFrameView → Bool
is_accepted waiting frame =
    length frame.samples == 1920
    && frame.sequence_number != 0
    && ltb frame.flags 2
    && leb (length waiting) (31 * 1920)

-- The same call on the list of the samples that wait.
unfoldable pub specified_call : QueueCall → List ℕ → List ℕ × List ℕ
specified_call (enqueuing frame) waiting =
    ([], if is_accepted waiting frame then waiting ++ frame.samples else waiting)
specified_call (rendering output n) waiting =
    if n == 0 || length output != n * 2
    then (output, waiting)
    else (take (n * 2) (waiting ++ replicate (n * 2) 0), drop (n * 2) waiting)
specified_call discarding waiting = ([], [])
specified_call resetting waiting = ([], [])

-- The outputs of calls in a row, and the queue after them.
unfoldable pub perform_calls : List QueueCall → PcmPlaybackQueue → List (List ℕ) × PcmPlaybackQueue
perform_calls [] q = ([], q)
perform_calls (c ∷ calls) q =
    let (output, next) = perform_call c q in
    let (outputs, last) = perform_calls calls next in (output ∷ outputs, last)

unfoldable pub specified_calls : List QueueCall → List ℕ → List (List ℕ) × List ℕ
specified_calls [] waiting = ([], waiting)
specified_calls (c ∷ calls) waiting =
    let (output, next) = specified_call c waiting in
    let (outputs, last) = specified_calls calls next in (output ∷ outputs, last)

-- The list's test of a frame is the queue's.
CanEnqueue-is_accepted :
    (q : PcmPlaybackQueue) (frame : PcmPlaybackFrameView)
    → IsValid q
    → CanEnqueue q frame
    → is_accepted (pending q) frame ≡ true
CanEnqueue-is_accepted q frame v h =
    let o = v.offset in
    let a = h.whole in
    let b = h.numbered in let c = h.flags in let d = h.room in ground (arith, length-pending q v)

is_accepted-CanEnqueue :
    (q : PcmPlaybackQueue) (frame : PcmPlaybackFrameView)
    → IsValid q
    → is_accepted (pending q) frame ≡ true
    → CanEnqueue q frame
is_accepted-CanEnqueue q frame v h =
    let o = v.offset in let s = v.started in ground (arith, length-pending q v)

-- What a call owes to the list: the same output, and a queue in which the same samples wait.
pub record Agrees (call : List ℕ × PcmPlaybackQueue) (specified : List ℕ × List ℕ) : Type 0 where
  pub valid : IsValid call.1
  pub output : call.0 ≡ specified.0
  pub waiting : pending call.1 ≡ specified.1

-- The count of dropped frames is of no account.
dropped-IsValid :
    (q : PcmPlaybackQueue) (d : ℕ) → IsValid q → IsValid (record q { dropped_logical_frames = d })
dropped-IsValid q d v = record {
  slot_count = v.slot_count;
  whole = v.whole;
  write_width = v.write_width;
  read_width = v.read_width;
  few = v.few;
  offset = v.offset;
  started = v.started;
}

enqueuing-Agrees :
    (q : PcmPlaybackQueue) (frame : PcmPlaybackFrameView)
    → IsValid q
    → frame.flags < 2 ^ 32
    → Agrees (perform_call (enqueuing frame) q) (specified_call (enqueuing frame) (pending q))
unfolding perform_call specified_call
enqueuing-Agrees q frame v w = elim (Bool-cases (is_accepted (pending q) frame)) [
  | inl taken ↦
      let h = is_accepted-CanEnqueue q frame v taken in
      let (valid, appended) = enqueue-pending q frame w v ((accepted q frame w h).0) in
      rw taken (record { valid = valid; output = refl; waiting = appended })
  | inr turned_down ↦
      let kept = enqueue-refused q frame (λ e.
        absurd (
          false≢true (sym turned_down ∙ CanEnqueue-is_accepted q frame v (accepts q frame w e)))) in
      rw turned_down (record {
        valid = rw kept (dropped-IsValid q (enqueue q frame).1.dropped_logical_frames v);
        output = refl;
        waiting = ap pending kept;
      })
]

-- A call that `render` refuses leaves the output and the queue.
render-refused :
    (q : PcmPlaybackQueue) (output : List ℕ) (n : ℕ)
    → (n == 0 || length output != n * 2) ≡ true
    → ((render q output n).1 ≡ output) × ((render q output n).2 ≡ q)
unfolding render
render-refused q output n wrong = ground (arith, wrong)

rendering-Agrees :
    (q : PcmPlaybackQueue) (output : List ℕ) (n : ℕ)
    → IsValid q
    → n < 2 ^ 32
    → Agrees (perform_call (rendering output n) q) (specified_call (rendering output n) (pending q))
unfolding perform_call specified_call
rendering-Agrees q output n v w = elim (Bool-cases (n == 0 || length output != n * 2)) [
  | inl wrong ↦
      let (same_output, same) = render-refused q output n wrong in
      rw wrong (record { valid = rw same v; output = same_output; waiting = ap pending same })
  | inr right ↦
      let h = (render-Renders q output n v (ground (arith, right)) w (ground (arith, right))).1 in
      rw right (record { valid = h.valid; output = h.output_samples; waiting = h.waiting })
]

perform_call-Agrees :
    (c : QueueCall) (q : PcmPlaybackQueue)
    → IsValid q
    → Fits c
    → Agrees (perform_call c q) (specified_call c (pending q))
unfolding perform_call specified_call
perform_call-Agrees (enqueuing frame) q v fits = enqueuing-Agrees q frame v fits
perform_call-Agrees (rendering output n) q v fits = rendering-Agrees q output n v fits
perform_call-Agrees discarding q v fits =
    let (valid, empty, _, _) = discard_pending-empty q v in
    record { valid = valid; output = refl; waiting = empty }
perform_call-Agrees resetting q v fits =
    let (valid, empty) = reset-empty q v in record { valid = valid; output = refl; waiting = empty }

-- Calls in a row on a valid queue leave it valid. They write the outputs that they write on the
-- list of the samples that wait, and leave the same samples waiting.
pub perform_calls-refines :
    (calls : List QueueCall) (q : PcmPlaybackQueue)
    → IsValid q
    → All Fits calls
    → IsValid (perform_calls calls q).1
      × ((perform_calls calls q).0 ≡ (specified_calls calls (pending q)).0)
      × (pending (perform_calls calls q).1 ≡ (specified_calls calls (pending q)).1)
unfolding perform_calls specified_calls
perform_calls-refines [] q v fits = (v, refl, refl)
perform_calls-refines (c ∷ calls) q v fits =
    let h = perform_call-Agrees c q v fits.0 in
    let (valid, outputs, waiting) =
      perform_calls-refines calls (perform_call c q).1 h.valid fits.1 in
    (
      valid,
      ap₂ ◌∷◌ h.output (outputs ∙ ap (λ (w : List ℕ). (specified_calls calls w).0) h.waiting),
      waiting ∙ ap (λ (w : List ℕ). (specified_calls calls w).1) h.waiting,
    )
