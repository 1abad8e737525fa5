-- ===== src/Protocol/Session/Queue.antt =====
-- session.cpp: the queue of completed frames, seen as a list with the oldest frame first.
use mathlib.Core.Option.{Option, none, some}
use wiretone.Prelude.{
  ℕ, zero, suc, ◌+◌, ◌-◌, ◌%◌, ◌^◌, ◌≤◌, ◌<◌, ◌≡◌, ◌≢◌, refl, ◌∙◌, true, false, List, [], ◌∷◌, ◌++◌,
  arith, leb, ◌==◌, length, length-window, get_or, set, get_or-set_self, window, window-congruent,
  window-last, window-set, inl, inr, Bool-cases, if◌then◌else◌,
}
use wiretone.Protocol.Audio.Types.{ReassembledAudioFrame, empty_frame}
use wiretone.Protocol.Session.Types.{ReceiverSession}
use wiretone.Protocol.Session.Handlers.{drop_oldest, enqueue_frame, pop_frame}
use wiretone.Protocol.Session.Invariant.{IsValid, drop_oldest-IsValid, room}

-- The frames in the queue.
abbrev pub queued_frames : ReceiverSession → List ReassembledAudioFrame
queued_frames s = window 8 empty_frame s.frame_queue s.queue_head s.queue_size

-- The list after a frame at its end, of at most eight frames.
abbrev pub push_bounded :
    List ReassembledAudioFrame → ReassembledAudioFrame → List ReassembledAudioFrame
push_bounded [] f = f ∷ []
push_bounded (oldest ∷ fs) f =
    if leb 8 (length (oldest ∷ fs)) then fs ++ (f ∷ []) else (oldest ∷ fs) ++ (f ∷ [])

-- The list's first element and the rest.
abbrev pub pop_first :
    List ReassembledAudioFrame → Option ReassembledAudioFrame × List ReassembledAudioFrame
pop_first [] = (none, [])
pop_first (f ∷ fs) = (some f, fs)

step_head :
    (xs : List ReassembledAudioFrame) (h n : ℕ)
    → window 8 empty_frame xs ((h + 1) % 8) n ≡ window 8 empty_frame xs (h + 1) n
step_head xs h n = window-congruent 8 empty_frame xs ((h + 1) % 8) (h + 1) n (λ i lt. omega arith)

-- A frame in the slot behind the last one is the list's new last element.
window-insert :
    (xs : List ReassembledAudioFrame) (h n : ℕ) (f : ReassembledAudioFrame)
    → length xs ≡ 8
    → n ≤ 7
    → window 8 empty_frame (set xs ((h + n) % 8) f) h (suc n)
      ≡ window 8 empty_frame xs h n ++ (f ∷ [])
window-insert xs h n f l small =
    let slot = (h + n) % 8 in
    let here : get_or (set xs slot f) slot empty_frame ≡ f =
      get_or-set_self xs slot f empty_frame (omega arith) in
    let others = window-set 8 empty_frame xs h n slot f (λ i lt. apart i lt) in
    window-last 8 empty_frame (set xs slot f) h n ∙ (rw (here, others) refl)
  where
    apart : (i : ℕ) → i < n → (h + n) % 8 ≢ (h + i) % 8
    apart i lt same = omega arith

in_array : (s : ReceiverSession) → IsValid s → s.queue_head % 8 ≡ s.queue_head
in_array s v = let e = v.head_in in omega arith

-- The queue is a list: `pop_frame` returns its first frame, if any, and leaves the others.
pub pop_frame-queued_frames :
    (s : ReceiverSession)
    → IsValid s
    → ((pop_frame s).0, queued_frames (pop_frame s).1) ≡ pop_first (queued_frames s)
unfolding pop_frame
pop_frame-queued_frames s v = go s.queue_size refl
  where
    go :
        (n : ℕ)
        → s.queue_size ≡ n
        → ((pop_frame s).0, queued_frames (pop_frame s).1) ≡ pop_first (queued_frames s)
    go zero e = rw e refl
    go (suc n) e =
        let h = in_array s v in
        let next = step_head s.frame_queue s.queue_head n in
        let test : (s.queue_size == 0) ≡ false = ground arith in
        let rest : s.queue_size - 1 ≡ n = omega arith in rw (test, rest, next, e, h) refl

dropped : List ReassembledAudioFrame → List ReassembledAudioFrame
dropped [] = []
dropped (f ∷ fs) = if leb 8 (length (f ∷ fs)) then fs else f ∷ fs

drop_oldest-queued_frames :
    (s : ReceiverSession) → IsValid s → queued_frames (drop_oldest s) ≡ dropped (queued_frames s)
unfolding drop_oldest dropped
drop_oldest-queued_frames s v = go s.queue_size refl
  where
    go : (n : ℕ) → s.queue_size ≡ n → queued_frames (drop_oldest s) ≡ dropped (queued_frames s)
    go zero e = rw e refl
    go (suc n) e = elim (Bool-cases (leb 8 (suc n))) [
      | inl full ↦
          let test : (s.queue_size == 8) ≡ true = (let w = v.size_in in ground arith) in
          let rest : s.queue_size - 1 ≡ n = omega arith in
          let next = step_head s.frame_queue s.queue_head n in
          let size : suc (length (window 8 empty_frame s.frame_queue (s.queue_head + 1) n))
              ≡ suc n =
            rw (length-window 8 empty_frame s.frame_queue (s.queue_head + 1) n) refl in
          rw (test, rest, next, e, size, full) refl
      | inr free ↦
          let test : (s.queue_size == 8) ≡ false = ground arith in
          let size : suc (length (window 8 empty_frame s.frame_queue (s.queue_head + 1) n))
              ≡ suc n =
            rw (length-window 8 empty_frame s.frame_queue (s.queue_head + 1) n) refl in
          rw (test, e, size, free) refl
    ]

push_bounded-dropped :
    (fs : List ReassembledAudioFrame) (f : ReassembledAudioFrame)
    → push_bounded fs f ≡ dropped fs ++ (f ∷ [])
unfolding dropped
push_bounded-dropped [] f = refl
push_bounded-dropped (g ∷ fs) f = ground arith

-- `enqueue_frame` puts the frame at the list's end, and drops the first frame of a list of eight.
pub enqueue_frame-queued_frames :
    (s : ReceiverSession) (f : ReassembledAudioFrame)
    → IsValid s
    → queued_frames (enqueue_frame s f) ≡ push_bounded (queued_frames s) f
unfolding enqueue_frame
enqueue_frame-queued_frames s f v =
    let w = drop_oldest-IsValid s v in
    let size : ((drop_oldest s).queue_size + 1) % 2 ^ 64 ≡ suc (drop_oldest s).queue_size =
      (let r = room s v in omega arith) in
    rw
      (
        size,
        window-insert (drop_oldest s).frame_queue (drop_oldest s).queue_head
            (drop_oldest s).queue_size f w.queue_length (room s v),
        drop_oldest-queued_frames s v,
        push_bounded-dropped (queued_frames s) f,
      )
      refl
