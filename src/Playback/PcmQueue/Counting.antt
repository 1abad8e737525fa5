-- ===== src/Playback/PcmQueue/Counting.antt =====
-- pcm_queue.cpp: what `snapshot` and `discard_pending` count.
use wiretone.Prelude.{◌+◌, ◌-◌, ◌*◌, ◌/◌, ◌%◌, ◌≡◌, refl, ◌!=◌, if◌then◌else◌, [], arith, length}
use wiretone.Playback.PcmQueue.Types.{PcmPlaybackQueue, sub_u64}
use wiretone.Playback.PcmQueue.Enqueue.{queued_count}
use wiretone.Playback.PcmQueue.Control.{discard_pending, reset, snapshot}
use wiretone.Playback.PcmQueue.Pending.{pending, IsValid, length-samples_from}

pub length-pending :
    (q : PcmPlaybackQueue)
    → IsValid q
    → length (pending q) ≡ 1920 * queued_count q - q.read_offset_frames * 2
length-pending q v =
    length-samples_from q.slots q.read_position (queued_count q) q.read_offset_frames v.whole

-- The queued frames are as many as the samples that wait need.
pub queued_count-pending :
    (q : PcmPlaybackQueue) → IsValid q → queued_count q ≡ (length (pending q) + 1919) / 1920
queued_count-pending q v =
    let o = v.offset in let s = v.started in ground (arith, length-pending q v)

-- The snapshot of a valid queue counts the frames that wait, and the slots that they take.
pub snapshot-pending :
    (q : PcmPlaybackQueue)
    → IsValid q
    → ((snapshot q).queued_pcm_frames * 2 ≡ length (pending q))
      × ((snapshot q).queued_logical_frames ≡ (length (pending q) + 1919) / 1920)
unfolding snapshot
snapshot-pending q v =
    let o = v.offset in let s = v.started in let f = v.few in ground (arith, length-pending q v)

-- After `discard_pending` a valid queue is valid and nothing waits; the result counts the slots
-- that were given up, and whether the first of them had been played in part.
pub discard_pending-empty :
    (q : PcmPlaybackQueue)
    → IsValid q
    → IsValid (discard_pending q).1
      × (pending (discard_pending q).1 ≡ [])
      × ((discard_pending q).0.discarded_logical_frames ≡ (length (pending q) + 1919) / 1920)
      × ((discard_pending q).0.discarded_partial_frames
          ≡ (if length (pending q) % 1920 != 0 then 1 else 0))
unfolding discard_pending
discard_pending-empty q v =
    let o = v.offset in
    let s = v.started in
    let f = v.few in
    let l = length-pending q v in
    let nothing : sub_u64 q.write_position q.write_position ≡ 0 =
      (let w = v.write_width in omega arith) in
    (
      record {
        slot_count = v.slot_count;
        whole = v.whole;
        write_width = v.write_width;
        read_width = v.write_width;
        few = omega (arith, nothing);
        offset = omega arith;
        started = λ _. refl;
      },
      rw nothing refl,
      ground arith,
      ground arith,
    )

-- After `reset` a valid queue is valid and nothing waits.
pub reset-empty : (q : PcmPlaybackQueue) → IsValid q → IsValid (reset q) × (pending (reset q) ≡ [])
unfolding reset
reset-empty q v = (
  record {
    slot_count = v.slot_count;
    whole = v.whole;
    write_width = omega arith;
    read_width = omega arith;
    few = omega arith;
    offset = omega arith;
    started = λ _. refl;
  },
  refl,
)
