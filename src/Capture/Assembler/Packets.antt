-- ===== src/Capture/Assembler/Packets.antt =====
-- pcm_frame_assembler.cpp: packets in a row, `discard_partial` and `reset`.
use wiretone.Prelude.{
  ℕ, ◌*◌, ◌≡◌, refl, sym, ap, ap₂, subst, Bool, true, false, List, [], ◌∷◌, ◌++◌, All, ◌!=◌,
  if◌then◌else◌, arith, has_flag, length, length-take,
}
use wiretone.Capture.Assembler.Types.{PcmFrameAssembler, PcmFrameAssemblerError, PcmFrameView}
use wiretone.Capture.Assembler.Accept.{Packet, accept_packet, clear_partial, discard_partial}
use wiretone.Capture.Assembler.Samples.{Sample, flat, samples_of, feed}
use wiretone.Capture.Assembler.Between.{Holds}
use wiretone.Capture.Assembler.Assembly.{
  Assembles, accept_packet-Assembles, accept_packet-iff-CanAssemble,
}
use wiretone.Capture.Assembler.Begin.{Fits, CanAssemble, kept, accepts, cleared-Holds}
use wiretone.Capture.Assembler.Stream.{
  AreConsecutive, frame_bytes, pending_bytes, accept_packet-pending_bytes, feed-append,
  feed-AreConsecutive, samples_from-HasBytes,
}

Holds-length :
    (a : PcmFrameAssembler) (waiting : List Sample)
    → Holds a waiting
    → length (flat waiting) ≡ length waiting * 4
Holds-length a waiting h =
    let few = h.few in
    let size = h.stores.size in
    omega (arith, ap (length {A = ℕ}) h.stores.bytes, length-take (length waiting * 4) a.storage)

frames-AreConsecutive :
    (a : PcmFrameAssembler) (p : Packet) (waiting : List Sample)
    → Holds a waiting
    → Fits p
    → (accept_packet a p).0.error ≡ PcmFrameAssemblerError.none
    → AreConsecutive a.next_sequence_number (accept_packet a p).1
frames-AreConsecutive a p waiting h fits e =
    let size = (accepts a p fits.flags e).size in
    subst (AreConsecutive a.next_sequence_number)
      (sym (accept_packet-Assembles a p waiting h fits e).delivered)
      (feed-AreConsecutive a.next_sequence_number (kept p waiting) (samples_of p)
        (kept_length (has_flag p.flags 2))
        (samples_from-HasBytes p (has_flag p.flags 2) p.normalized_pcm 0 p.frame_count
          (omega arith)))
  where
    kept_length :
        (b : Bool)
        → length (flat (if b then [] else waiting)) ≡ length (if b then [] else waiting) * 4
    kept_length true = refl
    kept_length false = Holds-length a waiting h

-- The frames that an accepted packet completes have 3,840 bytes each and are numbered on from the
-- assembler's next sequence number. Their bytes, and then those of the frame that is begun, are the
-- bytes that were pending, unless the packet is discontinuous, and the packet's.
pub accept_packet-stream :
    (a : PcmFrameAssembler) (p : Packet) (waiting : List Sample)
    → Holds a waiting
    → Fits p
    → (accept_packet a p).0.error ≡ PcmFrameAssemblerError.none
    → AreConsecutive a.next_sequence_number (accept_packet a p).1
      × (frame_bytes (accept_packet a p).1 ++ pending_bytes (accept_packet a p).2
          ≡ (if has_flag p.flags 2 then [] else pending_bytes a) ++ p.normalized_pcm)
accept_packet-stream a p waiting h fits e =
    (frames-AreConsecutive a p waiting h fits e, accept_packet-pending_bytes a p waiting h fits e)

-- The frames that the sink is called with, and the assembler after the packets.
unfoldable pub accept_packets :
    PcmFrameAssembler → List Packet → List PcmFrameView × PcmFrameAssembler
accept_packets a [] = ([], a)
accept_packets a (p ∷ ps) =
    let (_, frames, next) = accept_packet a p in
    let (others, last) = accept_packets next ps in (frames ++ others, last)

abbrev pub all_samples : List Packet → List Sample
all_samples [] = []
all_samples (p ∷ ps) = samples_of p ++ all_samples ps

-- A packet that the assembler accepts, without a discontinuity.
pub record Continues (p : Packet) : Type 0 where
  pub fits : Fits p
  pub can : CanAssemble p
  pub continuous : has_flag p.flags 2 ≡ false

-- The frames, and the assembler after them, are those that the samples make.
pub record Follows (fed : List PcmFrameView × ℕ × List Sample)
    (done : List PcmFrameView × PcmFrameAssembler) : Type 0 where
  pub delivered : done.0 ≡ fed.0
  pub next : done.1.next_sequence_number ≡ fed.1
  pub holds : Holds done.1 fed.2

-- One packet, and then others.
Follows-append :
    (a : PcmFrameAssembler) (p : Packet) (waiting xs : List Sample)
    (done : List PcmFrameView × PcmFrameAssembler)
    → Assembles
        (feed a.next_sequence_number waiting (samples_of p))
        (accept_packet a p).0
        (accept_packet a p).1
        (accept_packet a p).2
    → Follows
        (feed
          (accept_packet a p).2.next_sequence_number
          (feed a.next_sequence_number waiting (samples_of p)).2
          xs)
        done
    → Follows
        (feed a.next_sequence_number waiting (samples_of p ++ xs))
        ((accept_packet a p).1 ++ done.0, done.1)
Follows-append a p waiting xs done first others =
    let fed = feed a.next_sequence_number waiting (samples_of p) in
    let rest : Follows (feed fed.1 fed.2 xs) done =
      subst (λ (n : ℕ). Follows (feed n fed.2 xs) done) first.next others in
    rw (feed-append a.next_sequence_number waiting (samples_of p) xs) (record {
      delivered = ap₂ ◌++◌ first.delivered rest.delivered;
      next = rest.next;
      holds = rest.holds;
    })

nothing_fed :
    (a : PcmFrameAssembler) (waiting : List Sample)
    → Holds a waiting
    → Follows (feed a.next_sequence_number waiting []) ([], a)
unfolding feed
nothing_fed a waiting h = record { delivered = refl; next = refl; holds = h }

-- Where packets without discontinuities follow one another, the frames are those of all their
-- samples behind the ones that waited: where a packet ends makes no difference.
pub accept_packets-feed :
    (ps : List Packet) (a : PcmFrameAssembler) (waiting : List Sample)
    → Holds a waiting
    → All Continues ps
    → Follows (feed a.next_sequence_number waiting (all_samples ps)) (accept_packets a ps)
unfolding accept_packets
accept_packets-feed [] a waiting h c = nothing_fed a waiting h
accept_packets-feed (p ∷ ps) a waiting h c =
    let fits = c.0.fits in
    let first =
      accept_packet-Assembles a p waiting h fits
        ((accept_packet-iff-CanAssemble a p waiting h fits).1 c.0.can) in
    let same : kept p waiting ≡ waiting = rw (c.0.continuous) refl in
    let continued =
      subst
        (λ (w : List Sample).
          Assembles (feed a.next_sequence_number w (samples_of p)) (accept_packet a p).0
            (accept_packet a p).1 (accept_packet a p).2)
        same first in
    Follows-append a p waiting (all_samples ps) (accept_packets (accept_packet a p).2 ps) continued
      (accept_packets-feed ps (accept_packet a p).2
        (feed a.next_sequence_number waiting (samples_of p)).2 continued.holds c.1)

-- `discard_partial` says whether samples waited, and then none do.
pub discard_partial-Holds :
    (a : PcmFrameAssembler) (waiting : List Sample)
    → Holds a waiting
    → ((discard_partial a).0 ≡ (length waiting != 0))
      × Holds (discard_partial a).1 []
      × ((discard_partial a).1.next_sequence_number ≡ a.next_sequence_number)
unfolding discard_partial clear_partial
discard_partial-Holds a waiting h =
    (ap (λ (k : ℕ). k != 0) h.stores.count, cleared-Holds a waiting h, refl)
