-- ===== src/Fixed/Stream.antt =====
-- A stream in chunks through the collector of fixed.py.
use gs_flowgraphs.Base.{
  ℕ, ◌+◌, ◌-◌, ◌*◌, ◌≤◌, ◌≡◌, refl, ap, sym, ◌∙◌, Bool, true, Option, List, [], ◌∷◌, ◌++◌, arith,
  append_assoc, append-nil, min, map, subst,
}
use gs_flowgraphs.Base.{ok, length}
use gs_flowgraphs.Sync.{StreamingSync, streaming_sync}
use gs_flowgraphs.Sync
use gs_flowgraphs.Sync.Chunks.{IsSynced, drop-nil}
use gs_flowgraphs.Fixed.{
  FrameResult, DecodedFixedFrame, FixedSyncFrameDecoder, Ran, done, runtime_error,
  fixed_sync_frame_decoder, push, pending_from_match,
}
use gs_flowgraphs.Fixed.Pending.{finished, waiting}
use gs_flowgraphs.Fixed.Capture.{results}
use gs_flowgraphs.Fixed.Reference.{reference_of, reference-append}
use gs_flowgraphs.Fixed.Refinement.{output, IsAt, pushed}

abbrev pub joined : List (List Bool) → List Bool
joined [] = []
joined (chunk ∷ chunks) = chunk ++ joined chunks

module _ (decode_wire : List ℕ → Option DecodedFixedFrame) where
  -- The results so far, put before those of the rest.
  pub more_results :
      List FrameResult
      → Ran (FixedSyncFrameDecoder × List FrameResult)
      → Ran (FixedSyncFrameDecoder × List FrameResult)
  more_results results runtime_error = runtime_error
  more_results results (done (d, rest)) = done (d, results ++ rest)

  pub and_then :
      Ran (FixedSyncFrameDecoder × List FrameResult)
      → (FixedSyncFrameDecoder → Ran (FixedSyncFrameDecoder × List FrameResult))
      → Ran (FixedSyncFrameDecoder × List FrameResult)
  and_then runtime_error next = runtime_error
  and_then (done (d, results)) next = more_results results (next d)

  -- One push after the other.
  pub push_all :
      List (List Bool) → FixedSyncFrameDecoder → Ran (FixedSyncFrameDecoder × List FrameResult)
  push_all [] d = done (d, [])
  push_all (chunk ∷ chunks) d = and_then (push decode_wire d chunk) (push_all chunks)

  module _ (size : ℕ) (fresh : StreamingSync) (room : 1 ≤ size) (synced : IsSynced fresh)
      (unseen : fresh.total_seen ≡ 0) (no_tail : fresh.tail ≡ []) where
    abbrev IsHere : FixedSyncFrameDecoder → List Bool → Type 0
    IsHere d stream = IsAt decode_wire size fresh room synced unseen no_tail d stream

    abbrev reference : List Bool → List FrameResult
    reference stream = reference_of decode_wire size fresh stream

    push_all_from :
        (chunks : List (List Bool)) (d : FixedSyncFrameDecoder) (stream : List Bool)
        → IsHere d stream
        → (next : FixedSyncFrameDecoder) × ((rest : List FrameResult) × (push_all chunks d
              ≡ done (next, rest))
            × (reference (stream ++ joined chunks) ≡ reference stream ++ rest))
    unfolding push_all and_then more_results
    push_all_from [] d stream at =
        (d, ([], refl, ap reference (append-nil stream) ∙ sym (append-nil (reference stream))))
    push_all_from (chunk ∷ chunks) d stream at =
        let p = pushed decode_wire size fresh room synced unseen no_tail d stream chunk at in
        let r = push_all_from chunks p.0 (stream ++ chunk) p.2 in
        let out = output decode_wire size fresh room synced unseen no_tail stream chunk in
        (
          r.0,
          (
            out ++ r.1.0,
            ap (λ x. and_then x (push_all chunks)) p.1 ∙ ap (more_results out) r.1.1,
            ap reference (sym (append_assoc stream chunk (joined chunks)))
                ∙ r.1.2
                ∙ ap (λ l. l ++ r.1.0)
                    (reference-append decode_wire size fresh room synced unseen no_tail stream
                      chunk)
                ∙ append_assoc (reference stream) out r.1.0,
          ),
        )

-- A decoder as the constructor leaves it.
abbrev made_sync : List Bool → ℕ → StreamingSync
made_sync syncword threshold = record {
  pattern = syncword;
  threshold = threshold;
  accept_inverted = true;
  tail = [];
  total_seen = 0;
}

abbrev made : List Bool → ℕ → ℕ → FixedSyncFrameDecoder
made syncword frame_size threshold = record {
  frame_bits = frame_size * 8;
  syncword_length = length syncword;
  sync = made_sync syncword threshold;
  buffer = [];
  buffer_base = 0;
  total_seen = 0;
  pending = [];
}

constructed :
    (syncword : List Bool) (frame_size threshold : ℕ) (d : FixedSyncFrameDecoder)
    → fixed_sync_frame_decoder syncword frame_size threshold ≡ ok d
    → (made syncword frame_size threshold ≡ d) × (1 ≤ frame_size) × (1 ≤ length syncword)
unfolding fixed_sync_frame_decoder streaming_sync
constructed syncword frame_size threshold d h = (ground arith, ground arith, ground arith)

module _ (decode_wire : List ℕ → Option DecodedFixedFrame) (syncword : List Bool)
    (frame_size threshold : ℕ) (room : 1 ≤ frame_size) (word : 1 ≤ length syncword) where
  made-IsSynced : IsSynced (made_sync syncword threshold)
  made-IsSynced = record { some_pattern = word; short = omega arith; seen = omega arith }

  nothing_scanned : (Sync.push (made_sync syncword threshold) []).1 ≡ []
  unfolding Sync.push Sync.scan
  nothing_scanned =
      let none : 0 + 1 - length syncword ≡ 0 = omega arith in
      ap (λ n. Sync.scan (made_sync syncword threshold) n (0 - 0) []) none

  nothing_yet : reference_of decode_wire (frame_size * 8) (made_sync syncword threshold) [] ≡ []
  nothing_yet =
      ap
        (λ l.
          results decode_wire (frame_size * 8) []
            (finished 0 (map (pending_from_match (frame_size * 8)) l)))
        nothing_scanned

  made-IsAt :
      IsAt decode_wire
        (frame_size * 8)
        (made_sync syncword threshold)
        (omega arith)
        made-IsSynced
        refl
        refl
        (made syncword frame_size threshold)
        []
  unfolding Sync.push
  made-IsAt = record {
    frame_size = refl;
    word = refl;
    in_sync = λ i. record (made_sync syncword threshold) {
      tail = sym (drop-nil (0 - min (length syncword - 1) 0)) i;
    };
    seen = refl;
    based = omega arith;
    buffered = refl;
    waits = sym (ap (λ l. waiting 0 (map (pending_from_match (frame_size * 8)) l)) nothing_scanned);
    ordered = tt;
  }

  made_run :
      (chunks : List (List Bool))
      → (next : FixedSyncFrameDecoder) × (push_all decode_wire chunks
            (made syncword frame_size threshold)
          ≡ done (
            next,
            reference_of decode_wire
                (frame_size * 8)
                (made_sync syncword threshold)
                (joined chunks),
          ))
  made_run chunks =
      let ran =
        push_all_from decode_wire (frame_size * 8) (made_sync syncword threshold) (omega arith)
          made-IsSynced refl refl chunks (made syncword frame_size threshold) [] made-IsAt in
      (
        ran.0,
        ran.1.1 ∙ ap (λ l. done (ran.0, l)) (sym (ran.1.2 ∙ ap (λ l. l ++ ran.1.0) nothing_yet)),
      )

-- However a stream is cut into chunks, the collector raises no error, and gives, in order, what the
-- decoder of the wire octets makes of each frame that lies whole in the joined stream after a
-- match of the sync word.
pub push_all-eq-reference :
    (decode_wire : List ℕ → Option DecodedFixedFrame) (syncword : List Bool)
    (frame_size threshold : ℕ) (d : FixedSyncFrameDecoder) (chunks : List (List Bool))
    → fixed_sync_frame_decoder syncword frame_size threshold ≡ ok d
    → (next : FixedSyncFrameDecoder) × (push_all decode_wire chunks d
        ≡ done (next, reference_of decode_wire d.frame_bits d.sync (joined chunks)))
push_all-eq-reference decode_wire syncword frame_size threshold d chunks h =
    let c = constructed syncword frame_size threshold d h in
    subst
      (λ (x : FixedSyncFrameDecoder).
        (next : FixedSyncFrameDecoder) × (push_all decode_wire chunks x
          ≡ done (next, reference_of decode_wire x.frame_bits x.sync (joined chunks))))
      c.0 (made_run decode_wire syncword frame_size threshold c.1 c.2 chunks)
