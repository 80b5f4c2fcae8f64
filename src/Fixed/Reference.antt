-- ===== src/Fixed/Reference.antt =====
-- The captures of a stream and of a longer one, and the frames they give.
use mathlib.Core.List.{map-append}
use gs_flowgraphs.Base.{
  ℕ, ◌+◌, ◌-◌, ◌≤◌, ◌≡◌, ap, sym, ◌∙◌, Bool, Option, List, [], ◌++◌, map, arith, append_assoc,
}
use gs_flowgraphs.Base.{length, length-append}
use gs_flowgraphs.Sync
use gs_flowgraphs.Sync.{StreamingSync, scan}
use gs_flowgraphs.Sync.Chunks.{IsSynced, push-IsSynced, push_in_chunks}
use gs_flowgraphs.Fixed.{PendingFrame, FrameResult, DecodedFixedFrame, pending_from_match}
use gs_flowgraphs.Fixed.Pending.{
  finished, waiting, finished-append, waiting-append, IsOrdered, IsOrdered-lower, finished_split,
  waiting_again, scan-IsOrdered,
}
use gs_flowgraphs.Fixed.Capture.{results, results-append, results-longer}

-- The captures of a whole stream, and the results of those that are complete.
abbrev pub captures_of : ℕ → StreamingSync → List Bool → List PendingFrame
captures_of size fresh stream = map (pending_from_match size) (Sync.push fresh stream).1

abbrev pub reference_of :
    (List ℕ → Option DecodedFixedFrame) → ℕ → StreamingSync → List Bool → List FrameResult
reference_of decode_wire size fresh stream =
    results decode_wire size stream (finished (length stream) (captures_of size fresh stream))

-- The captures that a chunk adds after a stream.
abbrev pub new_captures_of : ℕ → StreamingSync → List Bool → List Bool → List PendingFrame
new_captures_of size fresh stream chunk =
    map (pending_from_match size) (Sync.push (Sync.push fresh stream).0 chunk).1

module _ (decode_wire : List ℕ → Option DecodedFixedFrame) (size : ℕ) (fresh : StreamingSync)
    (room : 1 ≤ size) (synced : IsSynced fresh) (unseen : fresh.total_seen ≡ 0)
    (no_tail : fresh.tail ≡ []) where
  abbrev captures : List Bool → List PendingFrame
  captures stream = captures_of size fresh stream

  abbrev reference : List Bool → List FrameResult
  reference stream = reference_of decode_wire size fresh stream

  abbrev new_captures : List Bool → List Bool → List PendingFrame
  new_captures stream chunk = new_captures_of size fresh stream chunk

  -- The captures of a longer stream are those of the shorter and the new ones.
  captures-append :
      (stream chunk : List Bool)
      → captures (stream ++ chunk) ≡ captures stream ++ new_captures stream chunk
  captures-append stream chunk =
      ap (λ p. map (pending_from_match size) p.1) (push_in_chunks fresh stream chunk synced)
      ∙ map-append (pending_from_match size) (Sync.push fresh stream).1
          (Sync.push (Sync.push fresh stream).0 chunk).1

  captures-IsOrdered : (stream : List Bool) → IsOrdered size 0 (length stream) (captures stream)
  unfolding Sync.push
  captures-IsOrdered stream =
      IsOrdered-lower size (fresh.total_seen - length fresh.tail + length fresh.pattern) 0
        (length stream) (captures stream) (omega arith)
        (scan-IsOrdered fresh size (length (fresh.tail ++ stream) + 1 - length fresh.pattern)
          (fresh.total_seen - length fresh.tail) (length stream) (fresh.tail ++ stream)
          (omega (arith, unseen, length-append fresh.tail stream, ap length no_tail)))

  pub new_captures-IsOrdered :
      (stream chunk : List Bool)
      → IsOrdered size (length stream) (length (stream ++ chunk)) (new_captures stream chunk)
  unfolding Sync.push
  new_captures-IsOrdered stream chunk =
      let s = (Sync.push fresh stream).0 in
      let after = push-IsSynced fresh synced stream [] in
      let total : s.total_seen ≡ length stream = omega (arith, unseen) in
      let start = s.total_seen - length s.tail in
      IsOrdered-lower size (start + length s.pattern) (length stream) (length (stream ++ chunk))
        (new_captures stream chunk)
        (omega (arith, total, after.short, after.seen, after.some_pattern))
        (scan-IsOrdered s size (length (s.tail ++ chunk) + 1 - length s.pattern) start
          (length (stream ++ chunk)) (s.tail ++ chunk)
          (omega
            (arith, total, length-append s.tail chunk, length-append stream chunk, after.seen)))

  pub reference-append :
      (stream chunk : List Bool)
      → reference (stream ++ chunk)
        ≡ reference stream
          ++ results decode_wire size (stream ++ chunk) (
              finished
                (length (stream ++ chunk))
                (waiting (length stream) (captures stream) ++ new_captures stream chunk))
  reference-append stream chunk =
      let m = length stream in
      let n = length (stream ++ chunk) in
      let A = captures stream in
      let N = new_captures stream chunk in
      let R = results decode_wire size (stream ++ chunk) in
      ap (λ l. R (finished n l)) (captures-append stream chunk)
      ∙ ap R (
          finished-append n A N
          ∙ ap (λ l. l ++ finished n N)
              (finished_split size m n 0 m A (omega (arith, length-append stream chunk))
                (captures-IsOrdered stream))
          ∙ append_assoc (finished m A) (finished n (waiting m A)) (finished n N)
          ∙ ap (◌++◌ (finished m A)) (sym (finished-append n (waiting m A) N)))
      ∙ results-append decode_wire size (stream ++ chunk) (finished m A)
          (finished n (waiting m A ++ N))
      ∙ ap (λ l. l ++ R (finished n (waiting m A ++ N)))
          (results-longer decode_wire size 0 m stream chunk A (captures-IsOrdered stream))

  pub pending-append :
      (stream chunk : List Bool)
      → waiting
          (length (stream ++ chunk))
          (waiting (length stream) (captures stream) ++ new_captures stream chunk)
        ≡ waiting (length (stream ++ chunk)) (captures (stream ++ chunk))
  pending-append stream chunk =
      let n = length (stream ++ chunk) in
      let w = waiting (length stream) (captures stream) in
      waiting-append n w (new_captures stream chunk)
      ∙ ap (λ l. l ++ waiting n (new_captures stream chunk))
          (waiting_again size (length stream) n (captures stream)
            (omega (arith, length-append stream chunk)))
      ∙ sym (waiting-append n (captures stream) (new_captures stream chunk))
      ∙ ap (waiting n) (sym (captures-append stream chunk))
