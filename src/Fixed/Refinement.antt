-- ===== src/Fixed/Refinement.antt =====
-- The collector of fixed.py over any chunks is the decoder of the whole stream at once.
use gs_flowgraphs.Base.{
  ℕ, zero, suc, ◌+◌, ◌-◌, ◌≤◌, ◌<◌, ◌≡◌, refl, ap, ap₂, sym, ◌∙◌, Bool, false, Option, List, [],
  ◌∷◌, ◌++◌, map, arith, inl, inr, subst,
}
use gs_flowgraphs.Base.{
  Bool-cases, ltb, ◌==◌, if◌then◌else◌, length, drop, length-drop, length-append,
}
use gs_flowgraphs.Sync
use gs_flowgraphs.Sync.{StreamingSync, scan}
use gs_flowgraphs.Sync.Chunks.{
  IsSynced, push-IsSynced, push_in_chunks, drop-append_short, drop-drop,
}
use gs_flowgraphs.Fixed.{
  PendingFrame, FrameResult, DecodedFixedFrame, FixedSyncFrameDecoder, done, runtime_error, trimmed,
  trim_buffer, settle, push, pending_from_match, retained_symbols, max_retained_symbols, keep_from,
}
use gs_flowgraphs.Fixed.Pending.{finished, waiting, IsOrdered, IsOrdered-append, waiting_head}
use gs_flowgraphs.Fixed.Capture.{results, collect-eq, keep_from-IsOrdered, waiting-IsOrdered}
use gs_flowgraphs.Fixed.Reference.{
  captures_of, new_captures_of, new_captures-IsOrdered, pending-append,
}

drop-all : (n : ℕ) (xs : List Bool) → length xs ≤ n → drop n xs ≡ []
drop-all zero [] h = refl
drop-all (suc n) [] h = refl
drop-all zero (x ∷ xs) h = absurd (omega arith)
drop-all (suc n) (x ∷ xs) h = drop-all n xs (omega arith)

module _ (decode_wire : List ℕ → Option DecodedFixedFrame) (size : ℕ) (fresh : StreamingSync)
    (room : 1 ≤ size) (synced : IsSynced fresh) (unseen : fresh.total_seen ≡ 0)
    (no_tail : fresh.tail ≡ []) where
  abbrev captures : List Bool → List PendingFrame
  captures stream = captures_of size fresh stream

  abbrev new_captures : List Bool → List Bool → List PendingFrame
  new_captures stream chunk = new_captures_of size fresh stream chunk

  -- The decoder after a stream.
  pub record IsAt (d : FixedSyncFrameDecoder) (stream : List Bool) : Type 0 where
    pub frame_size : d.frame_bits ≡ size
    pub word : d.syncword_length ≡ length fresh.pattern
    pub in_sync : d.sync ≡ (Sync.push fresh stream).0
    pub seen : d.total_seen ≡ length stream
    pub based : d.buffer_base ≤ length stream
    pub buffered : d.buffer ≡ drop d.buffer_base stream
    pub waits : d.pending ≡ waiting (length stream) (captures stream)
    pub ordered : IsOrdered size d.buffer_base (length stream) d.pending

  tail_short :
      (stream : List Bool) → length (Sync.push fresh stream).0.tail + 1 ≤ length fresh.pattern
  tail_short stream =
      let after = push-IsSynced fresh synced stream [] in
      omega (arith, after.short, after.some_pattern, kept)
    where
      kept : length (Sync.push fresh stream).0.pattern ≡ length fresh.pattern
      kept = unfold Sync.push in refl

  module _ (r : FixedSyncFrameDecoder) (stream : List Bool) (out : List FrameResult) where
    -- A decoder whose buffer starts at `base`.
    abbrev from : ℕ → List PendingFrame → FixedSyncFrameDecoder
    from base w = record r { pending = w; buffer_base = base; buffer = drop base stream }

    trimmed-eq :
        (p : PendingFrame) (ps : List PendingFrame)
        → IsAt (record r { pending = p ∷ ps }) stream
        → trimmed (record r { pending = p ∷ ps }) (p ∷ ps) ≡ from p.capture_start (p ∷ ps)
    unfolding trimmed
    trimmed-eq p ps at =
        let first = keep_from-IsOrdered size r.buffer_base (length stream) p ps at.ordered in
        let after = at.ordered.0 in
        elim (Bool-cases (ltb r.buffer_base (keep_from p ps))) [
          | inl further ↦
              let bits : drop (keep_from p ps - r.buffer_base) r.buffer
                  ≡ drop p.capture_start stream =
                ap (drop (keep_from p ps - r.buffer_base)) at.buffered
                ∙ drop-drop (keep_from p ps - r.buffer_base) r.buffer_base stream
                ∙ ap (λ k. drop k stream) {y = p.capture_start} (omega (arith, first, after)) in
              rw further
                (λ i. record r { pending = p ∷ ps; buffer_base = first i; buffer = bits i })
          | inr there ↦
              let same : r.buffer_base ≡ p.capture_start = ground (arith, first, after) in
              let bits : r.buffer ≡ drop p.capture_start stream =
                at.buffered ∙ ap (λ k. drop k stream) same in
              rw there (λ i. record r { pending = p ∷ ps; buffer_base = same i; buffer = bits i })
        ]

    bounded :
        (base : ℕ) (w : List PendingFrame)
        → IsAt (from base w) stream
        → length stream < base + size
        → ltb (max_retained_symbols (from base w)) (retained_symbols (from base w)) ≡ false
    bounded base w at late = ground (
      arith,
      at.word,
      at.frame_size,
      ap (λ (s : StreamingSync). length s.tail) at.in_sync,
      tail_short stream,
      length-drop base stream,
    )

    settled_at :
        (base : ℕ) (w : List PendingFrame)
        → IsAt (from base w) stream
        → length stream < base + size
        → trim_buffer (record r { pending = w }) ≡ from base w
        → settle decode_wire r (done (out, w)) ≡ done (from base w, out)
    unfolding settle
    settled_at base w at late e =
        ap
          (λ (t : FixedSyncFrameDecoder).
            if ltb (max_retained_symbols t) (retained_symbols t)
            then runtime_error
            else done (t, out))
          e
        ∙ rw (bounded base w at late) refl

    -- The end of a push, for the frames that wait.
    settled :
        (w : List PendingFrame)
        → IsAt (record r { pending = w }) stream
        → ((p : PendingFrame) (ps : List PendingFrame) → w ≡ p ∷ ps → length stream < p.capture_end)
        → (d : FixedSyncFrameDecoder) × (settle decode_wire r (done (out, w)) ≡ done (d, out))
          × IsAt d stream
    unfolding trim_buffer trimmed
    settled [] at late =
        let now : IsAt (from r.total_seen []) stream = record {
          frame_size = at.frame_size;
          word = at.word;
          in_sync = at.in_sync;
          seen = at.seen;
          based = omega (arith, at.seen);
          buffered = refl;
          waits = at.waits;
          ordered = tt;
        } in
        let empty : [] ≡ drop r.total_seen stream =
          sym (drop-all r.total_seen stream (omega (arith, at.seen))) in
        (
          from r.total_seen [],
          settled_at r.total_seen [] now (omega (arith, at.seen, room))
              (λ i. record r { pending = []; buffer_base = r.total_seen; buffer = empty i }),
          now,
        )
    settled (p ∷ ps) at late =
        let o = at.ordered in
        let now : IsAt (from p.capture_start (p ∷ ps)) stream = record {
          frame_size = at.frame_size;
          word = at.word;
          in_sync = at.in_sync;
          seen = at.seen;
          based = o.1;
          buffered = refl;
          waits = at.waits;
          ordered = (omega arith, o.1, o.2, o.3);
        } in
        (
          from p.capture_start (p ∷ ps),
          settled_at p.capture_start (p ∷ ps) now (omega (arith, late p ps refl, o.2))
              (trimmed-eq p ps at),
          now,
        )

  -- What one push gives.
  abbrev pub output : List Bool → List Bool → List FrameResult
  output stream chunk = results decode_wire size (stream ++ chunk) (
      finished (length (stream ++ chunk))
        (waiting (length stream) (captures stream) ++ new_captures stream chunk))

  module _ (d : FixedSyncFrameDecoder) (stream chunk : List Bool) (at : IsAt d stream) where
    abbrev received : FixedSyncFrameDecoder
    received = record d {
      sync = (Sync.push d.sync chunk).0;
      buffer = d.buffer ++ chunk;
      buffer_base = if length d.buffer == 0 then d.total_seen else d.buffer_base;
      total_seen = d.total_seen + length chunk;
      pending = d.pending ++ map (pending_from_match d.frame_bits) (Sync.push d.sync chunk).1;
    }

    same_base : received.buffer_base ≡ d.buffer_base
    same_base =
        ground (arith, at.seen, at.based, ap length at.buffered, length-drop d.buffer_base stream)

    arrived :
        map (pending_from_match d.frame_bits) (Sync.push d.sync chunk).1 ≡ new_captures stream chunk
    arrived =
        ap₂ (λ bits s. map (pending_from_match bits) (Sync.push s chunk).1) at.frame_size at.in_sync

    pending-eq :
        received.pending ≡ waiting (length stream) (captures stream) ++ new_captures stream chunk
    pending-eq = ap₂ ◌++◌ at.waits arrived

    in_order : IsOrdered size received.buffer_base (length (stream ++ chunk)) received.pending
    in_order =
        subst (λ l. IsOrdered size received.buffer_base (length (stream ++ chunk)) (d.pending ++ l))
          (sym arrived)
          (IsOrdered-append size received.buffer_base (length stream) (length (stream ++ chunk))
            d.pending (new_captures stream chunk) (omega (arith, same_base, at.based))
            (omega (arith, length-append stream chunk))
            (subst (λ b. IsOrdered size b (length stream) d.pending) (sym same_base) at.ordered)
            (new_captures-IsOrdered decode_wire size fresh room synced unseen no_tail stream chunk))

    bits-eq : received.buffer ≡ drop received.buffer_base (stream ++ chunk)
    bits-eq =
        ap (λ b. b ++ chunk) at.buffered
        ∙ sym (drop-append_short d.buffer_base stream chunk at.based)
        ∙ ap (λ k. drop k (stream ++ chunk)) (sym same_base)

    abbrev later : List PendingFrame
    later = waiting (length (stream ++ chunk)) received.pending

    received-IsAt : IsAt (record received { pending = later }) (stream ++ chunk)
    received-IsAt = record {
      frame_size = at.frame_size;
      word = at.word;
      in_sync =
          ap (λ s. (Sync.push s chunk).0) at.in_sync
          ∙ sym (ap (λ p. p.0) (push_in_chunks fresh stream chunk synced));
      seen = omega (arith, at.seen, length-append stream chunk);
      based = omega (arith, same_base, at.based, length-append stream chunk);
      buffered = bits-eq;
      waits =
          ap (waiting (length (stream ++ chunk))) pending-eq
          ∙ pending-append decode_wire size fresh room synced unseen no_tail stream chunk;
      ordered =
          waiting-IsOrdered (length (stream ++ chunk)) size received.buffer_base
            (length (stream ++ chunk)) received.pending in_order;
    }

    -- A push raises nothing and gives what the longer stream completes.
    pub pushed :
        (next : FixedSyncFrameDecoder) × (push decode_wire d chunk
          ≡ done (next, output stream chunk))
        × IsAt next (stream ++ chunk)
    unfolding push
    pushed =
        let at_end = received-IsAt in
        let collected =
          collect-eq decode_wire received (stream ++ chunk) size (length (stream ++ chunk))
            at_end.seen at_end.based bits-eq received.buffer_base received.pending (omega arith)
            in_order in
        let out =
          results decode_wire size (stream ++ chunk)
            (finished (length (stream ++ chunk)) received.pending) in
        let s =
          settled received (stream ++ chunk) out later at_end
            (λ p ps e. waiting_head (length (stream ++ chunk)) received.pending p ps e) in
        (
          s.0,
          ap (settle decode_wire received) collected
              ∙ s.1
              ∙ ap
                  (λ l. done (
                    s.0,
                    results decode_wire size (stream ++ chunk)
                        (finished (length (stream ++ chunk)) l),
                  ))
                  pending-eq,
          s.2,
        )
