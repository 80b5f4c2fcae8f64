-- ===== src/Fixed/Capture.antt =====
-- What the collector of fixed.py decodes from its buffer is what the whole stream holds.
use gs_flowgraphs.Base.{
  ℕ, ◌+◌, ◌-◌, ◌≤◌, ◌≡◌, refl, ap, ap₂, sym, ◌∙◌, Bool, true, false, Option, List, [], ◌∷◌, ◌++◌,
  arith, inl, inr, append_assoc,
}
use gs_flowgraphs.Base.{Bool-cases, ltb, length, drop, take, length-drop}
use gs_flowgraphs.Sync.Chunks.{take-append_short, drop-append_short, drop-drop}
use gs_flowgraphs.Fixed.{
  PendingFrame, FrameResult, DecodedFixedFrame, FixedSyncFrameDecoder, done, add_results,
  add_waiting, decode_bits, decode, collect, keep_from,
}
use gs_flowgraphs.Fixed.Pending.{finished, waiting, IsOrdered, IsOrdered-lower}

module _ (decode_wire : List ℕ → Option DecodedFixedFrame) where
  -- A capture of `size` bits in the whole stream, and the results of a list of captures.
  abbrev pub captured : ℕ → List Bool → PendingFrame → List FrameResult
  captured size stream p =
      decode_bits decode_wire p p.polarity (take size (drop p.capture_start stream))

  abbrev pub results : ℕ → List Bool → List PendingFrame → List FrameResult
  results size stream [] = []
  results size stream (p ∷ ps) = captured size stream p ++ results size stream ps

  pub results-append :
      (size : ℕ) (stream : List Bool) (ps qs : List PendingFrame)
      → results size stream (ps ++ qs) ≡ results size stream ps ++ results size stream qs
  results-append size stream [] qs = refl
  results-append size stream (p ∷ ps) qs =
      ap (◌++◌ (captured size stream p)) (results-append size stream ps qs)
      ∙ sym
          (append_assoc (captured size stream p) (results size stream ps) (results size stream qs))

  -- More stream does not change what is finished.
  pub results-longer :
      (size low high : ℕ) (stream more : List Bool) (ps : List PendingFrame)
      → IsOrdered size low high ps
      → results size (stream ++ more) (finished (length stream) ps)
        ≡ results size stream (finished (length stream) ps)
  results-longer size low high stream more [] o = refl
  results-longer size low high stream more (p ∷ ps) o =
      elim (Bool-cases (ltb (length stream) p.capture_end)) [
        | inl later ↦ rw later (results-longer size p.capture_start high stream more ps o.3)
        | inr whole ↦
            let fits : p.capture_start + size ≤ length stream = ground (arith, o.2) in
            let size_left = length-drop p.capture_start stream in
            let same : take size (drop p.capture_start (stream ++ more))
                ≡ take size (drop p.capture_start stream) =
              ap (take size) (drop-append_short p.capture_start stream more (omega arith))
              ∙ take-append_short size (drop p.capture_start stream) more
                  (omega (arith, size_left)) in
            rw whole (
              ap₂ ◌++◌ (ap (decode_bits decode_wire p p.polarity) same)
                (results-longer size p.capture_start high stream more ps o.3))
      ]

  module _ (d : FixedSyncFrameDecoder) (stream : List Bool) (size high : ℕ)
      (seen : d.total_seen ≡ length stream) (based : d.buffer_base ≤ length stream)
      (buffered : d.buffer ≡ drop d.buffer_base stream) where
    decode-eq :
        (p : PendingFrame)
        → d.buffer_base ≤ p.capture_start
        → p.capture_end ≡ p.capture_start + size
        → p.capture_end ≤ length stream
        → decode decode_wire d p ≡ done (captured size stream p)
    unfolding decode
    decode-eq p start end fits =
        let left = length-drop d.buffer_base stream in
        let inside : ltb p.capture_start d.buffer_base ≡ false = ground arith in
        let whole : ltb (d.buffer_base + length d.buffer) p.capture_end ≡ false =
          ground (arith, ap length buffered, left) in
        let width : p.capture_end - d.buffer_base - (p.capture_start - d.buffer_base) ≡ size =
          omega (arith, end) in
        let bits : drop (p.capture_start - d.buffer_base) d.buffer ≡ drop p.capture_start stream =
          ap (drop (p.capture_start - d.buffer_base)) buffered
          ∙ drop-drop (p.capture_start - d.buffer_base) d.buffer_base stream
          ∙ ap (λ k. drop k stream) {y = p.capture_start} (omega arith) in
        rw (inside, whole, width, bits) refl

    pub collect-eq :
        (low : ℕ) (ps : List PendingFrame)
        → d.buffer_base ≤ low
        → IsOrdered size low high ps
        → collect decode_wire d ps
          ≡ done (results size stream (finished (length stream) ps), waiting (length stream) ps)
    unfolding collect add_results add_waiting
    collect-eq low [] h o = refl
    collect-eq low (p ∷ ps) h o =
        let rest = collect-eq p.capture_start ps (omega (arith, o.0)) o.3 in
        elim (Bool-cases (ltb (length stream) p.capture_end)) [
          | inl later ↦
              let waits : ltb d.total_seen p.capture_end ≡ true = ground (arith, seen) in
              rw (waits, later, rest) refl
          | inr whole ↦
              let here = decode-eq p (omega (arith, o.0)) o.2 (ground (arith)) in
              let complete : ltb d.total_seen p.capture_end ≡ false = ground (arith, seen) in
              rw (complete, whole, rest, here) refl
        ]

-- The smallest start is one of the starts, none is below it.
pub keep_from-IsOrdered :
    (size low high : ℕ) (p : PendingFrame) (ps : List PendingFrame)
    → IsOrdered size low high (p ∷ ps)
    → keep_from p ps ≡ p.capture_start
unfolding keep_from
keep_from-IsOrdered size low high p [] o = refl
keep_from-IsOrdered size low high p (q ∷ ps) o =
    let rest = keep_from-IsOrdered size p.capture_start high q ps o.3 in omega (arith, rest, o.3.0)

pub waiting-IsOrdered :
    (n size low high : ℕ) (ps : List PendingFrame)
    → IsOrdered size low high ps
    → IsOrdered size low high (waiting n ps)
waiting-IsOrdered n size low high [] o = tt
waiting-IsOrdered n size low high (p ∷ ps) o = elim (Bool-cases (ltb n p.capture_end)) [
  | inl later ↦ rw later (o.0, o.1, o.2, waiting-IsOrdered n size p.capture_start high ps o.3)
  | inr whole ↦ rw whole (
      IsOrdered-lower size p.capture_start low high (waiting n ps) o.0
        (waiting-IsOrdered n size p.capture_start high ps o.3))
]
