-- ===== src/Hdlc/Segment.antt =====
-- One frame of a stream of bits, between the flags before and after it.
use gs_flowgraphs.Base.{
  ℕ, zero, suc, ◌+◌, ◌-◌, ◌*◌, ◌%◌, ◌≤◌, ◌≡◌, refl, ap, ap₂, sym, ◌∙◌, Bool, true, false, List, [],
  ◌∷◌, ◌++◌, arith, append_assoc,
}
use gs_flowgraphs.Base.{
  ◌==◌, leb, length, take, drop, All-append, length-append, take-append, drop-append,
}
use gs_flowgraphs.Octets.{
  IsByte, IsBytes, bytes_to_bits, bits_to_bytes, length-bytes_to_bits, bits_to_bytes-bytes_to_bits,
}
use gs_flowgraphs.Crc.Fcs.{fcs_bytes}
use gs_flowgraphs.Crc.Fcs.Check.{check-append, length-fcs_bytes, fcs_bytes-IsBytes}
use gs_flowgraphs.Hdlc.{flags, bit_stuff, starts_loop, between, frames}
use gs_flowgraphs.Hdlc.Stuffing.{destuff-bit_stuff, length-le-stuff_loop}
use gs_flowgraphs.Hdlc.Scan.{flag_starts, scan_flags, scan_stuffed, length-flags}

-- A body that the deframer does not take for noise: two addresses, control and protocol octets.
pub record IsBody (body : List ℕ) : Type 0 where
  pub octets : IsBytes body
  pub long : 16 ≤ length body

abbrev pub content : List ℕ → List Bool
content body = bytes_to_bits (body ++ fcs_bytes body)

length-content : (body : List ℕ) → length (content body) ≡ (length body + 2) * 8
length-content body = omega (
  arith,
  length-bytes_to_bits (body ++ fcs_bytes body),
  length-append body (fcs_bytes body),
  length-fcs_bytes body,
)

length-stuffed : (body : List ℕ) → IsBody body → 144 ≤ length (bit_stuff (content body))
unfolding bit_stuff
length-stuffed body ok =
    omega (arith, length-content body, length-le-stuff_loop 0 (content body), ok.long)

-- Two flags with stuffed content between them give one frame.
between_frame :
    (before after : List Bool) (body : List ℕ) (opening closing : ℕ)
    → IsBody body
    → length before ≡ opening + 8
    → closing ≡ opening + 8 + length (bit_stuff (content body))
    → between (before ++ (bit_stuff (content body) ++ after)) opening closing
      ≡ record { body = body; offset = opening } ∷ []
unfolding between
between_frame before after body opening closing ok at_open at_close =
    let stuffed = bit_stuff (content body) in
    let whole = body ++ fcs_bytes body in
    let apart : leb closing (opening + 8) ≡ false = ground (arith, length-stuffed body ok) in
    let cut : take (closing - (opening + 8)) (drop (opening + 8) (before ++ (stuffed ++ after)))
        ≡ stuffed =
      rw (drop-append before (stuffed ++ after) (opening + 8) (sym at_open))
        (take-append stuffed after (closing - (opening + 8)) (omega arith)) in
    let aligned : (length (content body) % 8 == 0) ≡ true = ground (arith, length-content body) in
    let packed : bits_to_bytes (content body) ≡ whole =
      bits_to_bytes-bytes_to_bits whole
        (All-append IsByte body (fcs_bytes body) ok.octets (fcs_bytes-IsBytes body)) in
    let size : length whole ≡ length body + 2 =
      omega (arith, length-append body (fcs_bytes body), length-fcs_bytes body) in
    let enough : leb 18 (length whole) ≡ true = ground (arith, size, ok.long) in
    let stripped : take (length whole - 2) whole ≡ body =
      take-append body (fcs_bytes body) (length whole - 2) (omega (arith, size)) in
    rw (
      apart,
      cut,
      destuff-bit_stuff (content body),
      aligned,
      packed,
      enough,
      check-append body,
      stripped,
    )

-- Flags next to one another hold nothing.
between_adjacent : (bits : List Bool) (i : ℕ) → between bits i (i + 8) ≡ []
unfolding between
between_adjacent bits i = let touching : leb (i + 8) (i + 8) ≡ true = ground arith in rw touching

frames_run :
    (bits : List Bool) (n i j : ℕ) (rest : List ℕ)
    → frames bits (flag_starts (suc n) i ++ j ∷ rest)
      ≡ between bits (i + 8 * n) j ++ frames bits (j ∷ rest)
unfolding frames
frames_run bits zero i j rest = ap (λ k. between bits k j ++ frames bits (j ∷ rest)) (omega arith)
frames_run bits (suc n) i j rest =
    ap (λ l. l ++ frames bits (flag_starts (suc n) (i + 8) ++ j ∷ rest)) (between_adjacent bits i)
    ∙ frames_run bits n (i + 8) j rest
    ∙ ap (λ k. between bits k j ++ frames bits (j ∷ rest)) (omega arith)

pub frames_run_alone : (bits : List Bool) (n i : ℕ) → frames bits (flag_starts n i) ≡ []
unfolding frames
frames_run_alone bits zero i = refl
frames_run_alone bits (suc zero) i = refl
frames_run_alone bits (suc (suc n)) i =
    ap (λ l. l ++ frames bits (flag_starts (suc n) (i + 8))) (between_adjacent bits i)
    ∙ frames_run_alone bits (suc n) (i + 8)

module _ (before : List Bool) (m q : ℕ) (body : List ℕ) (tail : List Bool) (ok : IsBody body) where
  abbrev stuffed : List Bool
  stuffed = bit_stuff (content body)

  -- What follows the content, and the whole stream.
  abbrev closing_flags : List Bool
  closing_flags = flags (suc q) ++ tail

  abbrev stream : List Bool
  stream = before ++ (flags (suc m) ++ (stuffed ++ closing_flags))

  abbrev closing : ℕ
  closing = length before + 8 * suc m + length stuffed

  scan_segment :
      starts_loop 0 (length before) (flags (suc m) ++ (stuffed ++ closing_flags))
      ≡ flag_starts (suc m) (length before) ++ starts_loop 0 closing closing_flags
  unfolding flags bit_stuff
  scan_segment =
      scan_flags (suc m) (length before) (stuffed ++ closing_flags)
      ∙ ap (◌++◌ (flag_starts (suc m) (length before)))
          (scan_stuffed 0 (length before + 8 * suc m) (content body) _)

  closing_first :
      starts_loop 0 closing closing_flags
      ≡ closing ∷ (flag_starts q (closing + 8) ++ starts_loop 0 (closing + 8 * suc q) tail)
  closing_first = scan_flags (suc q) closing tail

  segment_between :
      between stream (length before + 8 * m) closing
      ≡ record { body = body; offset = length before + 8 * m } ∷ []
  segment_between =
      ap (λ l. between l (length before + 8 * m) closing)
        (sym (append_assoc before (flags (suc m)) (stuffed ++ closing_flags)))
      ∙ between_frame (before ++ flags (suc m)) closing_flags body (length before + 8 * m) closing
          ok (omega (arith, length-append before (flags (suc m)), length-flags (suc m)))
          (omega arith)

  -- The first frame of the stream is found, and the rest is searched from its closing flag.
  pub segment :
      frames stream (starts_loop 0 (length before) (flags (suc m) ++ (stuffed ++ closing_flags)))
      ≡ record { body = body; offset = length before + 8 * m }
        ∷ frames stream (starts_loop 0 closing closing_flags)
  segment =
      ap (frames stream) scan_segment
      ∙ ap (λ l. frames stream (flag_starts (suc m) (length before) ++ l)) closing_first
      ∙ frames_run stream m (length before) closing _
      ∙ ap₂ ◌++◌ segment_between (ap (frames stream) (sym closing_first))
