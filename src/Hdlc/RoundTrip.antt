-- ===== src/Hdlc/RoundTrip.antt =====
-- Deframing what was framed, one frame or many on one stream.
use gs_flowgraphs.Base.{
  ℕ, zero, suc, ◌+◌, ◌-◌, ◌*◌, ◌≡◌, ap, ap₂, sym, ◌∙◌, Bool, List, [], ◌∷◌, ◌++◌, arith, max,
  append-nil, append_assoc,
}
use gs_flowgraphs.Base.{length, All, length-append}
use gs_flowgraphs.Hdlc.{
  Deframed, flags, bit_stuff, frame, starts, starts_loop, frames, deframe_with_offsets, flag_bits,
}
use gs_flowgraphs.Hdlc.Scan.{flag_starts, scan_flags, length-flags}
use gs_flowgraphs.Hdlc.Segment.{IsBody, content, frames_run_alone, segment}

-- One frame to send, with the flags before and after it.
pub record Sent : Type 0 where
  pub body : List ℕ
  pub preamble_flags : ℕ
  pub postamble_flags : ℕ

abbrev pub framed : Sent → List Bool
framed s = frame s.body s.preamble_flags s.postamble_flags

-- The frames one after the other.
abbrev pub transmission : List Sent → List Bool
transmission [] = []
transmission (s ∷ rest) = framed s ++ transmission rest

-- Each body with the index of the last flag of its preamble, the stream starting at `i`.
abbrev pub received : ℕ → List Sent → List Deframed
received i [] = []
received i (s ∷ rest) =
    record { body = s.body; offset = i + 8 * (max 1 s.preamble_flags - 1) }
    ∷ received (i + length (framed s)) rest

abbrev pub AreBodies : List Sent → Type 0
AreBodies sents = All (λ s. IsBody s.body) sents

flags_add : (m n : ℕ) (l : List Bool) → flags m ++ (flags n ++ l) ≡ flags (m + n) ++ l
unfolding flags
flags_add zero n l = ap (λ k. flags k ++ l) (omega arith)
flags_add (suc m) n l =
    append_assoc flag_bits (flags m) (flags n ++ l)
    ∙ ap (◌++◌ flag_bits) (flags_add m n l)
    ∙ sym (append_assoc flag_bits (flags (m + n)) l)
    ∙ ap (λ k. flags k ++ l) {x = suc (m + n)} (omega arith)

-- `max 1 n` flags are one more than some number.
max_one : (n : ℕ) → max 1 n ≡ suc (max 1 n - 1)
max_one n = omega arith

abbrev stuffed_of : Sent → List Bool
stuffed_of s = bit_stuff (content s.body)

framed-append :
    (s : Sent) (tail : List Bool)
    → framed s ++ tail
      ≡ flags (max 1 s.preamble_flags)
        ++ (stuffed_of s ++ (flags (max 1 s.postamble_flags) ++ tail))
unfolding frame
framed-append s tail =
    let p = flags (max 1 s.preamble_flags) in
    let q = flags (max 1 s.postamble_flags) in
    append_assoc p (stuffed_of s ++ q) tail ∙ ap (◌++◌ p) (append_assoc (stuffed_of s) q tail)

length-framed :
    (s : Sent)
    → length (framed s)
      ≡ 8 * max 1 s.preamble_flags + length (stuffed_of s) + 8 * max 1 s.postamble_flags
unfolding frame
length-framed s =
    let p = max 1 s.preamble_flags in
    let q = max 1 s.postamble_flags in
    omega (
      arith,
      length-append (flags p) (stuffed_of s ++ flags q),
      length-append (stuffed_of s) (flags q),
      length-flags p,
      length-flags q,
    )

deframe_from :
    (before : List Bool) (n : ℕ) (sents : List Sent)
    → AreBodies sents
    → frames
        (before ++ (flags n ++ transmission sents))
        (starts_loop 0 (length before) (flags n ++ transmission sents))
      ≡ received (length before + 8 * n) sents
unfolding starts_loop
deframe_from before n [] ok =
    ap (frames (before ++ (flags n ++ [])))
      (scan_flags n (length before) [] ∙ append-nil (flag_starts n (length before)))
    ∙ frames_run_alone _ n (length before)
deframe_from before n (s ∷ rest) ok =
    let p = max 1 s.preamble_flags in
    let q = max 1 s.postamble_flags in
    let S = stuffed_of s in
    let T = transmission rest in
    let run = flags (suc (n + (p - 1))) in
    let C = flags (suc (q - 1)) ++ T in
    let i = length before in
    let reassociated : flags n ++ transmission (s ∷ rest) ≡ run ++ (S ++ C) =
      ap (◌++◌ (flags n)) (framed-append s T)
      ∙ flags_add n p (S ++ (flags q ++ T))
      ∙ ap₂ (λ a b. flags a ++ (S ++ (flags b ++ T))) {y = suc (n + (p - 1))} (omega arith)
          (max_one s.postamble_flags) in
    let before' = before ++ (run ++ S) in
    let split : before ++ (run ++ (S ++ C)) ≡ before' ++ C =
      ap (◌++◌ before) (sym (append_assoc run S C)) ∙ sym (append_assoc before (run ++ S) C) in
    let size : length before' ≡ i + 8 * suc (n + (p - 1)) + length S = omega (
      arith,
      length-append before (run ++ S),
      length-append run S,
      length-flags (suc (n + (p - 1))),
    ) in
    let tail : frames (before ++ (run ++ (S ++ C)))
          (starts_loop 0 (i + 8 * suc (n + (p - 1)) + length S) C)
        ≡ received (i + 8 * n + length (framed s)) rest =
      ap₂ (λ l k. frames l (starts_loop 0 k C)) split (sym size)
      ∙ deframe_from before' (suc (q - 1)) rest ok.1
      ∙ ap (λ k. received k rest) {x = length before' + 8 * suc (q - 1)}
          (omega (arith, size, length-framed s)) in
    rw reassociated (
      segment before (n + (p - 1)) (q - 1) s.body T ok.0
      ∙ ap₂ (λ o l. record { body = s.body; offset = o } ∷ l) {y = i + 8 * n + 8 * (p - 1)}
          (omega arith) tail)

-- On a stream of any frames of octets of 16 and more, one after the other, each with any numbers
-- of flags before and after it, the deframer finds exactly these bodies, in order, each at the
-- index of the last flag of its preamble.
pub deframe-transmission :
    (sents : List Sent)
    → AreBodies sents
    → deframe_with_offsets (transmission sents) ≡ received 0 sents
unfolding deframe_with_offsets starts flags
deframe-transmission sents ok = deframe_from [] 0 sents ok
