-- ===== src/Sync/Chunks.antt =====
-- The matches of sync.py do not depend on how the stream is cut into chunks.
use gs_flowgraphs.Base.{
  ℕ, zero, suc, ◌+◌, ◌-◌, ◌≤◌, ◌≡◌, refl, ap, ap₂, sym, ◌∙◌, Bool, List, [], ◌∷◌, ◌++◌, min,
  append_assoc, arith,
}
use gs_flowgraphs.Base.{length, take, drop, length-append, length-drop}
use gs_flowgraphs.Sync.{SyncMatch, StreamingSync, match_of, match_at, scan, push}

-- The tail is shorter than the pattern, and was seen.
pub record IsSynced (s : StreamingSync) : Type 0 where
  pub some_pattern : 1 ≤ length s.pattern
  pub short : length s.tail ≤ length s.pattern - 1
  pub seen : length s.tail ≤ s.total_seen

pub take-append_short : (n : ℕ) (xs ys : List Bool) → n ≤ length xs → take n (xs ++ ys) ≡ take n xs
take-append_short zero xs ys h = refl
take-append_short (suc n) [] ys h = absurd (omega arith)
take-append_short (suc n) (x ∷ xs) ys h = ap (◌∷◌ x) (take-append_short n xs ys (omega arith))

pub drop-append_short :
    (n : ℕ) (xs ys : List Bool) → n ≤ length xs → drop n (xs ++ ys) ≡ drop n xs ++ ys
drop-append_short zero xs ys h = refl
drop-append_short (suc n) [] ys h = absurd (omega arith)
drop-append_short (suc n) (x ∷ xs) ys h = drop-append_short n xs ys (omega arith)

pub drop-nil : (n : ℕ) → drop {A = Bool} n [] ≡ []
drop-nil zero = refl
drop-nil (suc n) = refl

pub drop-drop : (m n : ℕ) (xs : List Bool) → drop m (drop n xs) ≡ drop (n + m) xs
drop-drop m zero xs = ap (λ k. drop k xs) {y = 0 + m} (omega arith)
drop-drop m (suc n) [] = drop-nil m ∙ sym (drop-nil (suc n + m))
drop-drop m (suc n) (x ∷ xs) =
    drop-drop m n xs ∙ ap (λ k. drop k (x ∷ xs)) {x = suc (n + m)} {y = suc n + m} (omega arith)

-- The windows of the first `n` indices lie in the part that is already there.
scan-append :
    (s : StreamingSync) (n start : ℕ) (xs ys : List Bool)
    → 1 ≤ length s.pattern
    → n ≤ length xs + 1 - length s.pattern
    → scan s n start (xs ++ ys) ≡ scan s n start xs
unfolding scan
scan-append s zero start xs ys p h = refl
scan-append s (suc n) start [] ys p h = absurd (omega arith)
scan-append s (suc n) start (x ∷ xs) ys p h =
    ap₂ (λ w rest. match_at s start w ++ rest)
      (take-append_short (length s.pattern) (x ∷ xs) ys (omega arith))
      (scan-append s n (start + 1) xs ys p (omega arith))

scan_cong :
    (s : StreamingSync) (xs : List Bool) {m n i j : ℕ}
    → m ≡ n
    → i ≡ j
    → scan s m i xs ≡ scan s n j xs
scan_cong s xs p q = ap₂ (λ k start. scan s k start xs) p q

scan_split :
    (s : StreamingSync) (m n start : ℕ) (xs : List Bool)
    → scan s (m + n) start xs ≡ scan s m start xs ++ scan s n (start + m) (drop m xs)
unfolding scan
scan_split s zero n start xs =
    scan_cong s xs {m = 0 + n} {j = start + 0} (omega arith) (omega arith)
scan_split s (suc m) n start xs =
    scan_cong s xs {m = suc m + n} {n = suc (m + n)} {i = start} (omega arith) refl
    ∙ ap (◌++◌ here) (
        scan_split s m n (start + 1) (drop 1 xs)
        ∙ ap₂ (λ i rest. scan s m (start + 1) (drop 1 xs) ++ scan s n i rest) {x = start + 1 + m}
            {y = start + suc m} (omega arith)
            (drop-drop m 1 xs ∙ ap (λ k. drop k xs) {x = 1 + m} {y = suc m} (omega arith)))
    ∙ sym (
        append_assoc here (scan s m (start + 1) (drop 1 xs))
          (scan s n (start + suc m) (drop (suc m) xs)))
  where
    here : List SyncMatch
    here = match_at s start (take (length s.pattern) xs)

-- Only the configuration of the correlator matters to its windows.
scan_moved :
    (s : StreamingSync) (tail : List Bool) (total n start : ℕ) (xs : List Bool)
    → scan (record s { tail = tail; total_seen = total }) n start xs ≡ scan s n start xs
unfolding scan match_at match_of
scan_moved s tail total zero start xs = refl
scan_moved s tail total (suc n) start xs =
    ap (◌++◌ (match_at s start (take (length s.pattern) xs)))
      (scan_moved s tail total n (start + 1) (drop 1 xs))

module _ (s : StreamingSync) (ok : IsSynced s) (xs ys : List Bool) where
  abbrev width : ℕ
  width = length s.pattern

  abbrev combined : List Bool
  combined = s.tail ++ xs

  -- How many windows the first chunk completes, and what it leaves.
  abbrev done : ℕ
  done = length combined + 1 - width

  left : length combined - min (width - 1) (length combined) ≡ done
  left = omega (arith, ok.some_pattern)

  done_fits : done ≤ length combined
  done_fits = omega (arith, ok.some_pattern)

  first_tail : (push s xs).0.tail ≡ drop done combined
  unfolding push
  first_tail = ap (λ k. drop k combined) left

  kept : drop done (combined ++ ys) ≡ drop done combined ++ ys
  kept = drop-append_short done combined ys done_fits

  whole : s.tail ++ (xs ++ ys) ≡ combined ++ ys
  whole = sym (append_assoc s.tail xs ys)

  pub push-IsSynced : IsSynced (push s xs).0
  unfolding push
  push-IsSynced = record {
    some_pattern = ok.some_pattern;
    short = omega (
      arith,
      length-drop (length combined - min (width - 1) (length combined)) combined,
      ok.some_pattern,
    );
    seen = omega (
      arith,
      length-drop (length combined - min (width - 1) (length combined)) combined,
      ok.seen,
      length-append s.tail xs,
      ok.some_pattern,
    );
  }

  -- What the second chunk starts from, and how many windows it completes.
  abbrev next : StreamingSync
  next = (push s xs).0

  abbrev combined_next : List Bool
  combined_next = drop done combined ++ ys

  next_tail : next.tail ++ ys ≡ combined_next
  next_tail = ap (λ t. t ++ ys) first_tail

  size_whole : length (s.tail ++ (xs ++ ys)) ≡ length combined + length ys
  size_whole = ap length whole ∙ length-append combined ys

  size_next : length combined_next ≡ length combined - done + length ys
  size_next = omega (arith, length-append (drop done combined) ys, length-drop done combined)

  tails : (push s (xs ++ ys)).0.tail ≡ (push next ys).0.tail
  unfolding push
  tails =
      let k = length (s.tail ++ (xs ++ ys)) - min (width - 1) (length (s.tail ++ (xs ++ ys))) in
      let k' = length (next.tail ++ ys) - min (width - 1) (length (next.tail ++ ys)) in
      let size : length (next.tail ++ ys) ≡ length combined_next = ap length next_tail in
      let same : k ≡ done + k' = omega (arith, size_whole, size_next, size, ok.some_pattern) in
      ap₂ drop same whole
      ∙ sym (drop-drop k' done (combined ++ ys))
      ∙ ap (drop k') (kept ∙ sym next_tail)

  totals : (push s (xs ++ ys)).0.total_seen ≡ (push next ys).0.total_seen
  unfolding push
  totals = omega (arith, length-append xs ys)

  matches : (push s (xs ++ ys)).1 ≡ (push s xs).1 ++ (push next ys).1
  unfolding push
  matches =
      let base = s.total_seen - length s.tail in
      let n = length (s.tail ++ (xs ++ ys)) + 1 - width in
      let n' = length (next.tail ++ ys) + 1 - width in
      let size : length (next.tail ++ ys) ≡ length combined_next = ap length next_tail in
      let same : n ≡ done + n' = omega (arith, size_whole, size_next, size, ok.some_pattern) in
      let later : base + done ≡ next.total_seen - length next.tail = omega (
        arith,
        ap length first_tail,
        length-drop done combined,
        length-append s.tail xs,
        ok.seen,
        ok.some_pattern,
      ) in
      ap₂ (λ k l. scan s k base l) same whole
      ∙ scan_split s done n' base (combined ++ ys)
      ∙ ap₂ ◌++◌ (scan-append s done base combined ys ok.some_pattern (omega arith)) (
          ap₂ (λ i l. scan s n' i l) later (kept ∙ sym next_tail)
          ∙ sym (
              scan_moved s next.tail next.total_seen n' (next.total_seen - length next.tail)
                (next.tail ++ ys)))

-- Pushing a stream in two chunks gives the same matches, joined, and the same state as pushing it
-- at once.
pub push_in_chunks :
    (s : StreamingSync) (xs ys : List Bool)
    → IsSynced s
    → let first = push s xs in
      let second = push first.0 ys in push s (xs ++ ys) ≡ (second.0, first.1 ++ second.1)
unfolding push
push_in_chunks s xs ys ok = λ i.
    (record s { tail = tails s ok xs ys i; total_seen = totals s ok xs ys i }, matches s ok xs ys i)
