-- ===== src/Fixed/Pending.antt =====
-- The order of the pending frames of fixed.py, and how the end of the stream divides them.
use gs_flowgraphs.Base.{
  ℕ, zero, suc, ◌+◌, ◌-◌, ◌≤◌, ◌<◌, ◌≡◌, refl, ap, ap₂, sym, Bool, true, false, List, [], ◌∷◌, ◌++◌,
  map, arith, inl, inr, subst,
}
use gs_flowgraphs.Base.{Bool-cases, ltb, leb, if◌then◌else◌, length, drop, take}
use gs_flowgraphs.Sync.{
  StreamingSync, SyncMatch, scan, match_at, match_of, judged, distance, Polarity,
}
use gs_flowgraphs.Fixed.{PendingFrame, pending_from_match}

-- Those whose capture is within `n` bits of stream, and those that wait for more.
abbrev pub finished : ℕ → List PendingFrame → List PendingFrame
finished n [] = []
finished n (p ∷ ps) = if ltb n p.capture_end then finished n ps else p ∷ finished n ps

abbrev pub waiting : ℕ → List PendingFrame → List PendingFrame
waiting n [] = []
waiting n (p ∷ ps) = if ltb n p.capture_end then p ∷ waiting n ps else waiting n ps

pub finished-append :
    (n : ℕ) (ps qs : List PendingFrame) → finished n (ps ++ qs) ≡ finished n ps ++ finished n qs
finished-append n [] qs = refl
finished-append n (p ∷ ps) qs = elim (Bool-cases (ltb n p.capture_end)) [
  | inl more ↦ rw more (finished-append n ps qs)
  | inr whole ↦ rw whole (ap (◌∷◌ p) (finished-append n ps qs))
]

pub waiting-append :
    (n : ℕ) (ps qs : List PendingFrame) → waiting n (ps ++ qs) ≡ waiting n ps ++ waiting n qs
waiting-append n [] qs = refl
waiting-append n (p ∷ ps) qs = elim (Bool-cases (ltb n p.capture_end)) [
  | inl more ↦ rw more (ap (◌∷◌ p) (waiting-append n ps qs))
  | inr whole ↦ rw whole (waiting-append n ps qs)
]

-- Captures of `size` bits that start at `low` and later, in order, and at `high` at the latest.
abbrev pub IsOrdered : ℕ → ℕ → ℕ → List PendingFrame → Type 0
IsOrdered size low high [] = Unit {0}
IsOrdered size low high (p ∷ ps) =
    (low ≤ p.capture_start)
    × (p.capture_start ≤ high)
    × (p.capture_end ≡ p.capture_start + size)
    × IsOrdered size p.capture_start high ps

module _ (size : ℕ) where
  pub IsOrdered-lower :
      (low low' high : ℕ) (ps : List PendingFrame)
      → low' ≤ low
      → IsOrdered size low high ps
      → IsOrdered size low' high ps
  IsOrdered-lower low low' high [] h o = tt
  IsOrdered-lower low low' high (p ∷ ps) h o = (omega (arith, o.0), o.1, o.2, o.3)

  -- Past the end of the stream nothing is finished.
  none_finished :
      (n low high : ℕ) (ps : List PendingFrame)
      → n < low + size
      → IsOrdered size low high ps
      → finished n ps ≡ []
  none_finished n low high [] h o = refl
  none_finished n low high (p ∷ ps) h o =
      let more : ltb n p.capture_end ≡ true = ground (arith, o.0, o.2) in
      rw more (none_finished n p.capture_start high ps (omega (arith, o.0)) o.3)

  all_wait :
      (n low high : ℕ) (ps : List PendingFrame)
      → n < low + size
      → IsOrdered size low high ps
      → waiting n ps ≡ ps
  all_wait n low high [] h o = refl
  all_wait n low high (p ∷ ps) h o =
      let more : ltb n p.capture_end ≡ true = ground (arith, o.0, o.2) in
      rw more (ap (◌∷◌ p) (all_wait n p.capture_start high ps (omega (arith, o.0)) o.3))

  pub IsOrdered-append :
      (low mid high : ℕ) (ps qs : List PendingFrame)
      → low ≤ mid
      → mid ≤ high
      → IsOrdered size low mid ps
      → IsOrdered size mid high qs
      → IsOrdered size low high (ps ++ qs)
  IsOrdered-append low mid high [] qs h k o u = IsOrdered-lower mid low high qs h u
  IsOrdered-append low mid high (p ∷ ps) qs h k o u =
      (o.0, omega (arith, o.1), o.2, IsOrdered-append p.capture_start mid high ps qs o.1 k o.3 u)

  -- What is finished later is what was finished before and what was waited for.
  pub finished_split :
      (m n low high : ℕ) (ps : List PendingFrame)
      → m ≤ n
      → IsOrdered size low high ps
      → finished n ps ≡ finished m ps ++ finished n (waiting m ps)
  finished_split m n low high [] h o = refl
  finished_split m n low high (p ∷ ps) h o = elim (Bool-cases (ltb m p.capture_end)) [
    | inl more ↦
        let early : m < p.capture_start + size = ground (arith, o.2) in
        rw more (
          ap₂ (λ f w. f ++ finished n (p ∷ w))
            (sym (none_finished m p.capture_start high ps early o.3))
            (sym (all_wait m p.capture_start high ps early o.3)))
    | inr whole ↦
        let also : ltb n p.capture_end ≡ false = ground (arith) in
        rw (whole, also) (ap (◌∷◌ p) (finished_split m n p.capture_start high ps h o.3))
  ]

  pub waiting_again :
      (m n : ℕ) (ps : List PendingFrame) → m ≤ n → waiting n (waiting m ps) ≡ waiting n ps
  waiting_again m n [] h = refl
  waiting_again m n (p ∷ ps) h = elim (Bool-cases (ltb m p.capture_end)) [
    | inl more ↦
        rw more (ap (λ w. if ltb n p.capture_end then p ∷ w else w) (waiting_again m n ps h))
    | inr whole ↦
        let also : ltb n p.capture_end ≡ false = ground (arith) in
        rw (whole, also) (waiting_again m n ps h)
  ]

front-IsOrdered :
    (s : StreamingSync) (size start high : ℕ) (v : ℕ × Polarity) (ms : List SyncMatch)
    → start + length s.pattern ≤ high
    → IsOrdered size (start + 1 + length s.pattern) high (map (pending_from_match size) ms)
    → IsOrdered size
        (start + length s.pattern)
        high
        (map (pending_from_match size) (match_of s start v ++ ms))
unfolding match_of pending_from_match
front-IsOrdered s size start high (d, p) ms h ordered =
    let rest = map (pending_from_match size) ms in
    let lower = λ (bound : ℕ) (le : bound ≤ start + 1 + length s.pattern).
      IsOrdered-lower size (start + 1 + length s.pattern) bound high rest le ordered in
    elim (Bool-cases (leb d s.threshold)) [
      | inl near ↦ rw near (omega arith, h, refl, lower (start + length s.pattern) (omega arith))
      | inr far ↦ rw far (lower (start + length s.pattern) (omega arith))
    ]

-- The matches of a scan are in order, each past the pattern.
pub scan-IsOrdered :
    (s : StreamingSync) (size n start high : ℕ) (xs : List Bool)
    → n ≤ high + 1 - (start + length s.pattern)
    → IsOrdered size
        (start + length s.pattern)
        high
        (map (pending_from_match size) (scan s n start xs))
unfolding scan match_at
scan-IsOrdered s size zero start high xs h = tt
scan-IsOrdered s size (suc n) start high xs h =
    front-IsOrdered s size start high
      (judged s.accept_inverted s.threshold (length s.pattern)
        (distance (take (length s.pattern) xs) s.pattern))
      (scan s n (start + 1) (drop 1 xs)) (omega arith)
      (scan-IsOrdered s size n (start + 1) high (drop 1 xs) (omega arith))

pub waiting_head :
    (n : ℕ) (ps : List PendingFrame) (p : PendingFrame) (rest : List PendingFrame)
    → waiting n ps ≡ p ∷ rest
    → n < p.capture_end
waiting_head n [] p rest h = absurd (cc)
waiting_head n (q ∷ ps) p rest h = elim (Bool-cases (ltb n q.capture_end)) [
  | inl later ↦
      let e : q ∷ waiting n ps ≡ p ∷ rest = rw later at h in
      let same : q ≡ p = cc in
      let late : n < q.capture_end = ground arith in subst (λ x. n < x.capture_end) same late
  | inr whole ↦ waiting_head n ps p rest (rw whole at h)
]
