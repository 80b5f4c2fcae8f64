-- ===== src/Spawn/Watch.antt =====
-- _spawn_contract.py, `await_first_samples` and `watch_engine_death`. A time is a natural number of
-- clock ticks: the times at which the source reads the clock, poll by poll, are a parameter, and so
-- is what the probe returns, `none` if it raises.
use gs_flowgraphs.Base.{
  ℕ, zero, suc, ◌+◌, ◌≤◌, ◌<◌, Bool, true, false, Option, none, some, ◌≡◌, refl, inl, inr, ltb, leb,
  arith, if◌then◌else◌, Bool-cases, ◌∙◌, ◌==◌, ==_iff, sym, subst,
}

-- An exception of the probe reads as no samples.
unfoldable pub samples : Option ℕ → ℕ
samples none = 0
samples (some n) = n

module _ (probe : ℕ → Option ℕ) (clock : ℕ → ℕ) (deadline : ℕ) where
  -- The polls from number `k`, with fuel; `none` means that the fuel ran out.
  unfoldable pub polls_from : ℕ → ℕ → Option Bool
  polls_from zero k = none
  polls_from (suc fuel) k =
      let rest = polls_from fuel (suc k) in
      if ltb 0 (samples (probe k))
      then some true
      else if leb deadline (clock k)
      then some false
      else rest

-- `start` is the time when the wait begins.
unfoldable pub await_first_samples : (ℕ → Option ℕ) → (ℕ → ℕ) → ℕ → ℕ → Option Bool
await_first_samples probe clock start timeout_s =
    polls_from probe clock (start + timeout_s) (suc timeout_s) 0

-- How the engine's task ended.
pub data TaskEnd : Type 0 where
  cancelled completed engine_failure other_exception : TaskEnd

pub data Code : Type 0 where
  engine_ended engine_died : Code

-- `_on_done`: the error event, after which the control reader is at its end; `none` is no report.
unfoldable pub on_done : TaskEnd → Bool → Option Code
on_done cancelled stop_requested = none
on_done completed stop_requested = if stop_requested then none else some engine_ended
on_done engine_failure stop_requested = some engine_died
on_done other_exception stop_requested = if stop_requested then none else some engine_died

-- What the wait tells at the poll that ends it.
abbrev pub EndsAt : (ℕ → Option ℕ) → (ℕ → ℕ) → ℕ → ℕ → Bool → Type 0
EndsAt probe clock deadline k true = 0 < samples (probe k)
EndsAt probe clock deadline k false = (samples (probe k) ≡ 0) × (deadline ≤ clock k)

module _ (probe : ℕ → Option ℕ) (clock : ℕ → ℕ) (deadline : ℕ) where
  -- Every earlier poll had no samples and was in time.
  abbrev pub Waits : ℕ → Type 0
  Waits k = (samples (probe k) ≡ 0) × (clock k < deadline)

  abbrev pub Answers : ℕ → Option Bool → Type 0
  Answers k r =
      (b : Bool) × (last : ℕ) × (r ≡ some b)
      × (k ≤ last)
      × ((j : ℕ) → k ≤ j → j < last → Waits j)
      × EndsAt probe clock deadline last b

  poll-samples :
      (fuel k : ℕ)
      → 0 < samples (probe k)
      → polls_from probe clock deadline (suc fuel) k ≡ some true
  unfolding polls_from
  poll-samples fuel k h =
      let seen : ltb 0 (samples (probe k)) ≡ true = ground arith in rw (seen) refl

  poll-late :
      (fuel k : ℕ)
      → samples (probe k) ≡ 0
      → deadline ≤ clock k
      → polls_from probe clock deadline (suc fuel) k ≡ some false
  unfolding polls_from
  poll-late fuel k h l =
      let unseen : ltb 0 (samples (probe k)) ≡ false = ground arith in
      let late : leb deadline (clock k) ≡ true = ground arith in rw (unseen, late) refl

  poll-Waits :
      (fuel k : ℕ)
      → Waits k
      → polls_from probe clock deadline (suc fuel) k ≡ polls_from probe clock deadline fuel (suc k)
  unfolding polls_from
  poll-Waits fuel k (h, l) =
      let unseen : ltb 0 (samples (probe k)) ≡ false = ground arith in
      let early : leb deadline (clock k) ≡ false = ground arith in rw (unseen, early) refl

  data Poll : ℕ → Type 0 where
    seen : {k : ℕ} → 0 < samples (probe k) → Poll k
    late : {k : ℕ} → samples (probe k) ≡ 0 → deadline ≤ clock k → Poll k
    waits : {k : ℕ} → Waits k → Poll k

  poll : (k : ℕ) → Poll k
  poll k = elim (Bool-cases (ltb 0 (samples (probe k)))) [
    | inl s ↦ seen (ground arith)
    | inr u ↦ elim (Bool-cases (leb deadline (clock k))) [
      | inl l ↦ late (ground arith) (ground arith)
      | inr e ↦ waits (ground arith, ground arith)
    ]
  ]

  Answers-later : (k : ℕ) (r r' : Option Bool) → Waits k → r ≡ r' → Answers (suc k) r' → Answers k r
  Answers-later k r r' w e (b, last, p, q, before, ends) = (
    b,
    last,
    e ∙ p,
    omega arith,
    λ j a c. elim (Bool-cases (j == k)) [
      | inl s ↦ subst Waits (sym ((==_iff j k).0 s)) w
      | inr n ↦ before j (ground arith) c
    ],
    ends,
  )

  polls-Answers :
      ((k : ℕ) → clock k < clock (suc k))
      → (left k : ℕ) → deadline ≤ left + clock k
      → Answers k (polls_from probe clock deadline (suc left) k)
  polls-Answers grows zero k h = elim (poll k) [
    | seen s ↦ (true, k, poll-samples 0 k s, omega arith, λ j a c. absurd (omega arith), s)
    | late u l ↦ (false, k, poll-late 0 k u l, omega arith, λ j a c. absurd (omega arith), (u, l))
    | waits w ↦ absurd (omega (arith, w.1))
  ]
  polls-Answers grows (suc left) k h = elim (poll k) [
    | seen s ↦ (true, k, poll-samples (suc left) k s, omega arith, λ j a c. absurd (omega arith), s)
    | late u l ↦
        (false, k, poll-late (suc left) k u l, omega arith, λ j a c. absurd (omega arith), (u, l))
    | waits w ↦
        Answers-later k _ _ w (poll-Waits (suc left) k w)
          (polls-Answers grows left (suc k) (omega (arith, grows k)))
  ]

-- On a clock that each poll finds later, the wait ends within its fuel. It ends at some poll, every
-- earlier one being before the deadline and without samples: with `true` if that poll has samples,
-- with `false` if it has none and is not before the deadline.
pub await_first_samples-Answers :
    (probe : ℕ → Option ℕ) (clock : ℕ → ℕ) (start timeout_s : ℕ)
    → ((k : ℕ) → clock k < clock (suc k))
    → start ≤ clock 0
    → Answers probe clock (start + timeout_s) 0 (await_first_samples probe clock start timeout_s)
unfolding await_first_samples
await_first_samples-Answers probe clock start timeout_s grows h =
    polls-Answers probe clock (start + timeout_s) grows timeout_s 0 (omega arith)
