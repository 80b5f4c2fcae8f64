-- ===== src/Spawn/Sentinel.antt =====
-- The queue of chunks in `signal_pump_end` of _spawn_contract.py keeps its bound, and the sentinel
-- ends the pump.
use gs_flowgraphs.Base.{
  ℕ, zero, suc, ◌+◌, ◌≤◌, ◌<◌, Bool, true, false, Option, none, some, List, [], ◌∷◌, ◌++◌, ◌≡◌,
  refl, ap, ◌∙◌, inl, inr, arith, length, drop, Bool-cases, length-append, length-map, map,
}
use gs_flowgraphs.Spawn.Commands.{Outcome, returned, raised}
use gs_flowgraphs.Spawn.Pump.{
  Step, offer, take_one, is_full, put_nowait, drop_oldest, or_keep, other, others, steps_now,
  steps_later, attempt_or, attempts_from, signal_pump_end, Pumped, finished, after_write,
  pump_data_queue,
}

module _ {Chunk : Type 0} (maxsize : ℕ) where
  -- `queue.Queue`: a bound of 0 is no bound.
  abbrev pub IsBounded : List (Option Chunk) → Type 0
  IsBounded q = 0 < maxsize → length q ≤ maxsize

  full-length :
      (q : List (Option Chunk)) → is_full maxsize q ≡ true → (0 < maxsize) × (maxsize ≤ length q)
  unfolding is_full
  full-length q h = ground arith

  room-length :
      (q : List (Option Chunk)) → is_full maxsize q ≡ false → 0 < maxsize → length q < maxsize
  unfolding is_full
  room-length q h k = ground arith

  room : (q : List (Option Chunk)) → (0 < maxsize → length q < maxsize) → is_full maxsize q ≡ false
  unfolding is_full
  room q h = elim (Bool-cases (is_full maxsize q)) [
    | inl full ↦ absurd (omega (arith, full-length q full, h (full-length q full).0))
    | inr free ↦ free
  ]

  put-free :
      (item : Option Chunk) (q : List (Option Chunk))
      → is_full maxsize q ≡ false
      → put_nowait maxsize item q ≡ some (q ++ item ∷ [])
  unfolding put_nowait
  put-free item q h = rw (h) refl

  put-full :
      (item : Option Chunk) (q : List (Option Chunk))
      → is_full maxsize q ≡ true
      → put_nowait maxsize item q ≡ none
  unfolding put_nowait
  put-full item q h = rw (h) refl

  grown-IsBounded :
      (item : Option Chunk) (q : List (Option Chunk))
      → is_full maxsize q ≡ false
      → IsBounded (q ++ item ∷ [])
  grown-IsBounded item q h k = omega (arith, length-append q (item ∷ []), room-length q h k)

  put-IsBounded :
      (item : Option Chunk) (q : List (Option Chunk))
      → IsBounded q
      → IsBounded (or_keep q (put_nowait maxsize item q))
  unfolding or_keep
  put-IsBounded item q h = elim (Bool-cases (is_full maxsize q)) [
    | inl full ↦ rw (put-full item q full) h
    | inr free ↦ rw (put-free item q free) (grown-IsBounded item q free)
  ]

  drop_oldest-IsBounded : (q : List (Option Chunk)) → IsBounded q → IsBounded (drop_oldest q)
  unfolding drop_oldest
  drop_oldest-IsBounded [] h k = h k
  drop_oldest-IsBounded (item ∷ q) h k = omega (arith, h k)

  other-IsBounded :
      (step : Step Chunk) (q : List (Option Chunk)) → IsBounded q → IsBounded (other maxsize step q)
  unfolding other
  other-IsBounded (offer c) q h = put-IsBounded (some c) q h
  other-IsBounded take_one q h = drop_oldest-IsBounded q h

  others-IsBounded :
      (steps : List (Step Chunk)) (q : List (Option Chunk))
      → IsBounded q
      → IsBounded (others maxsize steps q)
  unfolding others
  others-IsBounded [] q h = h
  others-IsBounded (step ∷ steps) q h =
      others-IsBounded steps (other maxsize step q) (other-IsBounded step q h)

  -- What an outcome of the attempts satisfies.
  abbrev pub IsSignalled : List (Option Chunk) × Bool → Type 0
  IsSignalled r =
      IsBounded r.0 × (r.1 ≡ true → (left : List (Option Chunk)) × (r.0 ≡ left ++ none ∷ []))

  attempts-IsSignalled :
      (left : ℕ) (schedule : List (List (Step Chunk))) (q : List (Option Chunk))
      → IsBounded q
      → IsSignalled (attempts_from maxsize left schedule q)
  unfolding attempts_from attempt_or
  attempts-IsSignalled zero schedule q h = (h, λ e. absurd (cc))
  attempts-IsSignalled (suc left) schedule q h = elim (Bool-cases (is_full maxsize q)) [
    | inl full ↦ rw (put-full none q full) (
        attempts-IsSignalled left (steps_later schedule)
          (others maxsize (steps_now schedule) (drop_oldest q))
          (others-IsBounded (steps_now schedule) (drop_oldest q) (drop_oldest-IsBounded q h)))
    | inr free ↦ rw (put-free none q free) (grown-IsBounded none q free, λ e. (q, refl))
  ]

  -- Whatever the other threads do between the attempts, `signal_pump_end` keeps the queue within
  -- its bound, and when it reports success to a pump that is not done, the sentinel is the last
  -- item of the queue.
  pub signal_pump_end-IsSignalled :
      (schedule : List (List (Step Chunk))) (q : List (Option Chunk))
      → IsBounded q
      → IsSignalled (signal_pump_end maxsize false schedule q)
  unfolding signal_pump_end
  signal_pump_end-IsSignalled schedule q h = attempts-IsSignalled (maxsize + 2) schedule q h

  attempts-free :
      (left : ℕ) (q : List (Option Chunk))
      → is_full maxsize q ≡ false
      → attempts_from maxsize (suc left) [] q ≡ (q ++ none ∷ [], true)
  unfolding attempts_from attempt_or
  attempts-free left q free = rw (put-free none q free) refl

  attempts-full :
      (left : ℕ) (q : List (Option Chunk))
      → IsBounded q
      → is_full maxsize q ≡ true
      → attempts_from maxsize (suc (suc left)) [] q ≡ (drop 1 q ++ none ∷ [], true)
  unfolding attempts_from attempt_or steps_now steps_later others drop_oldest
  attempts-full left [] h full = absurd (omega (arith, full-length [] full))
  attempts-full left (item ∷ q) h full =
      rw (put-full none (item ∷ q) full) (attempts-free left q (room q (λ k. omega (arith, h k))))

  -- With no step of another thread, two attempts are enough, and one item is dropped at most.
  quiet-attempts :
      (left : ℕ) (q : List (Option Chunk))
      → IsBounded q
      → (dropped : ℕ) × (dropped ≤ 1)
        × (attempts_from maxsize (suc (suc left)) [] q ≡ (drop dropped q ++ none ∷ [], true))
  quiet-attempts left q h = elim (Bool-cases (is_full maxsize q)) [
    | inl full ↦ (1, omega arith, attempts-full left q h full)
    | inr free ↦ (0, omega arith, attempts-free (suc left) q free)
  ]

  signal-quiet :
      (q : List (Option Chunk))
      → IsBounded q
      → (dropped : ℕ) × (dropped ≤ 1)
        × (signal_pump_end maxsize false [] q ≡ (drop dropped q ++ none ∷ [], true))
  unfolding signal_pump_end
  signal-quiet q h =
      let two : maxsize + 2 ≡ suc (suc maxsize) = omega arith in
      let (dropped, small, result) = quiet-attempts maxsize q h in
      (dropped, small, ap (λ n. attempts_from maxsize n [] q) two ∙ result)

module _ {Chunk W : Type 0} (write : Chunk → W → W × Outcome) where
  -- The writer after the chunks, if no write raises.
  unfoldable pub written : List Chunk → W → W
  written [] w = w
  written (c ∷ chunks) w = written chunks (write c w).0

  after_returned :
      (r : W × Outcome) (later : W → W × Pumped)
      → r.1 ≡ returned
      → after_write write r later ≡ later r.0
  unfolding after_write
  after_returned (w, returned) later h = refl
  after_returned (w, raised) later h = absurd (cc)

  pump-sentinel :
      (chunks : List Chunk) (w : W)
      → ((c : Chunk) (w : W) → (write c w).1 ≡ returned)
      → pump_data_queue write (map some chunks ++ none ∷ []) w ≡ (written chunks w, finished)
  unfolding pump_data_queue written
  pump-sentinel [] w h = refl
  pump-sentinel (c ∷ chunks) w h =
      after_returned (write c w) (pump_data_queue write (map some chunks ++ none ∷ [])) (h c w)
      ∙ pump-sentinel chunks (write c w).0 h

  drop-map : (n : ℕ) (chunks : List Chunk) → drop n (map some chunks) ≡ map some (drop n chunks)
  drop-map zero chunks = refl
  drop-map (suc n) [] = refl
  drop-map (suc n) (c ∷ chunks) = drop-map n chunks

  -- A pump that is not done, with no other thread at the queue and an open peer, ends after
  -- `signal_pump_end`, which succeeds; it has written the chunks that were in the queue, in their
  -- order and all but the oldest one at most.
  pub signal_pump_end-pump_data_queue :
      (maxsize : ℕ) (chunks : List Chunk) (w : W)
      → (0 < maxsize → length chunks ≤ maxsize)
      → ((c : Chunk) (w : W) → (write c w).1 ≡ returned)
      → (dropped : ℕ) × (dropped ≤ 1)
        × ((signal_pump_end maxsize false [] (map some chunks)).1 ≡ true)
        × (pump_data_queue write (signal_pump_end maxsize false [] (map some chunks)).0 w
            ≡ (written (drop dropped chunks) w, finished))
  signal_pump_end-pump_data_queue maxsize chunks w h heard =
      let (dropped, small, result) =
        signal-quiet maxsize (map some chunks) (λ k. omega (arith, h k, length-map some chunks)) in
      (
        dropped,
        small,
        ap (λ r. r.1) result,
        ap (λ r. pump_data_queue write r.0 w) result
            ∙ ap (λ q. pump_data_queue write (q ++ none ∷ []) w) (drop-map dropped chunks)
            ∙ pump-sentinel (drop dropped chunks) w heard,
      )
