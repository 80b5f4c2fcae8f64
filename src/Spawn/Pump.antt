-- ===== src/Spawn/Pump.antt =====
-- _spawn_contract.py, `pump_data_queue` and `signal_pump_end`: the bounded queue of chunks for the
-- data socket, and the `None` that ends the pump. What the producer and the pump do to the queue
-- between two attempts is a list of steps, and the writer of the socket is a function on its state.
use gs_flowgraphs.Base.{
  ℕ, zero, suc, ◌+◌, Bool, true, false, Option, none, some, List, [], ◌∷◌, ◌++◌, ◌&&◌,
  if◌then◌else◌, length, ltb, leb,
}
use gs_flowgraphs.Spawn.Commands.{Outcome, returned, raised}

-- A step of another thread: the producer offers a chunk, or the pump takes an item.
pub data Step (Chunk : Type 0) : Type 0 where
  offer : Chunk → Step Chunk
  take_one : Step Chunk

module _ {Chunk : Type 0} where
  unfoldable pub is_full : ℕ → List (Option Chunk) → Bool
  is_full maxsize q = ltb 0 maxsize && leb maxsize (length q)

  -- `put_nowait`; `none` is `queue.Full`.
  unfoldable pub put_nowait : ℕ → Option Chunk → List (Option Chunk) → Option (List (Option Chunk))
  put_nowait maxsize item q = if is_full maxsize q then none else some (q ++ item ∷ [])

  -- `get_nowait`, for the queue that it leaves; the source suppresses `queue.Empty`.
  unfoldable pub drop_oldest : List (Option Chunk) → List (Option Chunk)
  drop_oldest [] = []
  drop_oldest (item ∷ q) = q

  unfoldable pub or_keep : List (Option Chunk) → Option (List (Option Chunk)) → List (Option Chunk)
  or_keep q none = q
  or_keep q (some grown) = grown

  unfoldable pub other : ℕ → Step Chunk → List (Option Chunk) → List (Option Chunk)
  other maxsize (offer c) q = or_keep q (put_nowait maxsize (some c) q)
  other maxsize take_one q = drop_oldest q

  unfoldable pub others : ℕ → List (Step Chunk) → List (Option Chunk) → List (Option Chunk)
  others maxsize [] q = q
  others maxsize (step ∷ steps) q = others maxsize steps (other maxsize step q)

  -- The schedule gives the steps of the others after each attempt that found the queue full.
  unfoldable pub steps_now : List (List (Step Chunk)) → List (Step Chunk)
  steps_now [] = []
  steps_now (steps ∷ schedule) = steps

  unfoldable pub steps_later : List (List (Step Chunk)) → List (List (Step Chunk))
  steps_later [] = []
  steps_later (steps ∷ schedule) = schedule

  unfoldable pub attempt_or :
      List (Option Chunk)
      → Option (List (Option Chunk))
      → List (Option Chunk) × Bool
      → List (Option Chunk) × Bool
  attempt_or q none later = later
  attempt_or q (some grown) later = (grown, true)

  -- The `for` loop, with the attempts that are left.
  unfoldable pub attempts_from :
      ℕ → ℕ → List (List (Step Chunk)) → List (Option Chunk) → List (Option Chunk) × Bool
  attempts_from maxsize zero schedule q = (q, false)
  attempts_from maxsize (suc left) schedule q = attempt_or q (put_nowait maxsize none q) (
      attempts_from maxsize left (steps_later schedule)
        (others maxsize (steps_now schedule) (drop_oldest q)))

  -- The queue in the end, and whether the sentinel is delivered or not needed.
  unfoldable pub signal_pump_end :
      ℕ → Bool → List (List (Step Chunk)) → List (Option Chunk) → List (Option Chunk) × Bool
  signal_pump_end maxsize pump_done schedule q =
      if pump_done then (q, true) else attempts_from maxsize (maxsize + 2) schedule q

-- How the pump ends, or that it waits for an item.
pub data Pumped : Type 0 where
  finished peer_closed waiting : Pumped

module _ {Chunk W : Type 0} (write : Chunk → W → W × Outcome) where
  unfoldable pub after_write : W × Outcome → (W → W × Pumped) → W × Pumped
  after_write (w, returned) later = later w
  after_write (w, raised) later = (w, peer_closed)

  unfoldable pub pump_data_queue : List (Option Chunk) → W → W × Pumped
  pump_data_queue [] w = (w, waiting)
  pump_data_queue (none ∷ q) w = (w, finished)
  pump_data_queue (some c ∷ q) w = after_write (write c w) (pump_data_queue q)
