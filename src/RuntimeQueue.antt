-- ===== src/RuntimeQueue.antt =====
-- native_framing/runtime_queue.py: the bounded queues between the scheduler and the decoders. The
-- lock makes each method one step; a negative number has no `ℕ`, and the type tests are Python's.
pub mod Invariant
pub mod Lossless
use gs_flowgraphs.Base.{
  ℕ, zero, suc, ◌+◌, ◌≤◌, Bool, true, false, List, [], ◌∷◌, ◌++◌, map, ◌||◌, Result, ok,
  value_error,
}
use gs_flowgraphs.Base.{ltb, leb, ◌==◌, if◌then◌else◌, length}

pub record QueueStats : Type 0 where
  pub capacity_items : ℕ
  pub capacity_units : ℕ
  pub queued_items : ℕ
  pub queued_units : ℕ
  pub accepted_items : ℕ
  pub accepted_units : ℕ
  pub drained_items : ℕ
  pub drained_units : ℕ
  pub dropped_items : ℕ
  pub dropped_units : ℕ

-- `require_lossless`: `QueueOverflowError`, or nothing.
pub data Checked : Type 0 where
  lossless : Checked
  queue_overflow : QueueStats → Checked

unfoldable pub require_lossless : QueueStats → Checked
require_lossless stats = if stats.dropped_items == 0 then lossless else queue_overflow stats

pub record Entry (T : Type 0) : Type 0 where
  pub item : T
  pub units : ℕ

pub record BoundedQueue (T : Type 0) : Type 0 where
  pub capacity_items : ℕ
  pub capacity_units : ℕ
  pub items : List (Entry T)
  pub queued_units : ℕ
  pub accepted_items : ℕ
  pub accepted_units : ℕ
  pub drained_items : ℕ
  pub drained_units : ℕ
  pub dropped_items : ℕ
  pub dropped_units : ℕ

module _ {T : Type 0} where
  -- `__init__`
  unfoldable pub init : ℕ → ℕ → Result (BoundedQueue T)
  init capacity_items capacity_units =
      if capacity_items == 0 || capacity_units == 0
      then value_error
      else ok (record {
        capacity_items = capacity_items;
        capacity_units = capacity_units;
        items = [];
        queued_units = 0;
        accepted_items = 0;
        accepted_units = 0;
        drained_items = 0;
        drained_units = 0;
        dropped_items = 0;
        dropped_units = 0;
      })

  -- The new queue, and whether the item was taken.
  unfoldable pub offer : BoundedQueue T → T → ℕ → BoundedQueue T × Bool
  offer q item units =
      if leb q.capacity_items (length q.items) || ltb q.capacity_units (q.queued_units + units)
      then (
        record q { dropped_items = q.dropped_items + 1; dropped_units = q.dropped_units + units },
        false,
      )
      else (
        record q {
          items = q.items ++ record { item = item; units = units } ∷ [];
          queued_units = q.queued_units + units;
          accepted_items = q.accepted_items + 1;
          accepted_units = q.accepted_units + units;
        },
        true,
      )

  -- What `drain` does with a queue that is not empty.
  pub drain_all : BoundedQueue T → BoundedQueue T × List T
  drain_all q = (
    record q {
      items = [];
      queued_units = 0;
      drained_items = q.drained_items + length q.items;
      drained_units = q.drained_units + q.queued_units;
    },
    map (λ e. e.item) q.items,
  )

  unfoldable pub drain : BoundedQueue T → BoundedQueue T × List T
  unfolding drain_all
  drain q = if length q.items == 0 then (q, []) else drain_all q

  unfoldable pub stats : BoundedQueue T → QueueStats
  stats q = record {
    capacity_items = q.capacity_items;
    capacity_units = q.capacity_units;
    queued_items = length q.items;
    queued_units = q.queued_units;
    accepted_items = q.accepted_items;
    accepted_units = q.accepted_units;
    drained_items = q.drained_items;
    drained_units = q.drained_units;
    dropped_items = q.dropped_items;
    dropped_units = q.dropped_units;
  }
