-- ===== src/Tests/Queues.antt =====
-- A concrete run of the bounded queue of runtime_queue.py.
use gs_flowgraphs.Base.{ℕ, ◌+◌, ◌≡◌, refl, List, [], ◌∷◌, ◌++◌, ok, ◌↔◌, length}
use gs_flowgraphs.RuntimeQueue.{BoundedQueue, init, stats, require_lossless, lossless}
use gs_flowgraphs.RuntimeQueue.Invariant.{IsAccounted}
use gs_flowgraphs.RuntimeQueue.Lossless.{Op, offering, draining, run, start, pending, run_faithful}

abbrev small : BoundedQueue ℕ
small = record {
  capacity_items = 2;
  capacity_units = 10;
  items = [];
  queued_units = 0;
  accepted_items = 0;
  accepted_units = 0;
  drained_items = 0;
  drained_units = 0;
  dropped_items = 0;
  dropped_units = 0;
}

abbrev traffic : List (Op ℕ)
traffic = offering 1 4 ∷ offering 2 9 ∷ offering 3 6 ∷ draining ∷ offering 4 10 ∷ []

small-init : init 2 10 ≡ ok small
unfolding init
small-init = refl

run_faithful_example :
    let h = run (start small) traffic in
    IsAccounted h.queue
    × (h.delivered ++ pending h.queue ≡ h.taken)
    × (length h.taken + h.queue.dropped_items ≡ length h.offered)
    × ((require_lossless (stats h.queue) ≡ lossless) ↔ (h.taken ≡ h.offered))
run_faithful_example = run_faithful 2 10 small traffic small-init
