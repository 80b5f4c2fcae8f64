-- ===== src/RuntimeQueue/Invariant.antt =====
-- The bounds and the accounts of the queue, over every operation.
use gs_flowgraphs.Base.{ℕ, ◌+◌, ◌≤◌, ◌≡◌, List, [], ◌∷◌, ◌++◌, ok, arith}
use gs_flowgraphs.Base.{length, length-append}
use gs_flowgraphs.RuntimeQueue.{BoundedQueue, Entry, init, offer, drain}

module _ {T : Type 0} where
  abbrev pub total_units : List (Entry T) → ℕ
  total_units [] = 0
  total_units (e ∷ items) = e.units + total_units items

  total_units-append :
      (xs ys : List (Entry T)) → total_units (xs ++ ys) ≡ total_units xs + total_units ys
  total_units-append [] ys = omega arith
  total_units-append (e ∷ xs) ys = omega (arith, total_units-append xs ys)

  pub record IsAccounted (q : BoundedQueue T) : Type 0 where
    pub within_items : length q.items ≤ q.capacity_items
    pub within_units : q.queued_units ≤ q.capacity_units
    pub units_counted : q.queued_units ≡ total_units q.items
    pub items_balance : q.accepted_items ≡ q.drained_items + length q.items
    pub units_balance : q.accepted_units ≡ q.drained_units + q.queued_units

  pub init-IsAccounted :
      (capacity_items capacity_units : ℕ) (q : BoundedQueue T)
      → init capacity_items capacity_units ≡ ok q
      → IsAccounted q
  unfolding init
  init-IsAccounted ci cu q h = ground arith

  pub offer-IsAccounted :
      (q : BoundedQueue T) (item : T) (units : ℕ)
      → IsAccounted q
      → IsAccounted (offer q item units).0
  unfolding offer
  offer-IsAccounted q item units v = ground (
    arith,
    length-append q.items (record { item = item; units = units } ∷ []),
    total_units-append q.items (record { item = item; units = units } ∷ []),
  )

  pub drain-IsAccounted : (q : BoundedQueue T) → IsAccounted q → IsAccounted (drain q).0
  unfolding drain
  drain-IsAccounted q v = ground arith
