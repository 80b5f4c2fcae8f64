-- ===== src/RuntimeQueue/Lossless.antt =====
-- What a queue delivers over any sequence of offers and drains.
use gs_flowgraphs.Base.{
  ℕ, ◌+◌, ◌≡◌, refl, ap, sym, ◌∙◌, Bool, true, List, [], ◌∷◌, ◌++◌, map, ◌||◌, ok, inl, inr, ◌↔◌,
  append_assoc, append-nil, arith,
}
use gs_flowgraphs.Base.{ltb, leb, ◌==◌, ==_iff, if◌then◌else◌, length, length-append, Bool-cases}
use mathlib.Core.List.{map-append}
use gs_flowgraphs.RuntimeQueue.{
  BoundedQueue, Entry, init, offer, drain, stats, require_lossless, lossless,
}
use gs_flowgraphs.RuntimeQueue.Invariant.{
  IsAccounted, init-IsAccounted, offer-IsAccounted, drain-IsAccounted,
}

pub data Op (T : Type 0) : Type 0 where
  offering : T → ℕ → Op T
  draining : Op T

-- A queue with what was offered to it, what it took, and what was drained, in order.
pub record History (T : Type 0) : Type 0 where
  pub queue : BoundedQueue T
  pub offered : List T
  pub taken : List T
  pub delivered : List T

module _ {T : Type 0} where
  pub after_offer : History T → T → BoundedQueue T × Bool → History T
  after_offer h item (q, taken) = record {
    queue = q;
    offered = h.offered ++ item ∷ [];
    taken = if taken then h.taken ++ item ∷ [] else h.taken;
    delivered = h.delivered;
  }

  pub after_drain : History T → BoundedQueue T × List T → History T
  after_drain h (q, items) = record h { queue = q; delivered = h.delivered ++ items }

  pub step : History T → Op T → History T
  step h (offering item units) = after_offer h item (offer h.queue item units)
  step h draining = after_drain h (drain h.queue)

  pub run : History T → List (Op T) → History T
  run h [] = h
  run h (op ∷ ops) = run (step h op) ops

  pub start : BoundedQueue T → History T
  start q = record { queue = q; offered = []; taken = []; delivered = [] }

  abbrev pub pending : BoundedQueue T → List T
  pending q = map (λ e. e.item) q.items

  -- First in, first out, and no item unaccounted for.
  pub record IsFaithful (h : History T) : Type 0 where
    pub accounted : IsAccounted h.queue
    pub in_order : h.delivered ++ pending h.queue ≡ h.taken
    pub taken_counted : h.queue.accepted_items ≡ length h.taken
    pub offered_counted : h.queue.accepted_items + h.queue.dropped_items ≡ length h.offered
    pub all_taken : h.queue.dropped_items ≡ 0 → h.taken ≡ h.offered

  length-snoc : (xs : List T) (x : T) → length (xs ++ x ∷ []) ≡ length xs + 1
  length-snoc xs x = omega (arith, length-append xs (x ∷ []))

  pending-snoc :
      (d xs : List T) (es : List (Entry T)) (x : T) (u : ℕ)
      → d ++ map (λ e. e.item) es ≡ xs
      → d ++ map (λ e. e.item) (es ++ record { item = x; units = u } ∷ []) ≡ xs ++ x ∷ []
  pending-snoc d xs es x u e =
      ap (◌++◌ d) (map-append (λ e. e.item) es (record { item = x; units = u } ∷ []))
      ∙ sym (append_assoc d (map (λ e. e.item) es) (x ∷ []))
      ∙ ap (λ l. l ++ x ∷ []) e

  offer-IsFaithful :
      (h : History T) (item : T) (units : ℕ)
      → IsFaithful h
      → IsFaithful (step h (offering item units))
  unfolding step after_offer offer
  offer-IsFaithful h item units f =
      let q = h.queue in
      let refused =
        leb q.capacity_items (length q.items) || ltb q.capacity_units (q.queued_units + units) in
      elim (Bool-cases refused) [
        | inl full ↦ rw full (record {
          accounted = rw full at (offer-IsAccounted q item units f.accounted);
          in_order = f.in_order;
          taken_counted = f.taken_counted;
          offered_counted = omega (arith, f.offered_counted, length-snoc h.offered item);
          all_taken = λ z. absurd (omega arith);
        })
        | inr room ↦ rw room (record {
          accounted = rw room at (offer-IsAccounted q item units f.accounted);
          in_order = pending-snoc h.delivered h.taken q.items item units f.in_order;
          taken_counted = omega (arith, f.taken_counted, length-snoc h.taken item);
          offered_counted = omega (arith, f.offered_counted, length-snoc h.offered item);
          all_taken = λ z. ap (λ l. l ++ item ∷ []) (f.all_taken z);
        })
      ]

  no_items : (es : List (Entry T)) → (length es == 0) ≡ true → es ≡ []
  no_items [] h = refl
  no_items (e ∷ es) h = absurd (omega (arith, (==_iff (length (e ∷ es)) 0).0 h))

  drain-IsFaithful : (h : History T) → IsFaithful h → IsFaithful (step h draining)
  unfolding step after_drain drain
  drain-IsFaithful h f =
      let q = h.queue in
      elim (Bool-cases (length q.items == 0)) [
        | inl empty ↦ rw empty (record {
          accounted = f.accounted;
          in_order = ap (λ l. l ++ pending q) (append-nil h.delivered) ∙ f.in_order;
          taken_counted = f.taken_counted;
          offered_counted = f.offered_counted;
          all_taken = f.all_taken;
        })
        | inr some_items ↦ rw some_items (record {
          accounted = rw some_items at (drain-IsAccounted q f.accounted);
          in_order = append-nil (h.delivered ++ pending q) ∙ f.in_order;
          taken_counted = f.taken_counted;
          offered_counted = f.offered_counted;
          all_taken = f.all_taken;
        })
      ]

  run-IsFaithful : (h : History T) (ops : List (Op T)) → IsFaithful h → IsFaithful (run h ops)
  unfolding run
  run-IsFaithful h [] f = f
  run-IsFaithful h (offering item units ∷ ops) f =
      run-IsFaithful (step h (offering item units)) ops (offer-IsFaithful h item units f)
  run-IsFaithful h (draining ∷ ops) f = run-IsFaithful (step h draining) ops (drain-IsFaithful h f)

  start-IsFaithful :
      (capacity_items capacity_units : ℕ) (q : BoundedQueue T)
      → init capacity_items capacity_units ≡ ok q
      → IsFaithful (start q)
  unfolding init start
  start-IsFaithful ci cu q e = record {
    accounted = init-IsAccounted ci cu q e;
    in_order = ap (map (λ x. x.item)) empty;
    taken_counted = ground arith;
    offered_counted = ground arith;
    all_taken = λ z. refl;
  }
    where
      empty : q.items ≡ []
      empty = ground arith

  -- After any sequence of offers and drains on a new queue, within its capacities and with its
  -- accounts balanced: what was drained, followed by what still waits, is what was taken, in the
  -- order of the offers; items taken and dropped add up to the items offered; and
  -- `require_lossless` accepts the statistics exactly when all that was offered has been taken.
  pub run_faithful :
      (capacity_items capacity_units : ℕ) (q : BoundedQueue T) (ops : List (Op T))
      → init capacity_items capacity_units ≡ ok q
      → let h = run (start q) ops in
        IsAccounted h.queue
        × (h.delivered ++ pending h.queue ≡ h.taken)
        × (length h.taken + h.queue.dropped_items ≡ length h.offered)
        × ((require_lossless (stats h.queue) ≡ lossless) ↔ (h.taken ≡ h.offered))
  unfolding require_lossless stats
  run_faithful ci cu q ops e =
      let f = run-IsFaithful (start q) ops (start-IsFaithful ci cu q e) in
      (
        f.accounted,
        f.in_order,
        omega (arith, f.taken_counted, f.offered_counted),
        (
          (λ z. f.all_taken (ground arith)),
          λ all. ground (arith, f.taken_counted, f.offered_counted, ap length all),
        ),
      )
