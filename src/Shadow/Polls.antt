-- ===== src/Shadow/Polls.antt =====
-- The loops of `reconcile` keep the accounts.
use gs_flowgraphs.Base.{
  ℕ, suc, ◌+◌, ◌-◌, ◌≤◌, Bool, true, false, some, List, [], ◌∷◌, arith, inl, inr,
}
use gs_flowgraphs.Base.{
  Option-cases, leb, length, if◌then◌else◌, length-append, All-append, Bool-cases,
}
use gs_flowgraphs.Shadow.{
  finalized_error, Source, primary, reference, opposite, Pending, ShadowReconciler, Reply, emitted,
  capacity_error, finalized_error, Observed, emits, suppressed, over_capacity, without_match,
  unmatched, judged, observe, observe_all, go_on, put_first, joined_reply, and_then, counted,
  reconcile,
}
use gs_flowgraphs.Shadow.Accounts.{
  IsAccounted, Removed, expire_before-IsAccounted, waiting-append, without_match-Removed,
}

module _ {T K : Type 0} (key : T → K) (same : K → K → Bool) where
  -- The accounts with one more item of a source to look at.
  abbrev IsBefore : Source → ℕ → ℕ → ShadowReconciler T K → Type 0
  IsBefore primary a b s = IsAccounted (suc a) b s
  IsBefore reference a b s = IsAccounted a (suc b) s

  abbrev Keeps : ℕ → ℕ → ShadowReconciler T K × Observed → Type 0
  Keeps a b (s, over_capacity) = Unit
  Keeps a b (s, emits) = IsAccounted a b s
  Keeps a b (s, suppressed) = IsAccounted a b s

  matched-Keeps :
      (source : Source) (a b : ℕ) (item : T) (s : ShadowReconciler T K) (rest : List (Pending T K))
      → IsBefore source a b s
      → Removed (opposite source) s.generation s.pending rest
      → Keeps a b (judged key same source item s (some rest))
  unfolding judged
  matched-Keeps primary a b item s rest h r = record {
    of_primary = omega (arith, h.of_primary, r.others);
    of_reference = omega (arith, h.of_reference, r.one);
    of_emitted = omega (arith, h.of_emitted);
    of_pairs = omega (arith, h.of_pairs);
    bounded = omega (arith, h.bounded, r.shorter);
    recent = r.recent h.recent;
  }
  matched-Keeps reference a b item s rest h r = record {
    of_primary = omega (arith, h.of_primary, r.one);
    of_reference = omega (arith, h.of_reference, r.others);
    of_emitted = omega (arith, h.of_emitted);
    of_pairs = omega (arith, h.of_pairs);
    bounded = omega (arith, h.bounded, r.shorter);
    recent = r.recent h.recent;
  }

  unmatched-Keeps :
      (source : Source) (a b : ℕ) (item : T) (s : ShadowReconciler T K)
      → IsBefore source a b s
      → Keeps a b (unmatched key same source item s)
  unfolding unmatched
  unmatched-Keeps primary a b item s h =
      let p : Pending T K = record {
        source = primary;
        key = key item;
        generation = s.generation;
        item = item;
      } in
      elim (Bool-cases (leb s.max_pending (length s.pending))) [
        | inl full ↦ rw full tt
        | inr room ↦ rw room (record {
          of_primary = omega (arith, h.of_primary, waiting-append primary s.pending (p ∷ []));
          of_reference = omega (arith, h.of_reference, waiting-append reference s.pending (p ∷ []));
          of_emitted = omega (arith, h.of_emitted);
          of_pairs = h.of_pairs;
          bounded = ground (arith, length-append s.pending (p ∷ []));
          recent =
              All-append (λ q. q.generation ≤ s.generation) s.pending (p ∷ []) h.recent
                (omega arith, tt);
        })
      ]
  unmatched-Keeps reference a b item s h =
      let p : Pending T K = record {
        source = reference;
        key = key item;
        generation = s.generation;
        item = item;
      } in
      elim (Bool-cases (leb s.max_pending (length s.pending))) [
        | inl full ↦ rw full tt
        | inr room ↦ rw room (record {
          of_primary = omega (arith, h.of_primary, waiting-append primary s.pending (p ∷ []));
          of_reference = omega (arith, h.of_reference, waiting-append reference s.pending (p ∷ []));
          of_emitted = omega (arith, h.of_emitted);
          of_pairs = h.of_pairs;
          bounded = ground (arith, length-append s.pending (p ∷ []));
          recent =
              All-append (λ q. q.generation ≤ s.generation) s.pending (p ∷ []) h.recent
                (omega arith, tt);
        })
      ]

  observe-Keeps :
      (source : Source) (a b : ℕ) (item : T) (s : ShadowReconciler T K)
      → IsBefore source a b s
      → Keeps a b (observe key same source item s)
  unfolding observe judged
  observe-Keeps source a b item s h =
      elim (Option-cases (without_match key same (opposite source) (key item) s.pending)) [
        | inl nothing ↦ rw nothing (unmatched-Keeps source a b item s h)
        | inr (rest, found) ↦ rw found (
            matched-Keeps source a b item s rest h (
              without_match-Removed key same (opposite source) (key item) s.generation s.pending
                rest found))
      ]

  -- What a loop leaves: the accounts, unless it raised.
  abbrev pub Leaves : ℕ → ℕ → ShadowReconciler T K × Reply T → Type 0
  Leaves a b (s, emitted items) = IsAccounted a b s
  Leaves a b (s, capacity_error) = Unit
  Leaves a b (s, finalized_error) = Unit

  go_on-Leaves :
      (a b a' b' : ℕ) (item : T) (o : ShadowReconciler T K × Observed)
      (next : ShadowReconciler T K → ShadowReconciler T K × Reply T)
      → ((s : ShadowReconciler T K) → IsAccounted a b s → Leaves a' b' (next s))
      → Keeps a b o
      → Leaves a' b' (go_on item o next)
  unfolding go_on put_first
  go_on-Leaves a b a' b' item (s, suppressed) next follow h = follow s h
  go_on-Leaves a b a' b' item (s, over_capacity) next follow h = tt
  go_on-Leaves a b a' b' item (s, emits) next follow h = put (next s) (follow s h)
    where
      put :
          (r : ShadowReconciler T K × Reply T)
          → Leaves a' b' r
          → Leaves a' b' (r.0, put_first item r.1)
      put (s', emitted items) k = k
      put (s', capacity_error) k = tt
      put (s', finalized_error) k = tt

  observe_primaries :
      (items : List T) (b : ℕ) (s : ShadowReconciler T K)
      → IsAccounted (length items) b s
      → Leaves 0 b (observe_all key same primary items s)
  unfolding observe_all
  observe_primaries [] b s h = h
  observe_primaries (item ∷ items) b s h =
      go_on-Leaves (length items) b 0 b item (observe key same primary item s)
        (observe_all key same primary items) (observe_primaries items b)
        (observe-Keeps primary (length items) b item s h)

  observe_references :
      (items : List T) (s : ShadowReconciler T K)
      → IsAccounted 0 (length items) s
      → Leaves 0 0 (observe_all key same reference items s)
  unfolding observe_all
  observe_references [] s h = h
  observe_references (item ∷ items) s h =
      go_on-Leaves 0 (length items) 0 0 item (observe key same reference item s)
        (observe_all key same reference items) (observe_references items)
        (observe-Keeps reference 0 (length items) item s h)

  joined_reply-Leaves :
      (a b : ℕ) (items : List T) (r : ShadowReconciler T K × Reply T)
      → Leaves a b r
      → Leaves a b (r.0, joined_reply items r.1)
  unfolding joined_reply
  joined_reply-Leaves a b items (s, emitted _) h = h
  joined_reply-Leaves a b items (s, capacity_error) h = tt
  joined_reply-Leaves a b items (s, finalized_error) h = tt

  and_then-Leaves :
      (a b : ℕ) (r : ShadowReconciler T K × Reply T)
      (next : ShadowReconciler T K → ShadowReconciler T K × Reply T)
      → ((s : ShadowReconciler T K) → IsAccounted a b s → Leaves 0 0 (next s))
      → Leaves a b r
      → Leaves 0 0 (and_then r next)
  unfolding and_then
  and_then-Leaves a b (s, emitted items) next follow h =
      joined_reply-Leaves 0 0 items (next s) (follow s h)
  and_then-Leaves a b (s, capacity_error) next follow h = tt
  and_then-Leaves a b (s, finalized_error) next follow h = tt

  counted-IsAccounted :
      (s : ShadowReconciler T K) (a b : ℕ) → IsAccounted 0 0 s → IsAccounted a b (counted s a b)
  unfolding counted
  counted-IsAccounted s a b h =
      let aged = expire_before-IsAccounted 0 0 (s.generation + 1 - s.max_lag) s h in
      record {
        of_primary = omega (arith, aged.of_primary);
        of_reference = omega (arith, aged.of_reference);
        of_emitted = omega (arith, aged.of_emitted);
        of_pairs = aged.of_pairs;
        bounded = aged.bounded;
        recent = aged.recent;
      }

  unless_ended :
      (ended : Bool) (s : ShadowReconciler T K) (r : ShadowReconciler T K × Reply T)
      → Leaves 0 0 r
      → Leaves 0 0 (if ended then (s, finalized_error) else r)
  unless_ended true s r h = tt
  unless_ended false s r h = h

  -- A poll that raises nothing keeps the accounts.
  reconcile-Leaves :
      (s : ShadowReconciler T K) (primaries references : List T)
      → IsAccounted 0 0 s
      → Leaves 0 0 (reconcile key same s primaries references)
  unfolding reconcile
  reconcile-Leaves s primaries references h = unless_ended s.finalized s _ (
      and_then-Leaves 0 (length references) _ (observe_all key same reference references)
        (observe_references references)
        (observe_primaries primaries (length references) _
          (counted-IsAccounted s (length primaries) (length references) h)))

  -- One poll after the other, until one raises.
  abbrev pub polled : List (List T × List T) → ShadowReconciler T K → ShadowReconciler T K × Reply T
  polled [] s = (s, emitted [])
  polled ((primaries, references) ∷ polls) s =
      and_then (reconcile key same s primaries references) (polled polls)

  pub polled-Leaves :
      (polls : List (List T × List T)) (s : ShadowReconciler T K)
      → IsAccounted 0 0 s
      → Leaves 0 0 (polled polls s)
  polled-Leaves [] s h = h
  polled-Leaves ((primaries, references) ∷ polls) s h =
      and_then-Leaves 0 0 (reconcile key same s primaries references) (polled polls)
        (polled-Leaves polls) (reconcile-Leaves s primaries references h)
