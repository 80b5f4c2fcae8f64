-- ===== src/Shadow/Traced.antt =====
-- The polls of native_framing/shadow_runtime.py return the frames of both engines, and suppress
-- those that repeat a frame of the other engine that waits.
use gs_flowgraphs.Base.{
  ℕ, ◌+◌, ◌-◌, ◌≤◌, ◌≡◌, refl, ap, ◌∙◌, Bool, true, false, List, [], ◌∷◌, ◌++◌, map, arith, inl,
  inr,
}
use gs_flowgraphs.Base.{Option-cases, ltb, leb, length, if◌then◌else◌, All-append, Bool-cases}
use mathlib.Core.List.{map-append}
use gs_flowgraphs.Shadow.{
  Source, primary, reference, opposite, Pending, ShadowReconciler, Reply, emitted, capacity_error,
  finalized_error, Observed, emits, suppressed, over_capacity, without_match, unmatched, judged,
  observe, observe_all, go_on, put_first, joined_reply, and_then, counted, expire_before, retained,
  reconcile,
}
use gs_flowgraphs.Shadow.History.{
  count, count-append, merged, left_next, right_next, waits, AreKeyed, Told, Told-trans, Told-none,
}
use gs_flowgraphs.Shadow.Taken.{without_match-Taken}
use gs_flowgraphs.Shadow.Polls.{polled}

module _ {T K : Type 0} (key : T → K) (same : K → K → Bool) where
  abbrev Test : Type 0
  Test = Source × T → Bool

  -- What one frame leaves, and what a loop leaves, unless it raised.
  abbrev Reports : ShadowReconciler T K → Source → T → ShadowReconciler T K × Observed → Type 0
  Reports s source item (s', over_capacity) = Unit
  Reports s source item (s', emits) = Told key same s ((source, item) ∷ []) s' (item ∷ [])
  Reports s source item (s', suppressed) = Told key same s ((source, item) ∷ []) s' []

  abbrev pub Traces :
      ShadowReconciler T K → List (Source × T) → ShadowReconciler T K × Reply T → Type 0
  Traces s frames (s', emitted items) = Told key same s frames s' items
  Traces s frames (s', capacity_error) = Unit
  Traces s frames (s', finalized_error) = Unit

  waits-append :
      (test : Test) (ps qs : List (Pending T K))
      → count test (waits key same (ps ++ qs))
        ≡ count test (waits key same ps) + count test (waits key same qs)
  waits-append test ps qs =
      ap (count test) (map-append (λ (p : Pending T K). (p.source, p.item)) ps qs)
      ∙ count-append test (waits key same ps) (waits key same qs)

  observe-Reports :
      (source : Source) (item : T) (s : ShadowReconciler T K)
      → AreKeyed key same s.pending
      → Reports s source item (observe key same source item s)
  unfolding observe judged unmatched
  observe-Reports source item s a =
      elim (Option-cases (without_match key same (opposite source) (key item) s.pending)) [
        | inl nothing ↦ rw nothing (elim (Bool-cases (leb s.max_pending (length s.pending))) [
          | inl full ↦ rw full tt
          | inr room ↦ rw room (record {
            given = (source, item) ∷ [];
            pairs = [];
            items_given = refl;
            in_order = left_next (source, item) merged;
            paired = tt;
            matched = omega arith;
            used_once = λ test. omega (arith, waits-append test s.pending _);
            keyed = All-append (λ p. p.key ≡ key p.item) s.pending _ a (refl, tt);
          })
        ])
        | inr (rest, found) ↦
            let taken =
              without_match-Taken key same (opposite source) (key item) s.pending rest a found in
            rw found (record {
              given = [];
              pairs = (taken.first, (source, item)) ∷ [];
              items_given = refl;
              in_order = right_next (source, item) merged;
              paired = ((taken.of_source, taken.of_key), tt);
              matched = omega arith;
              used_once = λ test. omega (arith, taken.others test);
              keyed = taken.keyed;
            })
      ]

  go_on-Traces :
      (s : ShadowReconciler T K) (source : Source) (item : T) (more : List (Source × T))
      (o : ShadowReconciler T K × Observed)
      (next : ShadowReconciler T K → ShadowReconciler T K × Reply T)
      → ((t : ShadowReconciler T K) → AreKeyed key same t.pending → Traces t more (next t))
      → Reports s source item o
      → Traces s ((source, item) ∷ more) (go_on item o next)
  unfolding go_on put_first
  go_on-Traces s source item more (t, over_capacity) next follow h = tt
  go_on-Traces s source item more (t, suppressed) next follow h = put (next t) (follow t h.keyed)
    where
      put :
          (r : ShadowReconciler T K × Reply T)
          → Traces t more r
          → Traces s ((source, item) ∷ more) r
      put (u, emitted later) g = Told-trans key same s t u ((source, item) ∷ []) more [] later h g
      put (u, capacity_error) g = tt
      put (u, finalized_error) g = tt
  go_on-Traces s source item more (t, emits) next follow h = put (next t) (follow t h.keyed)
    where
      put :
          (r : ShadowReconciler T K × Reply T)
          → Traces t more r
          → Traces s ((source, item) ∷ more) (r.0, put_first item r.1)
      put (u, emitted later) g =
          Told-trans key same s t u ((source, item) ∷ []) more (item ∷ []) later h g
      put (u, capacity_error) g = tt
      put (u, finalized_error) g = tt

  abbrev pub tagged : Source → List T → List (Source × T)
  tagged source items = map (λ item. (source, item)) items

  observe_all-Traces :
      (source : Source) (items : List T) (s : ShadowReconciler T K)
      → AreKeyed key same s.pending
      → Traces s (tagged source items) (observe_all key same source items s)
  unfolding observe_all
  observe_all-Traces source [] s a = Told-none key same s s refl (λ test. omega arith) a
  observe_all-Traces source (item ∷ items) s a =
      go_on-Traces s source item (tagged source items) (observe key same source item s)
        (observe_all key same source items) (observe_all-Traces source items)
        (observe-Reports source item s a)

  and_then-Traces :
      (s : ShadowReconciler T K) (frames more : List (Source × T))
      (r : ShadowReconciler T K × Reply T)
      (next : ShadowReconciler T K → ShadowReconciler T K × Reply T)
      → ((t : ShadowReconciler T K) → AreKeyed key same t.pending → Traces t more (next t))
      → Traces s frames r
      → Traces s (frames ++ more) (and_then r next)
  unfolding and_then joined_reply
  and_then-Traces s frames more (t, emitted items) next follow h = put (next t) (follow t h.keyed)
    where
      put :
          (r : ShadowReconciler T K × Reply T)
          → Traces t more r
          → Traces s (frames ++ more) (r.0, joined_reply items r.1)
      put (u, emitted later) g = Told-trans key same s t u frames more items later h g
      put (u, capacity_error) g = tt
      put (u, finalized_error) g = tt
  and_then-Traces s frames more (t, capacity_error) next follow h = tt
  and_then-Traces s frames more (t, finalized_error) next follow h = tt

  retained-count :
      (test : Test) (m : ℕ) (ps : List (Pending T K))
      → count test (waits key same (retained m ps)) ≤ count test (waits key same ps)
  unfolding retained
  retained-count test m [] = omega arith
  retained-count test m (p ∷ ps) = ground (arith, retained-count test m ps)

  retained-AreKeyed :
      (m : ℕ) (ps : List (Pending T K)) → AreKeyed key same ps → AreKeyed key same (retained m ps)
  unfolding retained
  retained-AreKeyed m [] a = tt
  retained-AreKeyed m (p ∷ ps) a = elim (Bool-cases (ltb p.generation m)) [
    | inl old ↦ rw old (retained-AreKeyed m ps a.1)
    | inr new ↦ rw new (a.0, retained-AreKeyed m ps a.1)
  ]

  counted-Told :
      (s : ShadowReconciler T K) (p q : ℕ)
      → AreKeyed key same s.pending
      → Told key same s [] (counted s p q) []
  unfolding counted expire_before
  counted-Told s p q a =
      Told-none key same s _ refl
        (λ test. retained-count test (s.generation + 1 - s.max_lag) s.pending)
        (retained-AreKeyed (s.generation + 1 - s.max_lag) s.pending a)

  reconcile-Traces :
      (s : ShadowReconciler T K) (primaries references : List T)
      → AreKeyed key same s.pending
      → Traces s
          (tagged primary primaries ++ tagged reference references)
          (reconcile key same s primaries references)
  unfolding reconcile
  reconcile-Traces s primaries references a = unless s.finalized
    where
      start : ShadowReconciler T K
      start = counted s (length primaries) (length references)

      frames : List (Source × T)
      frames = tagged primary primaries ++ tagged reference references

      both : ShadowReconciler T K × Reply T
      both =
          and_then (observe_all key same primary primaries start)
            (observe_all key same reference references)

      begun : Told key same s [] start []
      begun = counted-Told s (length primaries) (length references) a

      put : (r : ShadowReconciler T K × Reply T) → Traces start frames r → Traces s frames r
      put (u, emitted later) g = Told-trans key same s start u [] frames [] later begun g
      put (u, capacity_error) g = tt
      put (u, finalized_error) g = tt

      unless : (ended : Bool) → Traces s frames (if ended then (s, finalized_error) else both)
      unless true = tt
      unless false = put both (
          and_then-Traces start (tagged primary primaries) (tagged reference references) _
            (observe_all key same reference references) (observe_all-Traces reference references)
            (observe_all-Traces primary primaries start begun.keyed))

  -- The frames of some polls, each with its engine.
  abbrev pub frames_of : List (List T × List T) → List (Source × T)
  frames_of [] = []
  frames_of ((primaries, references) ∷ polls) =
      (tagged primary primaries ++ tagged reference references) ++ frames_of polls

  pub polled-Traces :
      (polls : List (List T × List T)) (s : ShadowReconciler T K)
      → AreKeyed key same s.pending
      → Traces s (frames_of polls) (polled key same polls s)
  polled-Traces [] s a = Told-none key same s s refl (λ test. omega arith) a
  polled-Traces ((primaries, references) ∷ polls) s a =
      and_then-Traces s (tagged primary primaries ++ tagged reference references) (frames_of polls)
        (reconcile key same s primaries references) (polled key same polls) (polled-Traces polls)
        (reconcile-Traces s primaries references a)
