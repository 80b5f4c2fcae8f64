-- ===== src/Shadow/Life.antt =====
-- How many frames the polls of native_framing/shadow_runtime.py count and return.
use gs_flowgraphs.Base.{
  ℕ, ◌+◌, ◌≡◌, refl, sym, ◌∙◌, subst, Bool, true, false, List, [], ◌∷◌, arith, inl, inr,
}
use gs_flowgraphs.Base.{leb, length, length-append, Bool-cases, Option-cases, if◌then◌else◌}
use gs_flowgraphs.Shadow.{
  Source, primary, reference, opposite, ShadowReconciler, Reply, emitted, capacity_error,
  finalized_error, Observed, emits, suppressed, over_capacity, without_match, unmatched, judged,
  observe, observe_all, go_on, put_first, joined_reply, and_then, counted, expire_before, reconcile,
}
use gs_flowgraphs.Shadow.Polls.{polled}

module _ {T K : Type 0} where
  -- From one state to a later one: frames counted, frames given, and nothing ended.
  pub record Moves (s : ShadowReconciler T K) (p q n : ℕ) (s' : ShadowReconciler T K) : Type 0 where
    pub primaries : s'.primary_frames ≡ s.primary_frames + p
    pub references : s'.reference_frames ≡ s.reference_frames + q
    pub given : s'.emitted_frames ≡ s.emitted_frames + n
    pub still : s'.finalized ≡ s.finalized
    pub room : s'.max_pending ≡ s.max_pending

  abbrev pub Gives : ShadowReconciler T K → ℕ → ℕ → ShadowReconciler T K × Reply T → Type 0
  Gives s p q (s', emitted items) = Moves s p q (length items) s'
  Gives s p q (s', capacity_error) = Unit
  Gives s p q (s', finalized_error) = Unit

  Moves-trans :
      (s t u : ShadowReconciler T K) (p q n p' q' n' : ℕ)
      → Moves s p q n t
      → Moves t p' q' n' u
      → Moves s (p + p') (q + q') (n + n') u
  Moves-trans s t u p q n p' q' n' g h = record {
    primaries = omega (arith, g.primaries, h.primaries);
    references = omega (arith, g.references, h.references);
    given = omega (arith, g.given, h.given);
    still = h.still ∙ g.still;
    room = h.room ∙ g.room;
  }

  Moves-eq :
      (s t : ShadowReconciler T K) (p q n p' q' n' : ℕ)
      → Moves s p q n t
      → p ≡ p'
      → q ≡ q'
      → n ≡ n'
      → Moves s p' q' n' t
  Moves-eq s t p q n p' q' n' g e f k = record {
    primaries = omega (arith, g.primaries);
    references = omega (arith, g.references);
    given = omega (arith, g.given);
    still = g.still;
    room = g.room;
  }

  and_then-Gives :
      (s : ShadowReconciler T K) (p q p' q' : ℕ) (r : ShadowReconciler T K × Reply T)
      (next : ShadowReconciler T K → ShadowReconciler T K × Reply T)
      → ((t : ShadowReconciler T K) → Gives t p' q' (next t))
      → Gives s p q r
      → Gives s (p + p') (q + q') (and_then r next)
  unfolding and_then joined_reply
  and_then-Gives s p q p' q' (t, emitted items) next follow h = put (next t) (follow t)
    where
      put :
          (r : ShadowReconciler T K × Reply T)
          → Gives t p' q' r
          → Gives s (p + p') (q + q') (r.0, joined_reply items r.1)
      put (u, emitted more) g =
          subst (λ n. Moves s (p + p') (q + q') n u) (sym (length-append items more))
            (Moves-trans s t u p q (length items) p' q' (length more) h g)
      put (u, capacity_error) g = tt
      put (u, finalized_error) g = tt
  and_then-Gives s p q p' q' (t, capacity_error) next follow h = tt
  and_then-Gives s p q p' q' (t, finalized_error) next follow h = tt

  module _ (key : T → K) (same : K → K → Bool) where
    abbrev Steps : ShadowReconciler T K → ShadowReconciler T K × Observed → Type 0
    Steps s (s', over_capacity) = Unit
    Steps s (s', emits) = Moves s 0 0 1 s'
    Steps s (s', suppressed) = Moves s 0 0 0 s'

    observe-Steps :
        (source : Source) (item : T) (s : ShadowReconciler T K)
        → Steps s (observe key same source item s)
    unfolding observe judged unmatched
    observe-Steps source item s =
        elim (Option-cases (without_match key same (opposite source) (key item) s.pending)) [
          | inl nothing ↦ rw nothing (elim (Bool-cases (leb s.max_pending (length s.pending))) [
            | inl full ↦ rw full tt
            | inr there ↦ rw there (record {
              primaries = omega arith;
              references = omega arith;
              given = omega arith;
              still = refl;
              room = refl;
            })
          ])
          | inr (rest, found) ↦ rw found (record {
            primaries = omega arith;
            references = omega arith;
            given = omega arith;
            still = refl;
            room = refl;
          })
        ]

    go_on-Gives :
        (s : ShadowReconciler T K) (item : T) (o : ShadowReconciler T K × Observed)
        (next : ShadowReconciler T K → ShadowReconciler T K × Reply T)
        → ((t : ShadowReconciler T K) → Gives t 0 0 (next t))
        → Steps s o
        → Gives s 0 0 (go_on item o next)
    unfolding go_on put_first
    go_on-Gives s item (t, suppressed) next follow h = put (next t) (follow t)
      where
        put : (r : ShadowReconciler T K × Reply T) → Gives t 0 0 r → Gives s 0 0 r
        put (u, emitted more) g =
            Moves-eq s u _ _ _ _ _ _ (Moves-trans s t u 0 0 0 0 0 (length more) h g) (omega arith)
              (omega arith) (omega arith)
        put (u, capacity_error) g = tt
        put (u, finalized_error) g = tt
    go_on-Gives s item (t, over_capacity) next follow h = tt
    go_on-Gives s item (t, emits) next follow h = put (next t) (follow t)
      where
        put :
            (r : ShadowReconciler T K × Reply T)
            → Gives t 0 0 r
            → Gives s 0 0 (r.0, put_first item r.1)
        put (u, emitted more) g =
            Moves-eq s u _ _ _ _ _ _ (Moves-trans s t u 0 0 1 0 0 (length more) h g) (omega arith)
              (omega arith) (omega arith)
        put (u, capacity_error) g = tt
        put (u, finalized_error) g = tt

    observe_all-Gives :
        (source : Source) (items : List T) (s : ShadowReconciler T K)
        → Gives s 0 0 (observe_all key same source items s)
    unfolding observe_all
    observe_all-Gives source [] s = record {
      primaries = omega arith;
      references = omega arith;
      given = omega arith;
      still = refl;
      room = refl;
    }
    observe_all-Gives source (item ∷ items) s =
        go_on-Gives s item (observe key same source item s) (observe_all key same source items)
          (observe_all-Gives source items) (observe-Steps source item s)

    counted-Moves : (s : ShadowReconciler T K) (p q : ℕ) → Moves s p q 0 (counted s p q)
    unfolding counted expire_before
    counted-Moves s p q = record {
      primaries = omega arith;
      references = omega arith;
      given = omega arith;
      still = refl;
      room = refl;
    }

    reconcile-Gives :
        (s : ShadowReconciler T K) (primaries references : List T)
        → Gives s (length primaries) (length references) (reconcile key same s primaries references)
    unfolding reconcile
    reconcile-Gives s primaries references = unless s.finalized
      where
        p : ℕ
        p = length primaries

        q : ℕ
        q = length references

        put : (r : ShadowReconciler T K × Reply T) → Gives (counted s p q) 0 0 r → Gives s p q r
        put (u, emitted more) g =
            Moves-eq s u _ _ _ _ _ _
              (Moves-trans s (counted s p q) u p q 0 0 0 (length more) (counted-Moves s p q) g)
              (omega arith) (omega arith) (omega arith)
        put (u, capacity_error) g = tt
        put (u, finalized_error) g = tt

        both : ShadowReconciler T K × Reply T
        both =
            and_then (observe_all key same primary primaries (counted s p q))
              (observe_all key same reference references)

        unless : (ended : Bool) → Gives s p q (if ended then (s, finalized_error) else both)
        unless true = tt
        unless false = put both (
            and_then-Gives (counted s p q) 0 0 0 0 _ (observe_all key same reference references)
              (observe_all-Gives reference references)
              (observe_all-Gives primary primaries (counted s p q)))

    -- How many frames some polls give of one engine.
    abbrev pub primaries_of : List (List T × List T) → ℕ
    primaries_of [] = 0
    primaries_of ((primaries, references) ∷ polls) = length primaries + primaries_of polls

    abbrev pub references_of : List (List T × List T) → ℕ
    references_of [] = 0
    references_of ((primaries, references) ∷ polls) = length references + references_of polls

    pub polled-Gives :
        (polls : List (List T × List T)) (s : ShadowReconciler T K)
        → Gives s (primaries_of polls) (references_of polls) (polled key same polls s)
    polled-Gives [] s = record {
      primaries = omega arith;
      references = omega arith;
      given = omega arith;
      still = refl;
      room = refl;
    }
    polled-Gives ((primaries, references) ∷ polls) s =
        and_then-Gives s (length primaries) (length references) (primaries_of polls)
          (references_of polls) (reconcile key same s primaries references) (polled key same polls)
          (polled-Gives polls) (reconcile-Gives s primaries references)
