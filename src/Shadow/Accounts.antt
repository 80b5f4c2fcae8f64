-- ===== src/Shadow/Accounts.antt =====
-- The accounts of the shadow reconciler.
use gs_flowgraphs.Base.{
  ℕ, suc, ◌+◌, ◌≤◌, ◌≡◌, refl, ap, Bool, true, some, List, [], ◌∷◌, ◌++◌, ◌&&◌, arith, inl, inr,
}
use gs_flowgraphs.Base.{subst, Option-cases, ltb, if◌then◌else◌, length, All, Bool-cases}
use gs_flowgraphs.Shadow.{
  Source, primary, reference, opposite, same_source, Pending, ShadowReconciler, retained, expired,
  expire_before, kept, without_match,
}

module _ {T K : Type 0} where
  -- How many frames of a source wait.
  abbrev pub waiting : Source → List (Pending T K) → ℕ
  waiting source [] = 0
  waiting source (p ∷ ps) =
      if same_source p.source source then suc (waiting source ps) else waiting source ps

  abbrev pub AreRecent : ℕ → List (Pending T K) → Type 0
  AreRecent generation ps = All (λ p. p.generation ≤ generation) ps

  -- The accounts while `a` items of the primary engine and `b` of the reference engine, already
  -- counted, are still to be looked at.
  pub record IsAccounted (a b : ℕ) (s : ShadowReconciler T K) : Type 0 where
    pub of_primary :
        s.primary_frames ≡ s.matched_pairs + s.primary_only + waiting primary s.pending + a
    pub of_reference :
        s.reference_frames ≡ s.matched_pairs + s.reference_only + waiting reference s.pending + b
    pub of_emitted :
        s.emitted_frames + s.duplicates_suppressed + a + b ≡ s.primary_frames + s.reference_frames
    pub of_pairs : s.duplicates_suppressed ≡ s.matched_pairs
    pub bounded : length s.pending ≤ s.max_pending
    pub recent : AreRecent s.generation s.pending

  pub retained-waiting :
      (source : Source) (m : ℕ) (ps : List (Pending T K))
      → waiting source (retained m ps) + expired source m ps ≡ waiting source ps
  unfolding retained expired
  retained-waiting source m [] = refl
  retained-waiting source m (p ∷ ps) = ground (arith, retained-waiting source m ps)

  length-retained : (m : ℕ) (ps : List (Pending T K)) → length (retained m ps) ≤ length ps
  unfolding retained
  length-retained m [] = omega arith
  length-retained m (p ∷ ps) = ground (arith, length-retained m ps)

  retained-AreRecent :
      (g m : ℕ) (ps : List (Pending T K)) → AreRecent g ps → AreRecent (g + 1) (retained m ps)
  unfolding retained
  retained-AreRecent g m [] h = tt
  retained-AreRecent g m (p ∷ ps) h = elim (Bool-cases (ltb p.generation m)) [
    | inl old ↦ rw old (retained-AreRecent g m ps h.1)
    | inr new ↦ rw new (omega arith, retained-AreRecent g m ps h.1)
  ]

  pub retained-none :
      (g m : ℕ) (ps : List (Pending T K)) → AreRecent g ps → suc g ≤ m → retained m ps ≡ []
  unfolding retained
  retained-none g m [] h later = refl
  retained-none g m (p ∷ ps) h later = ground (arith, retained-none g m ps h.1 later)

  pub waiting-append :
      (source : Source) (ps qs : List (Pending T K))
      → waiting source (ps ++ qs) ≡ waiting source ps + waiting source qs
  waiting-append source [] qs = omega arith
  waiting-append source (p ∷ ps) qs = ground (arith, waiting-append source ps qs)

  pub expire_before-IsAccounted :
      (a b m : ℕ) (s : ShadowReconciler T K)
      → IsAccounted a b s
      → IsAccounted a b (expire_before (record s { generation = s.generation + 1 }) m)
  unfolding expire_before
  expire_before-IsAccounted a b m s h = record {
    of_primary = omega (arith, h.of_primary, retained-waiting primary m s.pending);
    of_reference = omega (arith, h.of_reference, retained-waiting reference m s.pending);
    of_emitted = h.of_emitted;
    of_pairs = h.of_pairs;
    bounded = omega (arith, h.bounded, length-retained m s.pending);
    recent = retained-AreRecent s.generation m s.pending h.recent;
  }

  -- One frame of the source is gone from the list, and no other.
  pub record Removed (source : Source) (g : ℕ) (ps rest : List (Pending T K)) : Type 0 where
    pub one : waiting source ps ≡ suc (waiting source rest)
    pub others : waiting (opposite source) ps ≡ waiting (opposite source) rest
    pub shorter : length ps ≡ suc (length rest)
    pub recent : AreRecent g ps → AreRecent g rest

  Removed-head :
      (source : Source) (g : ℕ) (p : Pending T K) (ps : List (Pending T K))
      → same_source p.source source ≡ true
      → Removed source g (p ∷ ps) ps
  Removed-head source g p ps h = record {
    one = ground arith;
    others = ap (λ n. n) (other p.source source h);
    shorter = refl;
    recent = λ r. r.1;
  }
    where
      other :
          (a b : Source)
          → same_source a b ≡ true
          → (if same_source a (opposite b)
              then suc (waiting (opposite b) ps)
              else waiting (opposite b) ps)
            ≡ waiting (opposite b) ps
      other primary primary e = refl
      other reference reference e = refl
      other primary reference e = absurd (cc)
      other reference primary e = absurd (cc)

  Removed-tail :
      (source : Source) (g : ℕ) (p : Pending T K) (ps rest : List (Pending T K))
      → Removed source g ps rest
      → Removed source g (p ∷ ps) (p ∷ rest)
  Removed-tail source g p ps rest r = record {
    one = ground (arith, r.one);
    others = ground (arith, r.others);
    shorter = ap suc r.shorter;
    recent = λ h. (h.0, r.recent h.1);
  }

  module _ (key : T → K) (same : K → K → Bool) where
    pub without_match-Removed :
        (source : Source) (k : K) (g : ℕ) (ps rest : List (Pending T K))
        → without_match key same source k ps ≡ some rest
        → Removed source g ps rest
    unfolding without_match kept
    without_match-Removed source k g [] rest h = absurd (cc)
    without_match-Removed source k g (p ∷ ps) rest h =
        elim (Bool-cases (same_source p.source source && same p.key k)) [
          | inl found ↦
              let same_rest : ps ≡ rest = ground arith in
              subst (λ l. Removed source g (p ∷ ps) l) same_rest
                (Removed-head source g p ps (ground arith))
          | inr other ↦ elim (Option-cases (without_match key same source k ps)) [
            | inl nothing ↦ absurd (ground arith)
            | inr (qs, found) ↦
                let same_rest : p ∷ qs ≡ rest = ground arith in
                subst (λ l. Removed source g (p ∷ ps) l) same_rest
                  (Removed-tail source g p ps qs (without_match-Removed source k g ps qs found))
          ]
        ]
