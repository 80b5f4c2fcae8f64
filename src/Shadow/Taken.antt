-- ===== src/Shadow/Taken.antt =====
-- The search of native_framing/shadow_runtime.py for a waiting frame takes one that fits.
use gs_flowgraphs.Base.{
  ◌+◌, ◌≡◌, refl, sym, ap, ◌∙◌, subst, Bool, true, some, List, [], ◌∷◌, arith, inl, inr, ◌&&◌,
}
use gs_flowgraphs.Base.{Option-cases, Bool-cases}
use gs_flowgraphs.Shadow.{Source, primary, reference, same_source, Pending, without_match, kept}
use gs_flowgraphs.Shadow.History.{count, waits, AreKeyed}

module _ {T K : Type 0} (key : T → K) (same : K → K → Bool) where
  -- A frame of a source with a key is taken from those that wait, and no other.
  pub record Taken (source : Source) (k : K) (ps rest : List (Pending T K)) : Type 0 where
    pub first : Source × T
    pub of_source : first.0 ≡ source
    pub of_key : same (key first.1) k ≡ true
    pub others :
        (test : Source × T → Bool)
        → count test (first ∷ []) + count test (waits key same rest)
          ≡ count test (waits key same ps)
    pub keyed : AreKeyed key same rest

  source-eq : (a b : Source) → same_source a b ≡ true → a ≡ b
  source-eq primary primary e = refl
  source-eq reference reference e = refl
  source-eq primary reference e = absurd (cc)
  source-eq reference primary e = absurd (cc)

  Taken-head :
      (source : Source) (k : K) (p : Pending T K) (ps : List (Pending T K))
      → AreKeyed key same (p ∷ ps)
      → same_source p.source source ≡ true
      → same p.key k ≡ true
      → Taken source k (p ∷ ps) ps
  Taken-head source k p ps h e f = record {
    first = (p.source, p.item);
    of_source = source-eq p.source source e;
    of_key = ap (λ j. same j k) (sym h.0) ∙ f;
    others = λ test. ground arith;
    keyed = h.1;
  }

  Taken-tail :
      (source : Source) (k : K) (p : Pending T K) (ps rest : List (Pending T K))
      → p.key ≡ key p.item
      → Taken source k ps rest
      → Taken source k (p ∷ ps) (p ∷ rest)
  Taken-tail source k p ps rest h r = record {
    first = r.first;
    of_source = r.of_source;
    of_key = r.of_key;
    others = λ test. ground (arith, r.others test);
    keyed = (h, r.keyed);
  }

  pub without_match-Taken :
      (source : Source) (k : K) (ps rest : List (Pending T K))
      → AreKeyed key same ps
      → without_match key same source k ps ≡ some rest
      → Taken source k ps rest
  unfolding without_match kept
  without_match-Taken source k [] rest a h = absurd (cc)
  without_match-Taken source k (p ∷ ps) rest a h =
      elim (Bool-cases (same_source p.source source && same p.key k)) [
        | inl found ↦
            let same_rest : ps ≡ rest = ground arith in
            subst (λ l. Taken source k (p ∷ ps) l) same_rest
              (Taken-head source k p ps a (ground arith) (ground arith))
        | inr other ↦ elim (Option-cases (without_match key same source k ps)) [
          | inl nothing ↦ absurd (ground arith)
          | inr (qs, found) ↦
              let same_rest : p ∷ qs ≡ rest = ground arith in
              subst (λ l. Taken source k (p ∷ ps) l) same_rest
                (Taken-tail source k p ps qs a.0 (without_match-Taken source k ps qs a.1 found))
        ]
      ]
