-- ===== src/Shadow/History.antt =====
-- What native_framing/shadow_runtime.py does with the frames of two engines between two states: the
-- frames it returns, and the pairs that it finds.
use gs_flowgraphs.Base.{
  ℕ, suc, ◌+◌, ◌≤◌, ◌≡◌, refl, sym, ap, ap₂, ◌∙◌, subst, Bool, true, List, [], ◌∷◌, ◌++◌, map,
  arith, if◌then◌else◌, length, length-append, All, All-append,
}
use mathlib.Core.List.{map-append}
use gs_flowgraphs.Shadow.{Source, opposite, Pending, ShadowReconciler}

module _ {ℓ} {A : Type ℓ} where
  abbrev pub count : (A → Bool) → List A → ℕ
  count test [] = 0
  count test (x ∷ xs) = let rest = count test xs in if test x then suc rest else rest

  pub count-append :
      (test : A → Bool) (xs ys : List A) → count test (xs ++ ys) ≡ count test xs + count test ys
  count-append test [] ys = omega arith
  count-append test (x ∷ xs) ys = ground (arith, count-append test xs ys)

  -- A list is two others in one order, each in its own.
  pub data Merge : List A → List A → List A → Type ℓ where
    merged : Merge [] [] []
    left_next : (x : A) {xs ys zs : List A} → Merge xs ys zs → Merge (x ∷ xs) ys (x ∷ zs)
    right_next : (y : A) {xs ys zs : List A} → Merge xs ys zs → Merge xs (y ∷ ys) (y ∷ zs)

  pub Merge-append :
      {xs ys zs xs' ys' zs' : List A}
      → Merge xs ys zs
      → Merge xs' ys' zs'
      → Merge (xs ++ xs') (ys ++ ys') (zs ++ zs')
  Merge-append merged n = n
  Merge-append (left_next x m) n = left_next x (Merge-append m n)
  Merge-append (right_next y m) n = right_next y (Merge-append m n)

module _ {T K : Type 0} (key : T → K) (same : K → K → Bool) where
  -- A frame that waits, with the engine that gave it.
  abbrev pub waits : List (Pending T K) → List (Source × T)
  waits ps = map (λ p. (p.source, p.item)) ps

  abbrev pub AreKeyed : List (Pending T K) → Type 0
  AreKeyed ps = All (λ p. p.key ≡ key p.item) ps

  abbrev pub returned_frames : List ((Source × T) × (Source × T)) → List (Source × T)
  returned_frames pairs = map (λ p. p.0) pairs

  abbrev pub suppressed_frames : List ((Source × T) × (Source × T)) → List (Source × T)
  suppressed_frames pairs = map (λ p. p.1) pairs

  -- Two frames with one key, from the two engines.
  abbrev pub IsPair : (Source × T) × (Source × T) → Type 0
  IsPair (first, second) =
      (first.0 ≡ opposite second.0) × (same (key first.1) (key second.1) ≡ true)

  -- From a state to a later one, over some frames: those returned and those suppressed, each with
  -- the frame that it repeats, which had been returned and waited.
  pub record Told (s : ShadowReconciler T K) (frames : List (Source × T))
      (s' : ShadowReconciler T K) (items : List T) : Type 0 where
    pub given : List (Source × T)
    pub pairs : List ((Source × T) × (Source × T))
    pub items_given : items ≡ map (λ f. f.1) given
    pub in_order : Merge given (suppressed_frames pairs) frames
    pub paired : All IsPair pairs
    pub matched : s'.matched_pairs ≡ s.matched_pairs + length pairs
    pub used_once :
        (test : Source × T → Bool)
        → count test (returned_frames pairs) + count test (waits s'.pending)
          ≤ count test given + count test (waits s.pending)
    pub keyed : AreKeyed s'.pending

  pub Told-trans :
      (s t u : ShadowReconciler T K) (frames more : List (Source × T)) (items later : List T)
      → Told s frames t items
      → Told t more u later
      → Told s (frames ++ more) u (items ++ later)
  Told-trans s t u frames more items later g h = record {
    given = g.given ++ h.given;
    pairs = g.pairs ++ h.pairs;
    items_given =
        ap₂ ◌++◌ g.items_given h.items_given ∙ sym (map-append (λ f. f.1) g.given h.given);
    in_order =
        subst (λ ys. Merge (g.given ++ h.given) ys (frames ++ more))
          (sym (map-append (λ p. p.1) g.pairs h.pairs)) (Merge-append g.in_order h.in_order);
    paired = All-append IsPair g.pairs h.pairs g.paired h.paired;
    matched = omega (arith, g.matched, h.matched, length-append g.pairs h.pairs);
    used_once = λ test. omega (
      arith,
      g.used_once test,
      h.used_once test,
      count-append test g.given h.given,
      count-append test (returned_frames g.pairs) (returned_frames h.pairs),
      ap (count test) (map-append (λ p. p.0) g.pairs h.pairs),
    );
    keyed = h.keyed;
  }

  -- A step that returns nothing, finds no pair and leaves at most the frames that waited.
  pub Told-none :
      (s t : ShadowReconciler T K)
      → t.matched_pairs ≡ s.matched_pairs
      → ((test : Source × T → Bool) → count test (waits t.pending) ≤ count test (waits s.pending))
      → AreKeyed t.pending
      → Told s [] t []
  Told-none s t m w k = record {
    given = [];
    pairs = [];
    items_given = refl;
    in_order = merged;
    paired = tt;
    matched = omega (arith, m);
    used_once = λ test. omega (arith, w test);
    keyed = k;
  }
