-- ===== src/Shadow/Finalized.antt =====
-- The whole life of a shadow reconciler of native_framing/shadow_runtime.py, from `__init__` to
-- `finalize`.
use gs_flowgraphs.Base.{
  ℕ, ◌+◌, ◌≤◌, ◌≡◌, refl, sym, ◌∙◌, ap, subst, Bool, true, false, List, map, arith, ok, ok-if, ◌==◌,
  length, if◌then◌else◌, All,
}
use gs_flowgraphs.Shadow.{
  Source, primary, reference, ShadowStats, ShadowReconciler, emitted, expire_before, stats, ended,
  retained, finalize, shadow_reconciler, fresh,
}
use gs_flowgraphs.Shadow.Accounts.{IsAccounted, waiting, retained-waiting, retained-none}
use gs_flowgraphs.Shadow.Polls.{polled, polled-Leaves, Leaves}
use gs_flowgraphs.Shadow.Life.{Moves, Gives, primaries_of, references_of, polled-Gives}
use gs_flowgraphs.Shadow.History.{count, Merge, IsPair, returned_frames, suppressed_frames, Told}
use gs_flowgraphs.Shadow.Traced.{Traces, frames_of, polled-Traces}

module _ {T K : Type 0} (key : T → K) (same : K → K → Bool) where
  made-fresh :
      (lag room : ℕ) (s : ShadowReconciler T K)
      → shadow_reconciler lag room ≡ ok s
      → fresh lag room ≡ s
  unfolding shadow_reconciler
  made-fresh lag room s made = let opened = ok-if (room == 0) (ok (fresh lag room)) s made in cc

  fresh-IsAccounted : (lag room : ℕ) → IsAccounted 0 0 (fresh {T = T} {K = K} lag room)
  fresh-IsAccounted lag room = record {
    of_primary = omega arith;
    of_reference = omega arith;
    of_emitted = omega arith;
    of_pairs = refl;
    bounded = omega arith;
    recent = tt;
  }

  finalize-open :
      (s : ShadowReconciler T K) → s.finalized ≡ false → finalize s ≡ (ended s, stats (ended s))
  unfolding finalize
  finalize-open s = pick s.finalized
    where
      closed : ShadowReconciler T K × ShadowStats
      closed = (ended s, stats (ended s))

      pick : (b : Bool) → b ≡ false → (if b then (s, stats s) else closed) ≡ closed
      pick true h = absurd (cc)
      pick false h = refl

  -- What the statistics say after polls that returned `n` frames.
  abbrev pub Tell : List (List T × List T) → ℕ → ShadowStats → Type 0
  Tell polls n final =
      (final.pending_frames ≡ 0)
      × (final.primary_frames ≡ primaries_of key same polls)
      × (primaries_of key same polls ≡ final.matched_pairs + final.primary_only)
      × (final.reference_frames ≡ references_of key same polls)
      × (references_of key same polls ≡ final.matched_pairs + final.reference_only)
      × (final.emitted_frames ≡ n)
      × (n + final.matched_pairs ≡ primaries_of key same polls + references_of key same polls)

  ended-Tell :
      (polls : List (List T × List T)) (n : ℕ) (t : ShadowReconciler T K)
      → IsAccounted 0 0 t
      → t.primary_frames ≡ primaries_of key same polls
      → t.reference_frames ≡ references_of key same polls
      → t.emitted_frames ≡ n
      → Tell polls n (stats (ended t))
  unfolding ended stats expire_before
  ended-Tell polls n t h p q g =
      let last = t.generation + t.max_lag + 1 in
      let gone : length (retained last t.pending) ≡ 0 =
        ap length (retained-none t.generation last t.pending h.recent (omega arith)) in
      let none_waits : (source : Source) → waiting source (retained last t.pending) ≡ 0 = λ source.
        ap (waiting source) (retained-none t.generation last t.pending h.recent (omega arith)) in
      let ps = retained-waiting primary last t.pending in
      let qs = retained-waiting reference last t.pending in
      (
        gone,
        p,
        omega (arith, h.of_primary, p, ps, none_waits primary),
        q,
        omega (arith, h.of_reference, q, qs, none_waits reference),
        g,
        omega (arith, h.of_emitted, h.of_pairs, p, q, g),
      )

  -- What became of the frames of some polls, of which the statistics count `n` pairs.
  pub record IsExplained (polls : List (List T × List T)) (items : List T) (n : ℕ) : Type 0 where
    given : List (Source × T)
    pairs : List ((Source × T) × (Source × T))
    items_given : items ≡ map (λ f. f.1) given
    in_order : Merge given (suppressed_frames key same pairs) (frames_of key same polls)
    paired : All (IsPair key same) pairs
    matched : n ≡ length pairs
    used_once :
        (test : Source × T → Bool) → count test (returned_frames key same pairs) ≤ count test given

  Told-IsExplained :
      (polls : List (List T × List T)) (items : List T) (lag room : ℕ) (t : ShadowReconciler T K)
      → Told key same (fresh lag room) (frames_of key same polls) t items
      → IsExplained polls items t.matched_pairs
  Told-IsExplained polls items lag room t h = record {
    given = h.given;
    pairs = h.pairs;
    items_given = h.items_given;
    in_order = h.in_order;
    paired = h.paired;
    matched = omega (arith, h.matched);
    used_once = λ test. omega (arith, h.used_once test);
  }

  ended-matched : (t : ShadowReconciler T K) → (stats (ended t)).matched_pairs ≡ t.matched_pairs
  unfolding stats ended expire_before
  ended-matched t = refl

  fresh-accounts :
      (lag room : ℕ) (t : ShadowReconciler T K) (polls : List (List T × List T)) (items : List T)
      → polled key same polls (fresh lag room) ≡ (t, emitted items)
      → Tell polls (length items) (finalize t).1
        × IsExplained polls items (finalize t).1.matched_pairs
  fresh-accounts lag room t polls items run =
      let s : ShadowReconciler T K = fresh lag room in
      let accounts : IsAccounted 0 0 t =
        subst (Leaves key same 0 0) run
          (polled-Leaves key same polls s (fresh-IsAccounted lag room)) in
      let moved : Moves s (primaries_of key same polls) (references_of key same polls)
          (length items) t =
        subst (Gives s (primaries_of key same polls) (references_of key same polls)) run
          (polled-Gives key same polls s) in
      let told : Told key same s (frames_of key same polls) t items =
        subst (Traces key same s (frames_of key same polls)) run
          (polled-Traces key same polls s tt) in
      let last = finalize-open t moved.still in
      (
        subst (λ r. Tell polls (length items) r.1) (sym last)
            (ended-Tell polls (length items) t accounts (omega (arith, moved.primaries))
              (omega (arith, moved.references)) (omega (arith, moved.given))),
        subst (IsExplained polls items) (sym (ap (λ r. r.1.matched_pairs) last ∙ ended-matched t))
            (Told-IsExplained polls items lag room t told),
      )

  -- If no poll of a new reconciler raises, then after `finalize` no frame is pending, and each
  -- engine's frames, as many as the polls held, are the matched ones and those of that engine
  -- only. The frames of the polls, in the order in which they are looked at, are those that were
  -- returned, in the order in which they were, and one for each matched pair, which was not
  -- returned: it has the key of a frame of the other engine that was, and no frame that was
  -- returned is the partner of two.
  pub finalize_accounts :
      (lag room : ℕ) (s t : ShadowReconciler T K) (polls : List (List T × List T)) (items : List T)
      → shadow_reconciler lag room ≡ ok s
      → polled key same polls s ≡ (t, emitted items)
      → Tell polls (length items) (finalize t).1
        × IsExplained polls items (finalize t).1.matched_pairs
  finalize_accounts lag room s t polls items made run =
      fresh-accounts lag room t polls items
        (ap (polled key same polls) (made-fresh lag room s made) ∙ run)
