-- ===== src/Tests/Shadows.antt =====
-- Concrete polls for native_framing/shadow_runtime.py.
use gs_flowgraphs.Base.{ℕ, ◌≡◌, refl, List, [], ◌∷◌, ok, ◌==◌}
use gs_flowgraphs.Shadow.{
  ShadowReconciler, Reply, emitted, fresh, shadow_reconciler, reconcile, counted, expire_before,
  retained, expired, observe_all, observe, judged, unmatched, without_match, kept, go_on, put_first,
  joined_reply, and_then, finalize,
}
use gs_flowgraphs.Shadow.Polls.{polled}
use gs_flowgraphs.Shadow.Finalized.{Tell, IsExplained, finalize_accounts}

abbrev key : ℕ → ℕ
key frame = frame

-- Frames 7 and 8 of one engine; the other gives 7 a poll later, and 9.
abbrev polls : List (List ℕ × List ℕ)
polls = (7 ∷ 8 ∷ [], []) ∷ ([], 7 ∷ 9 ∷ []) ∷ []

abbrev after_polls : ShadowReconciler ℕ ℕ × Reply ℕ
after_polls = polled key ◌==◌ polls (fresh 1 10)

given : after_polls.1 ≡ emitted (7 ∷ 8 ∷ 9 ∷ [])
unfolding reconcile counted expire_before retained expired observe_all observe judged unmatched
    without_match kept go_on put_first joined_reply and_then
given = refl

made : shadow_reconciler 1 10 ≡ ok (fresh {T = ℕ} {K = ℕ} 1 10)
unfolding shadow_reconciler
made = refl

finalize_accounts_example :
    Tell key ◌==◌ polls 3 (finalize after_polls.0).1
    × IsExplained key ◌==◌ polls (7 ∷ 8 ∷ 9 ∷ []) (finalize after_polls.0).1.matched_pairs
finalize_accounts_example =
    finalize_accounts key ◌==◌ 1 10 (fresh 1 10) after_polls.0 polls (7 ∷ 8 ∷ 9 ∷ []) made
      (λ i. (after_polls.0, given i))
