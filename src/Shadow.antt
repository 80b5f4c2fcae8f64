-- ===== src/Shadow.antt =====
-- native_framing/shadow_runtime.py: the frames of two engines, paired over a few polls. The test of
-- equality of keys is the parameter `same`; a negative number has no `ℕ`, and the type tests are
-- Python's.
pub mod Accounts
pub mod Polls
pub mod History
pub mod Taken
pub mod Traced
pub mod Life
pub mod Finalized
use gs_flowgraphs.Base.{
  ℕ, suc, ◌+◌, ◌-◌, Bool, true, false, Option, none, some, List, [], ◌∷◌, ◌++◌, ◌&&◌, Result, ok,
  value_error,
}
use gs_flowgraphs.Base.{ltb, leb, ◌==◌, if◌then◌else◌, length}

pub data Source : Type 0 where
  primary reference : Source

abbrev pub opposite : Source → Source
opposite primary = reference
opposite reference = primary

abbrev pub same_source : Source → Source → Bool
same_source primary primary = true
same_source reference reference = true
same_source _ _ = false

pub record ShadowStats : Type 0 where
  pub polls : ℕ
  pub primary_frames : ℕ
  pub reference_frames : ℕ
  pub matched_pairs : ℕ
  pub primary_only : ℕ
  pub reference_only : ℕ
  pub emitted_frames : ℕ
  pub duplicates_suppressed : ℕ
  pub pending_frames : ℕ
  pub finalized : Bool

pub record Pending (T K : Type 0) : Type 0 where
  pub source : Source
  pub key : K
  pub generation : ℕ
  pub item : T

pub record ShadowReconciler (T K : Type 0) : Type 0 where
  pub max_lag : ℕ
  pub max_pending : ℕ
  pub generation : ℕ
  pub pending : List (Pending T K)
  pub primary_frames : ℕ
  pub reference_frames : ℕ
  pub matched_pairs : ℕ
  pub primary_only : ℕ
  pub reference_only : ℕ
  pub emitted_frames : ℕ
  pub duplicates_suppressed : ℕ
  pub finalized : Bool

-- What `reconcile` returns or raises.
pub data Reply (T : Type 0) : Type 0 where
  emitted : List T → Reply T
  capacity_error : Reply T
  finalized_error : Reply T

unfoldable pub put_first : {T : Type 0} → T → Reply T → Reply T
put_first item (emitted items) = emitted (item ∷ items)
put_first item capacity_error = capacity_error
put_first item finalized_error = finalized_error

unfoldable pub joined_reply : {T : Type 0} → List T → Reply T → Reply T
joined_reply before (emitted items) = emitted (before ++ items)
joined_reply before capacity_error = capacity_error
joined_reply before finalized_error = finalized_error

-- What becomes of one item.
pub data Observed : Type 0 where
  emits suppressed over_capacity : Observed

module _ {T K : Type 0} where
  abbrev pub fresh : ℕ → ℕ → ShadowReconciler T K
  fresh max_lag_polls max_pending_items = record {
    max_lag = max_lag_polls;
    max_pending = max_pending_items;
    generation = 0;
    pending = [];
    primary_frames = 0;
    reference_frames = 0;
    matched_pairs = 0;
    primary_only = 0;
    reference_only = 0;
    emitted_frames = 0;
    duplicates_suppressed = 0;
    finalized = false;
  }

  -- `__init__`
  unfoldable pub shadow_reconciler : ℕ → ℕ → Result (ShadowReconciler T K)
  shadow_reconciler max_lag_polls max_pending_items =
      if max_pending_items == 0 then value_error else ok (fresh max_lag_polls max_pending_items)

  unfoldable pub stats : ShadowReconciler T K → ShadowStats
  stats s = record {
    polls = s.generation;
    primary_frames = s.primary_frames;
    reference_frames = s.reference_frames;
    matched_pairs = s.matched_pairs;
    primary_only = s.primary_only;
    reference_only = s.reference_only;
    emitted_frames = s.emitted_frames;
    duplicates_suppressed = s.duplicates_suppressed;
    pending_frames = length s.pending;
    finalized = s.finalized;
  }

  unfoldable pub retained : ℕ → List (Pending T K) → List (Pending T K)
  retained minimum [] = []
  retained minimum (p ∷ ps) =
      let rest = retained minimum ps in if ltb p.generation minimum then rest else p ∷ rest

  -- How many frames of a source expire.
  unfoldable pub expired : Source → ℕ → List (Pending T K) → ℕ
  expired source minimum [] = 0
  expired source minimum (p ∷ ps) =
      let rest = expired source minimum ps in
      if ltb p.generation minimum && same_source p.source source then suc rest else rest

  unfoldable pub expire_before : ShadowReconciler T K → ℕ → ShadowReconciler T K
  expire_before s minimum_generation = record s {
    primary_only = s.primary_only + expired primary minimum_generation s.pending;
    reference_only = s.reference_only + expired reference minimum_generation s.pending;
    pending = retained minimum_generation s.pending;
  }

  -- A new poll, before its items are looked at.
  unfoldable pub counted : ShadowReconciler T K → ℕ → ℕ → ShadowReconciler T K
  counted s primary_items reference_items =
      let aged =
        expire_before (record s { generation = s.generation + 1 }) (s.generation + 1 - s.max_lag) in
      record aged {
        primary_frames = aged.primary_frames + primary_items;
        reference_frames = aged.reference_frames + reference_items;
      }

  unfoldable pub ended : ShadowReconciler T K → ShadowReconciler T K
  ended s = record (expire_before s (s.generation + s.max_lag + 1)) { finalized = true }

  unfoldable pub finalize : ShadowReconciler T K → ShadowReconciler T K × ShadowStats
  finalize s = if s.finalized then (s, stats s) else (ended s, stats (ended s))

  unfoldable pub kept : Pending T K → Option (List (Pending T K)) → Option (List (Pending T K))
  kept p none = none
  kept p (some ps) = some (p ∷ ps)

  -- What follows the first item of a loop over items.
  unfoldable pub go_on :
      T
      → ShadowReconciler T K × Observed
      → (ShadowReconciler T K → ShadowReconciler T K × Reply T)
      → ShadowReconciler T K × Reply T
  go_on item (s, suppressed) next = next s
  go_on item (s, over_capacity) next = (s, capacity_error)
  go_on item (s, emits) next = let (s', reply) = next s in (s', put_first item reply)

  -- The second loop follows the first unless that raised.
  unfoldable pub and_then :
      ShadowReconciler T K × Reply T
      → (ShadowReconciler T K → ShadowReconciler T K × Reply T)
      → ShadowReconciler T K × Reply T
  and_then (s, emitted items) next = let (s', reply) = next s in (s', joined_reply items reply)
  and_then (s, capacity_error) next = (s, capacity_error)
  and_then (s, finalized_error) next = (s, finalized_error)

  module _ (key : T → K) (same : K → K → Bool) where
    -- `pop` of the first frame of a source with the key, if there is one.
    unfoldable pub without_match : Source → K → List (Pending T K) → Option (List (Pending T K))
    without_match source item_key [] = none
    without_match source item_key (p ∷ ps) =
        let rest = kept p (without_match source item_key ps) in
        if same_source p.source source && same p.key item_key then some ps else rest

    unfoldable pub unmatched : Source → T → ShadowReconciler T K → ShadowReconciler T K × Observed
    unmatched source item s = if leb s.max_pending (length s.pending) then (s, over_capacity) else (
      record s {
        pending =
            s.pending
            ++ record { source = source; key = key item; generation = s.generation; item = item }
              ∷ [];
        emitted_frames = s.emitted_frames + 1;
      },
      emits,
    )

    unfoldable pub judged :
        Source
        → T
        → ShadowReconciler T K
        → Option (List (Pending T K))
        → ShadowReconciler T K × Observed
    judged source item s none = unmatched source item s
    judged source item s (some rest) = (
      record s {
        pending = rest;
        matched_pairs = s.matched_pairs + 1;
        duplicates_suppressed = s.duplicates_suppressed + 1;
      },
      suppressed,
    )

    -- One item of an engine.
    unfoldable pub observe : Source → T → ShadowReconciler T K → ShadowReconciler T K × Observed
    observe source item s =
        judged source item s (without_match (opposite source) (key item) s.pending)

    unfoldable pub observe_all :
        Source → List T → ShadowReconciler T K → ShadowReconciler T K × Reply T
    observe_all source [] s = (s, emitted [])
    observe_all source (item ∷ items) s =
        go_on item (observe source item s) (observe_all source items)

    unfoldable pub reconcile :
        ShadowReconciler T K → List T → List T → ShadowReconciler T K × Reply T
    reconcile s primary_items reference_items =
        if s.finalized
        then (s, finalized_error)
        else and_then
            (observe_all primary primary_items
              (counted s (length primary_items) (length reference_items)))
            (observe_all reference reference_items)
