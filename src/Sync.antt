-- ===== src/Sync.antt =====
-- native_framing/sync.py for hard bits: the correlator that looks for a sync word in a stream that
-- arrives in chunks. A distance of hard bits is a whole number; soft symbols are not modelled.
pub mod Chunks
use gs_flowgraphs.Base.{ℕ, zero, suc, ◌+◌, ◌-◌, Bool, true, false, List, [], ◌∷◌, ◌++◌, ◌&&◌, min}
use gs_flowgraphs.Base.{
  Result, ok, value_error, ltb, leb, ◌==◌, if◌then◌else◌, length, take, drop, ◌⊕◌, bit,
}

pub data Polarity : Type 0 where
  normal inverted ambiguous : Polarity

pub record SyncMatch : Type 0 where
  pub source_start : ℕ
  pub source_end : ℕ
  pub distance : ℕ
  pub polarity : Polarity

pub record StreamingSync : Type 0 where
  pub pattern : List Bool
  pub threshold : ℕ
  pub accept_inverted : Bool
  pub tail : List Bool
  pub total_seen : ℕ

-- The constructor, for a pattern of hard bits.
unfoldable pub streaming_sync : List Bool → ℕ → Bool → Result StreamingSync
streaming_sync pattern threshold accept_inverted =
    if length pattern == 0
    then value_error
    else if ltb (length pattern) threshold
    then value_error
    else ok (record {
      pattern = pattern;
      threshold = threshold;
      accept_inverted = accept_inverted;
      tail = [];
      total_seen = 0;
    })

abbrev pub max_retained_symbols : StreamingSync → ℕ
max_retained_symbols s = length s.pattern - 1

-- `np.count_nonzero(window != pattern)`
pub distance : List Bool → List Bool → ℕ
distance [] pattern = 0
distance (b ∷ window) [] = 0
distance (b ∷ window) (p ∷ pattern) = bit (b ⊕ p) + distance window pattern

-- The distance and the polarity that a window is reported with.
pub judged : Bool → ℕ → ℕ → ℕ → ℕ × Polarity
judged accept_inverted threshold width d =
    if accept_inverted && ltb (width - d) d
    then (width - d, inverted)
    else if accept_inverted && (width - d == d && leb d threshold)
    then (d, ambiguous)
    else (d, normal)

-- The match at one index, if any.
unfoldable pub match_of : StreamingSync → ℕ → ℕ × Polarity → List SyncMatch
match_of s start (d, p) =
    if leb d s.threshold
    then record {
      source_start = start;
      source_end = start + length s.pattern;
      distance = d;
      polarity = p;
    }
      ∷ []
    else []

unfoldable pub match_at : StreamingSync → ℕ → List Bool → List SyncMatch
match_at s start window =
    match_of s start
      (judged s.accept_inverted s.threshold (length s.pattern) (distance window s.pattern))

-- The loop over `n` indices, the first of which is the head of the list at `start`.
unfoldable pub scan : StreamingSync → ℕ → ℕ → List Bool → List SyncMatch
scan s zero start combined = []
scan s (suc n) start combined =
    match_at s start (take (length s.pattern) combined) ++ scan s n (start + 1) (drop 1 combined)

unfoldable pub push : StreamingSync → List Bool → StreamingSync × List SyncMatch
push s chunk =
    let combined = s.tail ++ chunk in
    let keep = min (max_retained_symbols s) (length combined) in
    (
      record s {
        tail = drop (length combined - keep) combined;
        total_seen = s.total_seen + length chunk;
      },
      scan s (length combined + 1 - length s.pattern) (s.total_seen - length s.tail) combined,
    )

pub flush : StreamingSync → StreamingSync
flush s = record s { tail = [] }
