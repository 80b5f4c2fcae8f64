-- ===== src/Kiss/Split.antt =====
-- Splitting a stream at its delimiters.
use gs_flowgraphs.Base.{ℕ, ◌≡◌, refl, List, [], ◌∷◌, ◌++◌}
use gs_flowgraphs.Kiss.{fend, split, to_first}
use gs_flowgraphs.Kiss.Escape.{IsFree}

-- A chunk with no delimiter inside ends at the next delimiter.
pub split-append :
    (chunk rest : List ℕ) → IsFree chunk → split (chunk ++ fend ∷ rest) ≡ chunk ∷ split rest
unfolding split to_first
split-append [] rest h = refl
split-append (b ∷ chunk) rest h = rw (h.0, split-append chunk rest h.1)

pub split-cons_fend : (rest : List ℕ) → split (fend ∷ rest) ≡ [] ∷ split rest
unfolding split
split-cons_fend rest = refl
