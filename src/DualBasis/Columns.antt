-- ===== src/DualBasis/Columns.antt =====
-- The interleaving of native_framing/rs.py and the slices of a step undo each other.
use gs_flowgraphs.Base.{
  ℕ, zero, suc, ◌+◌, ◌-◌, ◌*◌, ◌<◌, ◌≤◌, List, [], ◌∷◌, ◌++◌, ◌≡◌, refl, sym, ap, ap₂, ◌∙◌, arith,
  All, length, length-append, get_or, take, drop, take-append-drop, length-take, length-drop,
}
use gs_flowgraphs.DualBasis.{every_nth, heads, tails, columns}

-- The slices from number `path`.
unfoldable pub slices : ℕ → ℕ → ℕ → List ℕ → List (List ℕ)
slices n zero path xs = []
slices n (suc left) path xs = every_nth n path xs ∷ slices n left (path + 1) xs

-- Each element in front of a list.
unfoldable pub cons_each : List ℕ → List (List ℕ) → List (List ℕ)
cons_each [] ws = ws
cons_each (x ∷ xs) [] = []
cons_each (x ∷ xs) (w ∷ ws) = (x ∷ w) ∷ cons_each xs ws

skip :
    (n m : ℕ) (xs rest : List ℕ)
    → length xs ≤ m
    → every_nth n m (xs ++ rest) ≡ every_nth n (m - length xs) rest
unfolding every_nth
skip n m [] rest h = ap (λ k. every_nth n k rest) (omega arith)
skip n zero (x ∷ xs) rest h = absurd (omega arith)
skip n (suc m) (x ∷ xs) rest h =
    skip n m xs rest (omega arith) ∙ ap (λ k. every_nth n k rest) (omega arith)

every_nth-column :
    (n p : ℕ) (col rest : List ℕ)
    → p < length col
    → length col ≤ n + p
    → every_nth n p (col ++ rest) ≡ get_or col p 0 ∷ every_nth n (n + p - length col) rest
unfolding every_nth
every_nth-column n p [] rest h k = absurd (omega arith)
every_nth-column n zero (x ∷ col) rest h k =
    ap (◌∷◌ x) (skip n (n - 1) col rest (omega arith) ∙ ap (λ k. every_nth n k rest) (omega arith))
every_nth-column n (suc p) (x ∷ col) rest h k =
    every_nth-column n p col rest (omega arith) (omega arith)
    ∙ ap (λ k. get_or col p 0 ∷ every_nth n k rest) (omega arith)

drop_cons : (p : ℕ) (xs : List ℕ) → p < length xs → drop p xs ≡ get_or xs p 0 ∷ drop (p + 1) xs
drop_cons p [] h = absurd (omega arith)
drop_cons zero (x ∷ xs) h = refl
drop_cons (suc p) (x ∷ xs) h =
    let next : suc p + 1 ≡ suc (p + 1) = omega arith in
    drop_cons p xs (omega arith) ∙ ap (λ k. get_or xs p 0 ∷ drop k (x ∷ xs)) (sym next)

drop_all : (p : ℕ) (xs : List ℕ) → length xs ≤ p → drop p xs ≡ []
drop_all zero [] h = refl
drop_all (suc p) [] h = refl
drop_all zero (x ∷ xs) h = absurd (omega arith)
drop_all (suc p) (x ∷ xs) h = drop_all p xs (omega arith)

-- The slices of a list with one more column in front.
slices-column :
    (n left p : ℕ) (col rest : List ℕ)
    → length col ≡ n
    → p + left ≡ n
    → slices n left p (col ++ rest) ≡ cons_each (drop p col) (slices n left p rest)
unfolding slices cons_each
slices-column n zero p col rest h k = rw (drop_all p col (omega arith)) refl
slices-column n (suc left) p col rest h k = rw (drop_cons p col (omega arith)) (
    ap₂ ◌∷◌
      (every_nth-column n p col rest (omega arith) (omega arith)
        ∙ ap (λ k. get_or col p 0 ∷ every_nth n k rest) (omega arith))
      (slices-column n left (p + 1) col rest h (omega arith)))

heads-cons_each :
    (col : List ℕ) (ws : List (List ℕ)) → length ws ≡ length col → heads (cons_each col ws) ≡ col
unfolding heads cons_each
heads-cons_each [] [] h = refl
heads-cons_each [] (w ∷ ws) h = absurd (omega arith)
heads-cons_each (x ∷ col) [] h = absurd (omega arith)
heads-cons_each (x ∷ col) (w ∷ ws) h = ap (◌∷◌ x) (heads-cons_each col ws (omega arith))

tails-cons_each :
    (col : List ℕ) (ws : List (List ℕ)) → length ws ≡ length col → tails (cons_each col ws) ≡ ws
unfolding tails cons_each
tails-cons_each [] [] h = refl
tails-cons_each [] (w ∷ ws) h = absurd (omega arith)
tails-cons_each (x ∷ col) [] h = absurd (omega arith)
tails-cons_each (x ∷ col) (w ∷ ws) h = ap (◌∷◌ w) (tails-cons_each col ws (omega arith))

pub slices-length : (n left p : ℕ) (xs : List ℕ) → length (slices n left p xs) ≡ left
unfolding slices
slices-length n zero p xs = refl
slices-length n (suc left) p xs = ap suc (slices-length n left (p + 1) xs)

slices_cut :
    (n : ℕ) (xs : List ℕ)
    → n ≤ length xs
    → slices n n 0 xs ≡ cons_each (take n xs) (slices n n 0 (drop n xs))
slices_cut n xs enough =
    let size : length (take n xs) ≡ n = omega (arith, length-take n xs, enough) in
    ap (slices n n 0) (sym (take-append-drop n xs))
    ∙ slices-column n n 0 (take n xs) (drop n xs) size (omega arith)

-- The columns of the slices are the list.
pub columns-slices : (n m : ℕ) (xs : List ℕ) → length xs ≡ m * n → columns m (slices n n 0 xs) ≡ xs
unfolding columns
columns-slices n zero [] h = refl
columns-slices n zero (x ∷ xs) h = absurd (omega arith)
columns-slices n (suc m) xs h =
    let col = take n xs in
    let rest = drop n xs in
    let enough : n ≤ length xs = ground arith in
    let size : length col ≡ n = omega (arith, length-take n xs, enough) in
    let left : length rest ≡ m * n = ground (arith, length-drop n xs) in
    let even : length (slices n n 0 rest) ≡ length col = slices-length n n 0 rest ∙ sym size in
    rw
      (
        slices_cut n xs enough,
        heads-cons_each col (slices n n 0 rest) even,
        tails-cons_each col (slices n n 0 rest) even,
      )
      (ap (◌++◌ col) (columns-slices n m rest left) ∙ take-append-drop n xs)

abbrev pub HasLength : ℕ → List ℕ → Type 0
HasLength m w = length w ≡ m

slices-empty :
    (n left p : ℕ) (ws : List (List ℕ))
    → length ws ≡ left
    → All (HasLength 0) ws
    → slices n left p [] ≡ ws
unfolding slices every_nth
slices-empty n zero p [] h k = refl
slices-empty n zero p (w ∷ ws) h k = absurd (omega arith)
slices-empty n (suc left) p [] h k = absurd (omega arith)
slices-empty n (suc left) p ([] ∷ ws) h k =
    ap (◌∷◌ []) (slices-empty n left (p + 1) ws (omega arith) k.1)
slices-empty n (suc left) p ((x ∷ w) ∷ ws) h k = absurd (omega (arith, k.0))

cons_each-heads :
    (m : ℕ) (ws : List (List ℕ)) → All (HasLength (suc m)) ws → cons_each (heads ws) (tails ws) ≡ ws
unfolding cons_each heads tails
cons_each-heads m [] k = refl
cons_each-heads m ([] ∷ ws) k = absurd (omega (arith, k.0))
cons_each-heads m ((x ∷ w) ∷ ws) k = ap (◌∷◌ (x ∷ w)) (cons_each-heads m ws k.1)

heads-length :
    (m : ℕ) (ws : List (List ℕ)) → All (HasLength (suc m)) ws → length (heads ws) ≡ length ws
unfolding heads
heads-length m [] k = refl
heads-length m ([] ∷ ws) k = absurd (omega (arith, k.0))
heads-length m ((x ∷ w) ∷ ws) k = ap suc (heads-length m ws k.1)

tails-HasLength :
    (m : ℕ) (ws : List (List ℕ))
    → All (HasLength (suc m)) ws
    → All (HasLength m) (tails ws) × (length (tails ws) ≡ length ws)
unfolding tails
tails-HasLength m [] k = (tt, refl)
tails-HasLength m ([] ∷ ws) k = absurd (omega (arith, k.0))
tails-HasLength m ((x ∷ w) ∷ ws) k =
    ((omega (arith, k.0), (tails-HasLength m ws k.1).0), ap suc (tails-HasLength m ws k.1).1)

-- The slices of the columns are the paths.
pub slices-columns :
    (n m : ℕ) (ws : List (List ℕ))
    → length ws ≡ n
    → All (HasLength m) ws
    → slices n n 0 (columns m ws) ≡ ws
unfolding columns
slices-columns n zero ws h k = slices-empty n n 0 ws h k
slices-columns n (suc m) ws h k =
    let (even, same) = tails-HasLength m ws k in
    slices-column n n 0 (heads ws) (columns m (tails ws)) (heads-length m ws k ∙ h) (omega arith)
    ∙ ap (cons_each (heads ws)) (slices-columns n m (tails ws) (same ∙ h) even)
    ∙ cons_each-heads m ws k

pub columns-length :
    (m : ℕ) (ws : List (List ℕ)) → All (HasLength m) ws → length (columns m ws) ≡ m * length ws
unfolding columns
columns-length zero ws k = omega arith
columns-length (suc m) ws k =
    let (even, same) = tails-HasLength m ws k in
    let rest = columns-length m (tails ws) even ∙ ap (◌*◌ m) same in
    ground (arith, length-append (heads ws) (columns m (tails ws)), rest, heads-length m ws k)

cons_each-HasLength :
    (m : ℕ) (col : List ℕ) (ws : List (List ℕ))
    → length ws ≡ length col
    → All (HasLength m) ws
    → All (HasLength (suc m)) (cons_each col ws)
unfolding cons_each
cons_each-HasLength m [] [] h k = tt
cons_each-HasLength m [] (w ∷ ws) h k = absurd (omega arith)
cons_each-HasLength m (x ∷ col) [] h k = absurd (omega arith)
cons_each-HasLength m (x ∷ col) (w ∷ ws) h k =
    (ap suc k.0, cons_each-HasLength m col ws (omega arith) k.1)

slices_nil : (n left p : ℕ) → All (HasLength 0) (slices n left p [])
unfolding slices every_nth
slices_nil n zero p = tt
slices_nil n (suc left) p = (refl, slices_nil n left (p + 1))

-- The slices of a whole number of columns have one length.
pub slices-HasLength :
    (n m : ℕ) (xs : List ℕ) → length xs ≡ m * n → All (HasLength m) (slices n n 0 xs)
slices-HasLength n zero [] h = slices_nil n n 0
slices-HasLength n zero (x ∷ xs) h = absurd (omega arith)
slices-HasLength n (suc m) xs h =
    let enough : n ≤ length xs = ground arith in
    let size : length (take n xs) ≡ n = omega (arith, length-take n xs, enough) in
    let left : length (drop n xs) ≡ m * n = ground (arith, length-drop n xs) in
    rw (slices_cut n xs enough) (
      cons_each-HasLength m (take n xs) (slices n n 0 (drop n xs))
        (slices-length n n 0 (drop n xs) ∙ sym size) (slices-HasLength n m (drop n xs) left))
