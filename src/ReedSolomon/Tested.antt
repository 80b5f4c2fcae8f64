-- ===== src/ReedSolomon/Tested.antt =====
-- Tests on the tables and the generator of a codec of gfsk_ax25/reedsolomon.py, which compute, and
-- what they show: the codec is one of a field.
use gs_flowgraphs.Base.{
  lt_of, both_of, ℕ, ◌+◌, ◌<◌, bit_xor, Bool, true, false, List, [], ◌∷◌, ◌≡◌, arith, All, length,
  get_or, ◌==◌, ==_iff, ◌&&◌, ◌||◌, ltb, all_below, all_below_sound,
}
use gs_flowgraphs.ReedSolomon.{RsCodec, doubled, pow, eval_from, without_first}
use gs_flowgraphs.ReedSolomon.Field.{IsField}
use gs_flowgraphs.ReedSolomon.Horner.{IsOctet}
use gs_flowgraphs.ReedSolomon.RoundTrip.{IsCodec}

test_of :
    (test : ℕ → Bool) (bound value : ℕ)
    → all_below bound test ≡ true
    → value < bound
    → test value ≡ true
test_of test bound value every small =
    all_below_sound test {bound = bound} {value = value} small every

other_of : (a b : Bool) → a ≡ false → (a || b) ≡ true → b ≡ true
other_of true b h k = absurd (cc)
other_of false b h k = k

unfoldable pub octets_only : List ℕ → Bool
octets_only [] = true
octets_only (x ∷ xs) = ltb x 256 && octets_only xs

octets_only_sound : (xs : List ℕ) → octets_only xs ≡ true → All IsOctet xs
unfolding octets_only
octets_only_sound [] h = tt
octets_only_sound (x ∷ xs) h =
    let (small, rest) = both_of (ltb x 256) (octets_only xs) h in
    (lt_of x 256 small, octets_only_sound xs rest)

module _ (prim : ℕ) where
  abbrev step_stays : ℕ → Bool
  step_stays a = ltb (doubled prim a) 256

  abbrev step_adds : ℕ → ℕ → Bool
  step_adds a b = doubled prim (bit_xor a b) == bit_xor (doubled prim a) (doubled prim b)

  -- The step of the tables stays in the field, and is additive.
  unfoldable pub every_step : Bool
  every_step = all_below 256 (λ a. step_stays a && all_below 256 (step_adds a))

  every_step_sound :
      (a : ℕ) → a < 256 → every_step ≡ true → (step_stays a && all_below 256 (step_adds a)) ≡ true
  unfolding every_step
  every_step_sound a h every =
      test_of (λ a. step_stays a && all_below 256 (step_adds a)) 256 a every h

module _ (prim : ℕ) (exp log : List ℕ) where
  abbrev entry_follows : ℕ → Bool
  entry_follows k = get_or exp (k + 1) 0 == doubled prim (get_or exp k 0)

  abbrev log_inverts : ℕ → Bool
  log_inverts a = (a == 0) || ((get_or exp (get_or log a 0) 0 == a) && ltb (get_or log a 0) 255)

  -- Each entry is the step of the one before, and the logarithm undoes the power.
  unfoldable pub every_entry : Bool
  every_entry = (get_or exp 0 0 == 1) && (all_below 510 entry_follows && all_below 256 log_inverts)

  log_facts :
      (a : ℕ)
      → 0 < a
      → a < 256
      → all_below 256 log_inverts ≡ true
      → (get_or exp (get_or log a 0) 0 ≡ a) × (get_or log a 0 < 255)
  log_facts a h k every =
      let e = get_or exp (get_or log a 0) 0 in
      let l = get_or log a 0 in
      let nonzero : (a == 0) ≡ false = ground arith in
      let (same, small) =
        both_of (e == a) (ltb l 255)
          (other_of (a == 0) ((e == a) && ltb l 255) nonzero (test_of log_inverts 256 a every k)) in
      ((==_iff e a).0 same, lt_of l 255 small)

  tables-IsField : every_step prim ≡ true → every_entry ≡ true → IsField prim exp log
  unfolding every_entry
  tables-IsField steps entries =
      let (first, rest) =
        both_of (get_or exp 0 0 == 1) (all_below 510 entry_follows && all_below 256 log_inverts)
          entries in
      let (follows, inverts) =
        both_of (all_below 510 entry_follows) (all_below 256 log_inverts) rest in
      record {
        doubled-lt = λ a h.
            lt_of (doubled prim a) 256
              (both_of (step_stays prim a) (all_below 256 (step_adds prim a))
                (every_step_sound prim a h steps)).0;
        doubled-xor = λ a b h k.
            (==_iff (doubled prim (bit_xor a b)) (bit_xor (doubled prim a) (doubled prim b))).0 (
              test_of (step_adds prim a) 256 b
                (both_of (step_stays prim a) (all_below 256 (step_adds prim a))
                  (every_step_sound prim a h steps)).1
                k);
        exp_first = (==_iff (get_or exp 0 0) 1).0 first;
        exp_next = λ k h.
            (==_iff (get_or exp (k + 1) 0) (doubled prim (get_or exp k 0))).0
              (test_of entry_follows 510 k follows h);
        exp-log = λ a h k. (log_facts a h k inverts).0;
        log-lt = λ a h k. (log_facts a h k inverts).1;
      }

module _ (c : RsCodec) where
  abbrev root : ℕ → ℕ
  root i = pow c.exp c.log c.gen (i + c.fcr)

  abbrev root_tested : ℕ → Bool
  root_tested i =
      (eval_from c.exp c.log 1 (without_first c.gpoly) (root i) == 0) && ltb (root i) 256

  -- The generator has the roots of the syndromes, and as many coefficients as there is parity.
  unfoldable pub every_root : Bool
  every_root =
      (length (without_first c.gpoly) == c.nsym)
      && (octets_only (without_first c.gpoly) && all_below c.nsym root_tested)

  pub tested-IsCodec :
      (prim : ℕ)
      → every_step prim ≡ true
      → every_entry prim c.exp c.log ≡ true
      → every_root ≡ true
      → IsCodec prim c
  unfolding every_root
  tested-IsCodec prim steps entries roots =
      let tail = without_first c.gpoly in
      let (size, rest) =
        both_of (length tail == c.nsym) (octets_only tail && all_below c.nsym root_tested) roots in
      let (small, every) = both_of (octets_only tail) (all_below c.nsym root_tested) rest in
      let at : (i : ℕ)
          → i < c.nsym
          → (eval_from c.exp c.log 1 tail (root i) == 0) ≡ true × ltb (root i) 256 ≡ true =
        λ i h.
          both_of (eval_from c.exp c.log 1 tail (root i) == 0) (ltb (root i) 256)
            (test_of root_tested c.nsym i every h) in
      record {
        field = tables-IsField prim c.exp c.log steps entries;
        tail-octets = octets_only_sound tail small;
        tail-length = (==_iff (length tail) c.nsym).0 size;
        root-octet = λ i h. lt_of (root i) 256 (at i h).1;
        root-zero = λ i h. (==_iff (eval_from c.exp c.log 1 tail (root i)) 0).0 (at i h).0;
      }
