-- ===== src/Crc/Fcs/Table.antt =====
-- The table of fcs.py gives what eight turns of the bitwise register give.
use gs_flowgraphs.Base.{
  ℕ, zero, suc, ◌+◌, ◌-◌, ◌*◌, ◌/◌, ◌%◌, ◌^◌, ◌<◌, ◌≡◌, refl, ap, ap₂, sym, ◌∙◌, Bool, true, false,
  List, [], ◌∷◌, bit_xor, bit_and, arith,
}
use gs_flowgraphs.Base.{odd, if◌then◌else◌, ◌>>>◌, get_or, and_mask}
use gs_flowgraphs.Base.Xor.{xor-zero, xor-lt, xor_fields, xor-shift}
use gs_flowgraphs.Octets.{IsByte, IsBytes}
use gs_flowgraphs.Crc.Catalog.{
  compute, reflect, reflect_loop, differs, reflected_loop, repeat, shift_right, crc16_x25,
}
use gs_flowgraphs.Crc.Register.{turn, turns, turns-xor, turns-shift, turns-lt}
use gs_flowgraphs.Crc.Fcs.{
  fcs, xorout, poly_reflected, init_register, shift_bit, shift_bits, table_entry, table_from, table,
  fcs_loop,
}

shift_bit-turn : (c : ℕ) → shift_bit c ≡ turn poly_reflected c
unfolding shift_bit
shift_bit-turn c = choose (odd c)
  where
    choose :
        (b : Bool)
        → (if b then bit_xor (c >>> 1) poly_reflected else c >>> 1)
          ≡ bit_xor (c / 2) (if b then poly_reflected else 0)
    choose true = refl
    choose false = sym (xor-zero (c / 2))

shift_bits-turns : (n c : ℕ) → shift_bits n c ≡ turns poly_reflected n c
unfolding shift_bits turns
shift_bits-turns zero c = refl
shift_bits-turns (suc n) c =
    ap (shift_bits n) (shift_bit-turn c) ∙ shift_bits-turns n (turn poly_reflected c)

table_entry-turns : (b : ℕ) → b < 256 → table_entry b ≡ turns poly_reflected 8 b
unfolding table_entry
table_entry-turns b h =
    and_mask 16 (shift_bits 8 b)
    ∙ omega
        (arith, shift_bits-turns 8 b, turns-lt poly_reflected 16 (omega arith) 8 b (omega arith))

get_or-table_from :
    (count first i : ℕ) → i < count → get_or (table_from count first) i 0 ≡ table_entry (first + i)
unfolding table_from
get_or-table_from zero first i h = absurd (omega arith)
get_or-table_from (suc count) first zero h = ap table_entry (omega arith)
get_or-table_from (suc count) first (suc i) h =
    get_or-table_from count (suc first) i (omega arith) ∙ ap table_entry (omega arith)

-- One octet: the table look-up is eight turns of the register.
pub lookup_turns :
    (crc byte : ℕ)
    → IsByte byte
    → bit_xor (crc >>> 8) (get_or table (bit_and (bit_xor crc byte) 0xFF) 0)
      ≡ turns poly_reflected 8 (bit_xor crc byte)
unfolding table
lookup_turns crc byte h =
    let x = bit_xor crc byte in
    let low : x % 256 < 2 ^ 8 = omega arith in
    let high : x / 2 ^ 8 ≡ crc / 2 ^ 8 =
      xor-shift 8 crc byte ∙ ap (bit_xor (crc / 2 ^ 8)) (omega arith) ∙ xor-zero (crc / 2 ^ 8) in
    let split : bit_xor (x / 2 ^ 8 * 2 ^ 8) (x % 256) ≡ x =
      xor_fields 8 (x / 2 ^ 8) (x % 256) low ∙ omega arith in
    let entry : get_or (table_from 256 0) (bit_and x 0xFF) 0 ≡ turns poly_reflected 8 (x % 256) =
      rw (and_mask 8 x) (
        get_or-table_from 256 0 (x % 256) low
        ∙ ap table_entry (omega arith)
        ∙ table_entry-turns (x % 256) low) in
    ap₂ bit_xor (sym high) entry
    ∙ ap (λ t. bit_xor t (turns poly_reflected 8 (x % 256)))
        (sym (turns-shift poly_reflected 8 (x / 2 ^ 8)))
    ∙ sym (turns-xor poly_reflected 8 (x / 2 ^ 8 * 2 ^ 8) (x % 256))
    ∙ ap (turns poly_reflected 8) split

shift_right-turn : (p c : ℕ) → shift_right p c ≡ turn p c
unfolding shift_right
shift_right-turn p c = refl

pub repeat-turns : (p n c : ℕ) → repeat n (shift_right p) c ≡ turns p n c
unfolding repeat turns
repeat-turns p zero c = refl
repeat-turns p (suc n) c =
    ap (repeat n (shift_right p)) (shift_right-turn p c) ∙ repeat-turns p n (turn p c)

-- The register of the table-driven loop is the register of the bitwise loop.
pub fcs_loop-eq-reflected_loop :
    (crc : ℕ) (bytes : List ℕ)
    → IsBytes bytes
    → fcs_loop crc bytes ≡ reflected_loop poly_reflected crc bytes
unfolding fcs_loop reflected_loop
fcs_loop-eq-reflected_loop crc [] h = refl
fcs_loop-eq-reflected_loop crc (byte ∷ bytes) h =
    ap (λ c. fcs_loop c bytes)
      (lookup_turns crc byte h.0 ∙ sym (repeat-turns poly_reflected 8 (bit_xor crc byte)))
    ∙ fcs_loop-eq-reflected_loop (repeat 8 (shift_right poly_reflected) (bit_xor crc byte)) bytes
        h.1

pub reflected_loop-lt :
    (p crc : ℕ) (bytes : List ℕ)
    → p < 2 ^ 16
    → crc < 2 ^ 16
    → IsBytes bytes
    → reflected_loop p crc bytes < 2 ^ 16
unfolding reflected_loop
reflected_loop-lt p crc [] f h k = h
reflected_loop-lt p crc (byte ∷ bytes) f h k =
    reflected_loop-lt p (repeat 8 (shift_right p) (bit_xor crc byte)) bytes f
      (rw (repeat-turns p 8 (bit_xor crc byte))
        (turns-lt p 16 f 8 (bit_xor crc byte) (xor-lt 16 crc byte h (omega arith))))
      k.1

-- The table-driven FCS of any octets is the catalogue's bitwise CRC-16/X-25 of them.
pub fcs-eq-compute : (bytes : List ℕ) → IsBytes bytes → fcs bytes ≡ compute crc16_x25 bytes
unfolding fcs compute reflect reflect_loop differs
fcs-eq-compute bytes h =
    ap (λ c. bit_xor c xorout) (fcs_loop-eq-reflected_loop init_register bytes h)
    ∙ sym (masked (bit_xor (reflected_loop poly_reflected init_register bytes) xorout) fits)
  where
    fits : bit_xor (reflected_loop poly_reflected init_register bytes) xorout < 2 ^ 16
    fits =
        xor-lt 16 (reflected_loop poly_reflected init_register bytes) xorout
          (reflected_loop-lt poly_reflected init_register bytes (omega arith) (omega arith) h)
          (omega arith)

    masked : (x : ℕ) → x < 2 ^ 16 → bit_and x (2 ^ 16 - 1) ≡ x
    masked x k = and_mask 16 x ∙ omega arith
