-- ===== src/RatePlan.antt =====
-- _rateplan.py: the plan of the FM receiver's rates. The rate is the integer that the source makes
-- of it; a negative one is refused there as zero is.
use native.Mathlib.Nat.{div-add-mod, div-lt_iff_lt-mul}
use gs_flowgraphs.Base.{ℕ, ◌*◌, ◌/◌, ◌%◌, ◌≤◌, ◌≡◌, max, not, arith, ◌∙◌, sym, ap₂, ◌<◌}
use gs_flowgraphs.Base.{Result, ok, value_error, ◌==◌, if◌then◌else◌}

abbrev pub audio_rate_hz : ℕ
audio_rate_hz = 48000

abbrev pub if_rate_hz : ℕ
if_rate_hz = 192000

pub record Plan : Type 0 where
  pub decim_to_if : ℕ
  pub if_rate : ℕ
  pub audio_decim : ℕ

unfoldable pub fm_rx_plan : ℕ → Result Plan
fm_rx_plan rate =
    let decim_to_if = max 1 (rate / if_rate_hz) in
    let if_rate = rate / decim_to_if in
    let audio_decim = max 1 (if_rate / audio_rate_hz) in
    if rate == 0
    then value_error
    else if not (rate % decim_to_if == 0)
    then value_error
    else if not (if_rate == audio_decim * audio_rate_hz)
    then value_error
    else ok (record { decim_to_if = decim_to_if; if_rate = if_rate; audio_decim = audio_decim })

-- A plan that is returned divides the rate without a remainder down to exactly 48 kHz of audio,
-- through an intermediate rate of less than 384 kHz.
pub fm_rx_plan_exact :
    (rate : ℕ) (p : Plan)
    → fm_rx_plan rate ≡ ok p
    → (rate ≡ p.decim_to_if * p.if_rate)
      × (p.if_rate ≡ p.audio_decim * audio_rate_hz)
      × (1 ≤ p.audio_decim)
      × (p.audio_decim ≤ 7)
unfolding fm_rx_plan
fm_rx_plan_exact rate p h =
    let d = max 1 (rate / if_rate_hz) in
    let even : rate % d ≡ 0 = ground arith in
    let d-eq : p.decim_to_if ≡ d = ground arith in
    let r-eq : p.if_rate ≡ rate / d = ground arith in
    let a-eq : p.audio_decim ≡ max 1 (rate / d / audio_rate_hz) = ground arith in
    let exact : rate / d ≡ p.audio_decim * audio_rate_hz = ground arith in
    let whole : d * (rate / d) ≡ rate = omega (arith, div-add-mod rate d, even) in
    let below : rate / d < 384000 =
      (div-lt_iff_lt-mul {k = d} {x = rate} {y = 384000} (omega arith)).1 (omega arith) in
    (
      sym whole ∙ ap₂ ◌*◌ (sym d-eq) (sym r-eq),
      r-eq ∙ exact,
      omega (arith, a-eq),
      omega (arith, exact, below),
    )
