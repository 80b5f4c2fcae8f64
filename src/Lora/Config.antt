-- ===== src/Lora/Config.antt =====
-- native_lora/framing.py: the configuration of a frame. Its integers are natural numbers, and its
-- `LDRO_MAX_DURATION_MS` is compared with the denominator cleared.
use gs_flowgraphs.Base.{ℕ, ◌*◌, Bool, true, false, Option, none, some, ◌&&◌, ◌||◌, not}
use gs_flowgraphs.Base.{Result, ok, value_error, ltb, leb, ◌==◌, if◌then◌else◌, ◌<<<◌}

pub record LoRaPhyConfig : Type 0 where
  pub sf : ℕ
  pub bandwidth : ℕ
  pub explicit_header : Bool
  pub cr : Option ℕ
  pub payload_length : Option ℕ
  pub has_crc : Option Bool
  pub ldro : Option Bool

-- A field that is absent has the first value, else the test decides.
unfoldable pub given {ℓ} : {A : Type ℓ} → Bool → (A → Bool) → Option A → Bool
given absent test none = absent
given absent test (some a) = test a

unfoldable pub within : ℕ → ℕ → ℕ → Bool
within low high value = leb low value && leb value high

-- `__post_init__`: the configuration, if it is accepted.
unfoldable pub checked_config : LoRaPhyConfig → Result LoRaPhyConfig
checked_config config =
    if not (within 5 12 config.sf)
    then value_error
    else if config.bandwidth == 0
    then value_error
    else if config.explicit_header && ltb config.sf 7
    then value_error
    else if not (config.explicit_header || given false (within 1 4) config.cr)
    then value_error
    else if not (config.explicit_header || given false (within 1 255) config.payload_length)
    then value_error
    else if not (config.explicit_header || given false (λ c. true) config.has_crc)
    then value_error
    else if not (given true (within 1 4) config.cr)
    then value_error
    else if not (given true (within 1 255) config.payload_length)
    then value_error
    else ok config

-- Without a setting, whether a symbol lasts more than 16 ms.
unfoldable pub resolved_ldro : LoRaPhyConfig → Bool
resolved_ldro config =
    given (ltb (16 * config.bandwidth) ((1 <<< config.sf) * 1000)) (λ set. set) config.ldro
