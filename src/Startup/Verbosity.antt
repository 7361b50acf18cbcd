-- ===== src/Startup/Verbosity.antt =====
-- The operator's verbosity: `main` of cmd/maroonedpods-operator, where zap's level is an int8.
use maroonedpods.Prelude.{
  ℕ, suc, ◌+◌, ◌-◌, ◌≤◌, String, ◌==◌, ◌≡◌, Bool, false, Result, ok, arith, if◌then◌else◌, ltb, leb,
  ◌&&◌,
}
use Prim.Native.Nat.{◌%◌}
use maroonedpods.Prelude.Int.{ℤ, pos, negsuc, ◌≤?◌}

-- the value of the variable VERBOSITY, if it is not empty
unfoldable pub verbose_of : String → String
verbose_of env = if env == "" then "1" else env

unfoldable pub debug_of : Result ℤ → Bool
debug_of (ok (pos n)) = ltb 1 n
debug_of _ = false

-- the bits of `int8(-1 * level)`
unfoldable pub level_bits : ℤ → ℕ
level_bits (pos n) = (256 - n % 256) % 256
level_bits (negsuc n) = (n + 1) % 256

unfoldable pub signed : ℕ → ℤ
signed bits = if ltb bits 128 then pos bits else negsuc (255 - bits)

-- `zapcore.Level(-1*verbosityLevel)`; `level` is what `Atoi` returns beside an error too
unfoldable pub zap_level : ℤ → ℤ
unfolding level_bits signed
zap_level level = signed (level_bits level)

-- zap writes what is not below its level
unfoldable pub writes_at : ℤ → ℤ → Bool
writes_at configured level = configured ≤? level

-- what zapr documents: a level above 127 is taken as 127, to stay in an int8
unfoldable pub capped : ℕ → ℕ
capped k = if ltb 127 k then 127 else k

-- the level of zap at which zapr logs what is logged at `V(k)`: the negative one
unfoldable pub level_of_v : ℕ → ℤ
unfolding capped
level_of_v k = elim (capped k) [ ℕ.zero ↦ pos 0 | suc n ↦ negsuc n ]

-- For a verbosity up to 255, what is logged at `V(k)` is written exactly if k, or 127 if k is above that,
-- is at most the verbosity, and the verbosity at most 128: above that the level wraps around, and not even
-- what is logged without a `V` is written.
pub zap_level-writes :
    (verbosity k : ℕ)
    → verbosity ≤ 255
    → writes_at (zap_level (pos verbosity)) (level_of_v k)
      ≡ (leb verbosity 128 && leb (capped k) verbosity)
unfolding writes_at zap_level level_of_v
zap_level-writes verbosity k h = ground arith
