-- ===== src/Config/Format.antt =====
-- backend/internal/config/format.go, and `Public` of config.go with the parts of it that are printed.
pub mod Space
use Prim.Native.String.{◌++◌ as join}
use logarithm.Prelude.{
  ℕ, zero, ◌/◌, ◌%◌, min, String, not, List, [], ◌∷◌, ◌++◌, ◌==◌, if◌then◌else◌,
}
use logarithm.Prelude.Int.{ℤ, pos, negsuc}
use logarithm.Prelude.Text.{concat, show_ℕ}
use logarithm.Core.Time.{Duration}

-- Nanoseconds.
abbrev pub minute : ℕ
minute = 60_000_000_000

abbrev pub hour : ℕ
hour = 3_600_000_000_000

abbrev pub day : ℕ
day = 86_400_000_000_000

abbrev pub part : ℕ → String → String
part n unit = if n == 0 then "" else join (show_ℕ n) unit

-- `%g` of a number of seconds that is not whole, given in nanoseconds, is a parameter.
module _ (print_seconds : ℕ → String) where
  abbrev pub seconds_part : ℕ → String
  seconds_part rest =
      if rest == 0
      then ""
      else if rest % 1_000_000_000 == 0
      then join (show_ℕ (rest / 1_000_000_000)) "s"
      else join (print_seconds rest) "s"

  -- Nothing is written for a negative duration, since Go's division goes towards zero.
  unfoldable pub format_duration : Duration → String
  format_duration (negsuc n) = ""
  format_duration (pos d) =
      if d == 0
      then "0s"
      else concat (
          part (d / day) "d "
          ∷ part (d % day / hour) "h "
          ∷ part (d % day % hour / minute) "min "
          ∷ seconds_part (d % day % hour % minute)
          ∷ [])

  -- `strings.Join(parts, ", ")`
  unfoldable pub format_backoff : List Duration → String
  unfolding format_duration
  format_backoff [] = ""
  format_backoff (d ∷ []) = format_duration d
  format_backoff (d ∷ ds) = join (format_duration d) (join ", " (format_backoff ds))
