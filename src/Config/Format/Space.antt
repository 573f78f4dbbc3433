-- ===== src/Config/Format/Space.antt =====
-- The blank at the end of a printed duration.
use Prim.Native.Char.{code}
use Prim.Native.String.{◌++◌ as join}
use Prim.Native.String.append
use logarithm.Prelude.{
  ℕ, ◌+◌, ◌*◌, ◌/◌, ◌%◌, ◌<◌, String, ◌≡◌, refl, ap, ◌∙◌, inl, inr, Bool, true, false, arith, ◌==◌,
  if◌then◌else◌, Bool-cases,
}
use logarithm.Prelude.Int.{pos}
use logarithm.Prelude.Text.{show_ℕ}
use logarithm.Config.Format.{format_duration, part, minute, day, hour}

-- Whether the last character is a blank; of the empty text, as is said.
abbrev pub ends_blank : Bool → String → Bool
ends_blank b String.[] = b
ends_blank b (String.◌∷◌ c s) = ends_blank (code c == 32) s

ends_blank-join :
    (b : Bool) (s t : String) → ends_blank b (join s t) ≡ ends_blank (ends_blank b s) t
ends_blank-join b String.[] t = ap (ends_blank b) (λ i. append.nil t i)
ends_blank-join b (String.◌∷◌ c s) t =
    ap (ends_blank b) (λ i. append.cons c s t i) ∙ ends_blank-join (code c == 32) s t

part_blank :
    (n : ℕ) (unit : String) (b : Bool)
    → ((c : Bool) → ends_blank c unit ≡ true)
    → ends_blank b (part n unit) ≡ (if n == 0 then b else true)
part_blank n unit b h = elim (Bool-cases (n == 0)) [
  | inl zero_ ↦ rw zero_ refl
  | inr more ↦ rw more (ends_blank-join b (show_ℕ n) unit ∙ h (ends_blank b (show_ℕ n)))
]

-- The three parts, where nothing follows them.
parts_blank :
    (d h m : ℕ)
    → 0 < d + h + m
    → ends_blank false (join (part d "d ") (join (part h "h ") (join (part m "min ") ""))) ≡ true
parts_blank d h m some_ =
    ends_blank-join false (part d "d ") (join (part h "h ") (join (part m "min ") ""))
    ∙ ends_blank-join (ends_blank false (part d "d ")) (part h "h ") (join (part m "min ") "")
    ∙ ends_blank-join (ends_blank (ends_blank false (part d "d ")) (part h "h ")) (part m "min ") ""
    ∙ part_blank m "min " (ends_blank (ends_blank false (part d "d ")) (part h "h ")) (λ c. refl)
    ∙ ap (λ b. if m == 0 then b else true)
        (part_blank h "h " (ends_blank false (part d "d ")) (λ c. refl))
    ∙ ap (λ b. if m == 0 then (if h == 0 then b else true) else true)
        (part_blank d "d " false (λ c. refl))
    ∙ ground arith

whole_minutes : (k : ℕ) → k * minute % day % hour % minute ≡ 0
whole_minutes k = omega arith

some_part :
    (k : ℕ)
    → 0 < k
    → 0 < k * minute / day + k * minute % day / hour + k * minute % day % hour / minute
some_part k h = omega arith

-- A duration of whole minutes, if it is not zero, is printed with a blank at its end.
pub format_duration_blank :
    (print_seconds : ℕ → String) (k : ℕ)
    → 0 < k
    → ends_blank false (format_duration print_seconds (pos (k * minute))) ≡ true
unfolding format_duration
format_duration_blank print_seconds k h =
    let positive : (k * minute == 0) ≡ false = ground arith in
    rw (positive, whole_minutes k)
      (parts_blank (k * minute / day) (k * minute % day / hour) (k * minute % day % hour / minute)
        (some_part k h))
