-- ===== src/Prelude/Text.antt =====
-- Texts as Go sees them: joined, printed, and as UTF-8 bytes.
use Prim.Native.Char.{code}
use Prim.Native.String.{◌++◌ as join}
use logarithm.Prelude.{
  ℕ, zero, suc, ◌+◌, ◌/◌, ◌%◌, String, ◌≡◌, refl, none, some, List, [], ◌∷◌, ◌++◌, ltb,
  if◌then◌else◌, get_elem?,
}
use logarithm.Prelude.Int.{ℤ, pos, negsuc}

-- `a + b + ...`
abbrev pub concat : List String → String
concat [] = ""
concat (s ∷ []) = s
concat (s ∷ ss) = join s (concat ss)

abbrev pub digit : ℕ → String
digit n =
    elim (get_elem? {A = String} ("0" ∷ "1" ∷ "2" ∷ "3" ∷ "4" ∷ "5" ∷ "6" ∷ "7" ∷ "8" ∷ "9" ∷ [])
      n) [ none ↦ "" | some d ↦ d ]

show_digits : ℕ → ℕ → String
show_digits zero n = ""
show_digits (suc fuel) n =
    let rest = join (show_digits fuel (n / 10)) (digit (n % 10)) in
    if ltb n 10 then digit n else rest

-- `%d`; the number itself is fuel enough, since it is more than its count of digits.
unfoldable pub show_ℕ : ℕ → String
unfolding show_digits
show_ℕ n = show_digits (suc n) n

unfoldable pub show_ℤ : ℤ → String
unfolding show_ℕ
show_ℤ (pos n) = show_ℕ n
show_ℤ (negsuc n) = join "-" (show_ℕ (suc n))

unfoldable pub utf8 : ℕ → List ℕ
utf8 c =
    if ltb c 0x80
    then c ∷ []
    else if ltb c 0x800
    then (0xC0 + c / 64) ∷ (0x80 + c % 64) ∷ []
    else if ltb c 0x10000
    then (0xE0 + c / 4096) ∷ (0x80 + c / 64 % 64) ∷ (0x80 + c % 64) ∷ []
    else (0xF0 + c / 262144) ∷ (0x80 + c / 4096 % 64) ∷ (0x80 + c / 64 % 64) ∷ (0x80 + c % 64) ∷ []

-- `[]byte(s)`, for texts that are valid UTF-8.
unfoldable pub string_bytes : String → List ℕ
unfolding utf8
string_bytes String.[] = []
string_bytes (String.◌∷◌ c s) = utf8 (code c) ++ string_bytes s

shown : (show_ℕ 0 ≡ "0") × (show_ℕ 1207 ≡ "1207")
unfolding show_ℕ
shown = (refl, refl)
