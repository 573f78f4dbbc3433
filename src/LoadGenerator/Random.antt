-- ===== src/LoadGenerator/Random.antt =====
-- load_generator/generator/generator.go: numbers and texts at random. A draw takes the state of the
-- `rand.Rand`, and is `none` where the code panics.
pub mod Gives
pub mod Words
use logarithm.Prelude.{
  ℕ, zero, suc, ◌+◌, ◌-◌, ◌%◌, ◌^◌, String, Option, none, some, List, [], ◌∷◌, str_eq, ◌==◌,
  if◌then◌else◌, length, get_elem?,
}
use logarithm.Prelude.Int.{ℤ, pos, pos_part, neg_part, ltb_ℤ}
use logarithm.Prelude.Text.{concat}
use logarithm.Core.Time.{to_int64}

abbrev pub Draw : Type 0 → Type 0 → Type 0
Draw S A = S → Option (A × S)

abbrev pub continue : {S B A : Type 0} → Option (A × S) → (A → Draw S B) → Option (B × S)
continue none next = none
continue (some (a, s)) next = next a s

infixl 5 ◌>>=◌
abbrev pub ◌>>=◌ : {S B A : Type 0} → Draw S A → (A → Draw S B) → Draw S B
◌>>=◌ d next s = continue (d s) next

abbrev pub drawn : {S A : Type 0} → A → Draw S A
drawn a s = some (a, s)

abbrev pub panic : {S A : Type 0} → Draw S A
panic s = none

-- An indexing, which panics out of range.
abbrev pub index : {S A : Type 0} → List A → ℕ → Draw S A
index xs i s = elim (get_elem? xs i) [ none ↦ none | some x ↦ some (x, s) ]

-- Go's `a + b` and `a - b` on 64-bit integers.
abbrev pub wrap_int : ℕ → ℕ → ℤ
wrap_int plus minus = to_int64 ((plus % 2 ^ 64 + (2 ^ 64 - minus % 2 ^ 64)) % 2 ^ 64)

unfoldable pub add_int : ℤ → ℤ → ℤ
unfolding to_int64
add_int a b = wrap_int (pos_part a + pos_part b) (neg_part a + neg_part b)

unfoldable pub sub_int : ℤ → ℤ → ℤ
unfolding to_int64
sub_int a b = wrap_int (pos_part a + neg_part b) (neg_part a + pos_part b)

-- A `rand.Rand`: `below n` is what `IntN(n)` draws for a positive `n`.
pub record Rand : Type 1 where
  pub State : Type 0
  pub below : ℕ → State → ℕ × State
  pub uint64 : State → ℕ × State

module _ (r : Rand) where
  -- `IntN`, which panics unless its argument is positive.
  unfoldable pub int_n : ℤ → Draw r.State ℤ
  int_n n s =
      if ltb_ℤ (pos 0) n then (let (k, s') = r.below (pos_part n) s in some (pos k, s')) else none

  unfoldable pub rand_integer : ℤ → ℤ → Draw r.State ℤ
  unfolding int_n add_int sub_int
  rand_integer min_int max_int = do
    k ← int_n (add_int (sub_int max_int min_int) (pos 1))
    drawn (add_int k min_int)

  unfoldable pub severity_text_rand_number : String → Draw r.State ℤ
  unfolding rand_integer
  severity_text_rand_number text =
      if str_eq text "DEBUG"
      then rand_integer (pos 5) (pos 8)
      else if str_eq text "INFO"
      then rand_integer (pos 9) (pos 12)
      else if str_eq text "WARNING"
      then rand_integer (pos 13) (pos 16)
      else if str_eq text "ERROR"
      then rand_integer (pos 17) (pos 20)
      else if str_eq text "FATAL"
      then rand_integer (pos 21) (pos 24)
      else drawn (pos 0)

  -- The loop with so many rounds left: a word, and a blank unless the word is the last one.
  unfoldable pub random_words : List String → ℕ → Draw r.State String
  unfolding rand_integer
  random_words dictionary zero = drawn ""
  random_words dictionary (suc left) = do
    idx ← rand_integer (pos 0) (sub_int (pos (length dictionary)) (pos 1))
    word ← index dictionary (pos_part idx)
    rest ← random_words dictionary left
    drawn (concat (word ∷ (if left == 0 then "" else " ") ∷ rest ∷ []))

  unfoldable pub randomised_body : List String → ℤ → ℤ → Draw r.State String
  unfolding random_words
  randomised_body [] min_int max_int = drawn ""
  randomised_body (d ∷ dictionary) min_int max_int = do
    count ← rand_integer min_int max_int
    random_words (d ∷ dictionary) (pos_part count)
