-- ===== src/LoadGenerator/Random/Gives.antt =====
-- Draws that never panic, and what they give.
use logarithm.Prelude.{
  ℕ, zero, suc, ◌+◌, ◌-◌, ◌^◌, ◌≤◌, ◌<◌, String, ◌≡◌, refl, ap, ◌∙◌, Option, none, some, List, [],
  ◌∷◌, arith, length, All,
}
use logarithm.Prelude.Int.{ℤ, pos}
use logarithm.LoadGenerator.Random.{
  Draw, ◌>>=◌, index, add_int, sub_int, Rand, int_n, rand_integer, severity_text_rand_number, drawn,
  continue,
}
use logarithm.Core.Time.{to_int64}

-- From every state the draw gives a value for which `P` holds.
pub record Gives {S A : Type 0} (P : A → Type 0) (d : Draw S A) : Type 0 where
  pub give : (s : S) → (a : A) × (s' : S) × (d s ≡ some (a, s')) × P a

-- From every state the draw panics.
pub record Panics {S A : Type 0} (d : Draw S A) : Type 0 where
  pub never : (s : S) → d s ≡ none

-- `IntN(n)` draws from 0 to n - 1.
pub record IsUniform (r : Rand) : Type 0 where
  pub below_lt : (n : ℕ) (s : r.State) → 0 < n → (r.below n s).0 < n

-- An integer in a range of naturals.
pub data InRange (a b : ℕ) : ℤ → Type 0 where
  in_range : (k : ℕ) → a ≤ k → k ≤ b → InRange a b (pos k)

-- The five texts, each with the least of its four numbers.
pub data Severity : String → ℕ → Type 0 where
  debug : Severity "DEBUG" 5
  info : Severity "INFO" 9
  warning : Severity "WARNING" 13
  error : Severity "ERROR" 17
  fatal : Severity "FATAL" 21

module _ {S : Type 0} where
  pub drawn-Gives : {A : Type 0} (P : A → Type 0) (a : A) → P a → Gives {S = S} P (drawn a)
  drawn-Gives P a h = record { give = λ s. (a, s, refl, h) }

  pub weaken-Gives :
      {A : Type 0} (P Q : A → Type 0) {d : Draw S A} → ((a : A) → P a → Q a) → Gives P d → Gives Q d
  weaken-Gives P Q f h = record { give = λ s. let (a, s', e, p) = h.give s in (a, s', e, f a p) }

  pub chain-Gives :
      {A B : Type 0} (P : A → Type 0) (Q : B → Type 0) (d : Draw S A) (next : A → Draw S B)
      → Gives P d
      → ((a : A) → P a → Gives Q (next a))
      → Gives Q (d >>= next)
  chain-Gives P Q d next h k = record {
    give = λ s.
        let (a, s', e, p) = h.give s in
        let (b, s'', f, q) = (k a p).give s' in (b, s'', ap (λ o. continue o next) e ∙ f, q);
  }

  -- After an integer in a range.
  pub range-Gives :
      {B : Type 0} (a b : ℕ) (Q : B → Type 0) (d : Draw S ℤ) (next : ℤ → Draw S B)
      → Gives (InRange a b) d
      → ((k : ℕ) → a ≤ k → k ≤ b → Gives Q (next (pos k)))
      → Gives Q (d >>= next)
  range-Gives a b Q d next h k = chain-Gives (InRange a b) Q d next h go
    where
      go : (z : ℤ) → InRange a b z → Gives Q (next z)
      go _ (in_range n l m) = k n l m

  pub chain-Panics :
      {A B : Type 0} (d : Draw S A) (next : A → Draw S B) → Panics d → Panics (d >>= next)
  chain-Panics d next h = record { never = λ s. ap (λ o. continue o next) (h.never s) }

  pub then-Panics :
      {A B : Type 0} (d : Draw S A) (next : A → Draw S B)
      → ((a : A) → Panics (next a))
      → Panics (d >>= next)
  then-Panics {A = A} {B = B} d next h = record { never = λ s. go (d s) }
    where
      go : (o : Option (A × S)) → continue o next ≡ none
      go none = refl
      go (some (a, s)) = (h a).never s

  pub index-Gives :
      {A : Type 0} (P : A → Type 0) (xs : List A) (i : ℕ)
      → All P xs
      → i < length xs
      → Gives {S = S} P (index xs i)
  index-Gives P [] i h b = absurd (omega arith)
  index-Gives P (x ∷ xs) zero h b = record { give = λ s. (x, s, refl, h.0) }
  index-Gives P (x ∷ xs) (suc i) h b = record { give = (index-Gives P xs i h.1 (omega arith)).give }

-- The arithmetic of 64 bits does not wrap around below 2 ^ 63.
width :
    (a b : ℕ) → a ≤ b → b + 1 < 2 ^ 63 → add_int (sub_int (pos b) (pos a)) (pos 1) ≡ pos (b - a + 1)
unfolding add_int sub_int to_int64
width a b h k = rw (difference) (ground arith)
  where
    difference : sub_int (pos b) (pos a) ≡ pos (b - a)
    difference = ground arith

offset : (a k : ℕ) → a + k < 2 ^ 63 → add_int (pos k) (pos a) ≡ pos (a + k)
unfolding add_int to_int64
offset a k h = ground arith

module _ (r : Rand) (u : IsUniform r) where
  pub int_n-Gives : (n b : ℕ) → n ≡ b + 1 → Gives (InRange 0 b) (int_n r (pos n))
  unfolding int_n
  int_n-Gives n b e = record {
    give = λ s.
        let drawn_value = r.below n s in
        (
          pos drawn_value.0,
          drawn_value.1,
          ground arith,
          in_range drawn_value.0 (omega arith) (omega (arith, u.below_lt n s (omega arith))),
        );
  }

  pub rand_integer-Gives :
      (a b : ℕ) → a ≤ b → b + 1 < 2 ^ 63 → Gives (InRange a b) (rand_integer r (pos a) (pos b))
  unfolding rand_integer
  rand_integer-Gives a b h k =
      chain-Gives (InRange 0 (b - a)) _ _ _
        (rw (width a b h k) (int_n-Gives (b - a + 1) (b - a) refl)) moved
    where
      moved :
          (z : ℤ)
          → InRange 0 (b - a) z
          → Gives {S = r.State} (InRange a b) (drawn (add_int z (pos a)))
      moved _ (in_range n l m) =
          drawn-Gives _ _
            (rw (offset a n (omega arith)) (in_range (a + n) (omega arith) (omega arith)))

  -- A text of severity, with its number in the range that the text stands for.
  pub severity_text_rand_number-Gives :
      (text : String) (low : ℕ)
      → Severity text low
      → Gives (InRange low (low + 3)) (severity_text_rand_number r text)
  unfolding severity_text_rand_number
  severity_text_rand_number-Gives _ _ debug = rand_integer-Gives 5 8 (omega arith) (omega arith)
  severity_text_rand_number-Gives _ _ info = rand_integer-Gives 9 12 (omega arith) (omega arith)
  severity_text_rand_number-Gives _ _ warning = rand_integer-Gives 13 16 (omega arith) (omega arith)
  severity_text_rand_number-Gives _ _ error = rand_integer-Gives 17 20 (omega arith) (omega arith)
  severity_text_rand_number-Gives _ _ fatal = rand_integer-Gives 21 24 (omega arith) (omega arith)

pub int_n-Panics : (r : Rand) (n : ℕ) → n ≡ 0 → Panics (int_n r (pos n))
unfolding int_n
int_n-Panics r n e = record { never = λ s. ground arith }
