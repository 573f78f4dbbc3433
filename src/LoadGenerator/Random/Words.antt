-- ===== src/LoadGenerator/Random/Words.antt =====
-- The bodies of the log records: words of the dictionary, with blanks between them.
use logarithm.Prelude.{
  ℕ, zero, suc, ◌+◌, ◌^◌, ◌≤◌, ◌<◌, String, ◌≡◌, refl, ap, false, List, [], ◌∷◌, Memᴰ, arith, ◌==◌,
  if◌then◌else◌, length, All, All-map,
}
use text.Mathlib.TextLemmas.{append-nil}
use logarithm.Prelude.Text.{concat}
use logarithm.Prelude.Int.{pos}
use logarithm.LoadGenerator.Random.{sub_int, Rand, random_words, randomised_body, rand_integer}
use logarithm.LoadGenerator.Random.Gives.{
  Gives, chain-Gives, drawn-Gives, index-Gives, rand_integer-Gives, IsUniform, weaken-Gives,
  range-Gives,
}
use logarithm.Core.Time.{to_int64}

-- Words with a blank between any two.
abbrev pub unwords : List String → String
unwords [] = ""
unwords (w ∷ []) = w
unwords (w ∷ ws) = concat (w ∷ " " ∷ unwords ws ∷ [])

-- A text of so many words of the dictionary.
pub record Sentence (dictionary : List String) (n : ℕ) (text : String) : Type 0 where
  pub words : List String
  pub count : length words ≡ n
  pub known : All (λ w. Memᴰ w dictionary) words
  pub joined : text ≡ unwords words

pub members {ℓ} : {A : Type ℓ} (xs : List A) → All (λ w. Memᴰ w xs) xs
members [] = tt
members (x ∷ xs) = (Memᴰ.head refl, All-map _ _ (λ w m. Memᴰ.tail m) xs (members xs))

-- One more word in front.
cons-Sentence :
    (dictionary : List String) (n : ℕ) (w rest : String)
    → Memᴰ w dictionary
    → Sentence dictionary n rest
    → Sentence dictionary (suc n) (concat (w ∷ (if n == 0 then "" else " ") ∷ rest ∷ []))
cons-Sentence dictionary n w rest m s = go n s.words s.count s.known s.joined
  where
    go :
        (k : ℕ) (ws : List String)
        → length ws ≡ k
        → All (λ w. Memᴰ w dictionary) ws
        → rest ≡ unwords ws
        → Sentence dictionary (suc k) (concat (w ∷ (if k == 0 then "" else " ") ∷ rest ∷ []))
    go zero [] c h e = record {
      words = w ∷ [];
      count = refl;
      known = (m, tt);
      joined = rw (e, append-nil w) refl;
    }
    go (suc k) [] c h e = absurd (omega (arith, c))
    go zero (x ∷ ws) c h e = absurd (omega (arith, c))
    go (suc k) (x ∷ ws) c h e =
        let separated : (suc k == 0) ≡ false = ground arith in
        record {
          words = w ∷ x ∷ ws;
          count = ap suc c;
          known = (m, h);
          joined = rw separated (ap (λ l. concat (w ∷ " " ∷ l ∷ [])) e);
        }

last_index : (size : ℕ) → size + 2 < 2 ^ 63 → sub_int (pos (suc size)) (pos 1) ≡ pos size
unfolding sub_int to_int64
last_index size k = ground arith

module _ (r : Rand) (u : IsUniform r) (first : String) (others : List String)
    (small : length others + 2 < 2 ^ 63) where
  abbrev dictionary : List String
  dictionary = first ∷ others

  next_word-Gives :
      (n : ℕ)
      → Gives (Sentence dictionary n) (random_words r dictionary n)
      → Gives (Sentence dictionary (suc n)) (random_words r dictionary (suc n))
  unfolding random_words
  next_word-Gives n ih =
      range-Gives 0 (length others) _
        (rand_integer r (pos 0) (sub_int (pos (suc (length others))) (pos 1))) _
        (rw (last_index (length others) small)
          (rand_integer-Gives r u 0 (length others) (omega arith) (omega arith)))
        λ k l b.
          chain-Gives (λ w. Memᴰ w dictionary) _ _ _
            (index-Gives (λ w. Memᴰ w dictionary) dictionary k (members dictionary) (omega arith))
            λ w m.
              chain-Gives (Sentence dictionary n) _ _ _ ih
                λ rest s. drawn-Gives _ _ (cons-Sentence dictionary n w rest m s)

  random_words-Gives : (n : ℕ) → Gives (Sentence dictionary n) (random_words r dictionary n)
  unfolding random_words
  random_words-Gives zero =
      drawn-Gives _ _ (record { words = []; count = refl; known = tt; joined = refl })
  random_words-Gives (suc n) = next_word-Gives n (random_words-Gives n)

-- A text that is empty for want of words, or a sentence of so many words.
pub data Body (dictionary : List String) (a b : ℕ) (text : String) : Type 0 where
  no_body : dictionary ≡ [] → text ≡ "" → Body dictionary a b text
  sentence : (n : ℕ) → a ≤ n → n ≤ b → Sentence dictionary n text → Body dictionary a b text

pub randomised_body-Gives :
    (r : Rand) (u : IsUniform r) (dictionary : List String)
    → length dictionary + 1 < 2 ^ 63
    → (a b : ℕ) → a ≤ b
    → b + 1 < 2 ^ 63
    → Gives (Body dictionary a b) (randomised_body r dictionary (pos a) (pos b))
unfolding randomised_body
randomised_body-Gives r u [] small a b h k = drawn-Gives _ _ (no_body refl refl)
randomised_body-Gives r u (d ∷ ds) small a b h k =
    range-Gives a b _ _ _ (rand_integer-Gives r u a b h k) λ n l m.
      weaken-Gives _ _ (λ text s. sentence n l m s) (random_words-Gives r u d ds (omega arith) n)
