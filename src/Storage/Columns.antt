-- ===== src/Storage/Columns.antt =====
-- The column buffers of the ClickHouse client library, which this repository only calls: what the
-- code relies on is the operations below and their laws.
use logarithm.Prelude.{ℕ, ◌+◌, max, ◌≡◌, refl, List, [], ◌∷◌, ◌++◌, length}

pub record ColumnApi : Type 1 where
  pub Col : Type 0 → Type 0
  pub fresh : (A : Type 0) → Col A
  pub append : (A : Type 0) → Col A → A → Col A
  pub reset : (A : Type 0) → Col A → Col A
  -- The buffers of the column replaced by empty ones with room for so many rows.
  pub presize : (A : Type 0) → Col A → ℕ → Col A
  pub rows : (A : Type 0) → Col A → List A
  pub cap : (A : Type 0) → Col A → ℕ
  pub rows-append : (A : Type 0) (c : Col A) (a : A) → rows A (append A c a) ≡ rows A c ++ a ∷ []
  pub rows-reset : (A : Type 0) (c : Col A) → rows A (reset A c) ≡ []
  pub rows-presize : (A : Type 0) (c : Col A) (n : ℕ) → rows A c ≡ [] → rows A (presize A c n) ≡ []
  pub cap-presize : (A : Type 0) (c : Col A) (n : ℕ) → cap A (presize A c n) ≡ n

-- Columns as lists with a capacity meet the laws.
abbrev pub list_columns : ColumnApi
list_columns = record {
  Col = λ A. List A × ℕ;
  fresh = λ A. ([], 0);
  append = λ A c a. (c.0 ++ a ∷ [], max c.1 (length c.0 + 1));
  reset = λ A c. ([], c.1);
  presize = λ A c n. ([], n);
  rows = λ A c. c.0;
  cap = λ A c. c.1;
  rows-append = λ A c a. refl;
  rows-reset = λ A c. refl;
  rows-presize = λ A c n e. refl;
  cap-presize = λ A c n. refl;
}
