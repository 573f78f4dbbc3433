-- ===== src/Tests/Files.antt =====
-- A folder with the results of one run.
use Prim.Native.String.{◌++◌ as join}
use logarithm.Prelude.{
  ◌<◌, ℕ, zero, suc, String, ◌≡◌, refl, sym, ap, ◌≢◌, ◌⊎◌, inl, inr, true, false, List, [], ◌∷◌,
  Memᴰ, arith, str_eq, eq_iff, if◌then◌else◌, Bool-cases, ok,
}
use text.Mathlib.TextLemmas.{append_cancel_left, append-ne-nil_of_right_ne-nil}
use logarithm.Prelude.Text.{string_bytes}
use logarithm.LoadGenerator.{System, found, not_exist}
use logarithm.LoadGenerator.Files.{generate_file_name, Names, name_at}
use logarithm.LoadGenerator.Files.Free.{
  is_file_name, IsDecimal, IsFolder, IsFirstFree, generate_file_name-IsFirstFree,
}

abbrev present : List String
present = "results.bin" ∷ []

abbrev system : System
system = record {
  getwd = ok "/root";
  join_path = λ a b. b;
  lstat = λ path. if str_eq path "results.bin" then found else not_exist;
  read_file = λ path. ok [];
  lower = λ s. s;
}

-- A stroke for each unit.
strokes : ℕ → String
strokes zero = "|"
strokes (suc n) = join "|" (strokes n)

abbrev stroke : String
stroke = "|"

stroke-ne-empty : stroke ≢ ""
stroke-ne-empty e = let q : false ≡ true = ap (λ s. str_eq s "") e in ground arith

strokes-ne-empty : (n : ℕ) → strokes n ≢ ""
unfolding strokes
strokes-ne-empty zero = stroke-ne-empty
strokes-ne-empty (suc n) = append-ne-nil_of_right_ne-nil "|" (strokes-ne-empty n)

strokes_injective : (n k : ℕ) → strokes n ≡ strokes k → n ≡ k
unfolding strokes
strokes_injective zero zero e = refl
strokes_injective zero (suc k) e =
    absurd (strokes-ne-empty k (append_cancel_left "|" (strokes k) "" (sym e)))
strokes_injective (suc n) zero e =
    absurd (strokes-ne-empty n (append_cancel_left "|" (strokes n) "" e))
strokes_injective (suc n) (suc k) e =
    ap suc (strokes_injective n k (append_cancel_left "|" (strokes n) (strokes k) e))

abbrev names : Names
names = record {
  extension = λ s. ".bin";
  trim_suffix = λ s suffix. "results";
  itoa = strokes;
  read_dir = λ path. ok present;
}

strokes-IsDecimal : IsDecimal names
strokes-IsDecimal = record { written = strokes-ne-empty; injective = strokes_injective }

present-IsFolder : IsFolder system names "out" present
present-IsFolder = record { lists = refl; finds = look }
  where
    look :
        (name : String)
        → is_file_name name ≡ true
        → ((system.lstat name ≡ found) × Memᴰ name present)
          ⊎ ((system.lstat name ≡ not_exist) × (Memᴰ name present → ⊥))
    look name fine = elim (Bool-cases (str_eq name "results.bin")) [
      | inl q ↦ inl (rw q, Memᴰ.head (ground (arith, eq_iff name "results.bin")))
      | inr q ↦ inr (rw q, λ m. absent m q)
    ]
      where
        absent : Memᴰ name present → str_eq name "results.bin" ≡ false → ⊥
        absent (Memᴰ.head e) q = absurd (ground (arith, eq_iff name "results.bin"))
        absent (Memᴰ.tail m) q = elim m [ ]

tried_fine : (i : ℕ) → i < 2 → is_file_name (name_at system names "results" ".bin" i) ≡ true
unfolding is_file_name string_bytes strokes
tried_fine zero h = refl
tried_fine (suc zero) h = refl
tried_fine (suc (suc i)) h = absurd (omega arith)

generate_file_name-IsFirstFree_example :
    (name : String) × (generate_file_name system names "out" "results.bin" ≡ ok name)
    × IsFirstFree system names strokes-IsDecimal "out" present present-IsFolder "results" ".bin" 0
        name
generate_file_name-IsFirstFree_example =
    generate_file_name-IsFirstFree system names strokes-IsDecimal "out" "results.bin" present
      present-IsFolder tried_fine
