-- ===== src/LoadGenerator/Files/Free.antt =====
-- A free name is always found: there are more names to try than files in the folder.
use Prim.Native.String.{◌++◌ as join}
use text.Mathlib.TextLemmas.{append_cancel_left, append_cancel_right, append-nil}
use logarithm.Prelude.{
  Bytes, Bool, true, not, ◌&&◌, ◌||◌, leb, str_eq, ℕ, zero, suc, ◌+◌, ◌≤◌, ◌<◌, String, ◌≡◌, refl,
  sym, ap, subst, ◌∙◌, ◌≢◌, ◌⊎◌, inl, inr, false, List, [], ◌∷◌, ◌++◌, Memᴰ, arith, ◌==◌,
  if◌then◌else◌, length, length-append, All, ok,
}
use logarithm.Prelude.Text.{string_bytes}
use logarithm.LoadGenerator.{System, file_exists, found, not_exist}
use logarithm.LoadGenerator.Files.{
  Names, name_at, try_names, generate_file_name, num_files_in_folder,
}

-- No two of the names are the same.
abbrev Distinct : List String → Type 0
Distinct [] = Unit
Distinct (w ∷ ws) = All (λ v. v ≢ w) ws × Distinct ws

record Split (w : String) (xs : List String) : Type 0 where
  before : List String
  after : List String
  parts : xs ≡ before ++ w ∷ after

Memᴰ-Split : (w : String) (xs : List String) → Memᴰ w xs → Split w xs
Memᴰ-Split w [] m = elim m [ ]
Memᴰ-Split w (x ∷ xs) (Memᴰ.head e) = record {
  before = [];
  after = xs;
  parts = ap (λ y. y ∷ xs) (sym e);
}
Memᴰ-Split w (x ∷ xs) (Memᴰ.tail m) =
    let s = Memᴰ-Split w xs m in
    record { before = x ∷ s.before; after = s.after; parts = ap (λ l. x ∷ l) s.parts }

Memᴰ-remove :
    (v w : String) (before after : List String)
    → v ≢ w
    → Memᴰ v (before ++ w ∷ after)
    → Memᴰ v (before ++ after)
Memᴰ-remove v w [] after n (Memᴰ.head e) = absurd (n e)
Memᴰ-remove v w [] after n (Memᴰ.tail m) = m
Memᴰ-remove v w (x ∷ before) after n (Memᴰ.head e) = Memᴰ.head e
Memᴰ-remove v w (x ∷ before) after n (Memᴰ.tail m) = Memᴰ.tail (Memᴰ-remove v w before after n m)

-- Distinct members are no more than there are.
Distinct-length :
    (ws xs : List String) → Distinct ws → All (λ w. Memᴰ w xs) ws → length ws ≤ length xs
Distinct-length [] xs d all = omega arith
Distinct-length (w ∷ ws) xs (others, d) (member, all) =
    let s = Memᴰ-Split w xs member in
    let rest = s.before ++ s.after in
    omega (
      arith,
      Distinct-length ws rest d (kept s.before s.after s.parts ws others all),
      ap length s.parts,
      length-append s.before (w ∷ s.after),
      length-append s.before s.after,
    )
  where
    kept :
        (before after : List String)
        → xs ≡ before ++ w ∷ after
        → (vs : List String) → All (λ v. v ≢ w) vs
        → All (λ v. Memᴰ v xs) vs
        → All (λ v. Memᴰ v (before ++ after)) vs
    kept before after e [] n m = tt
    kept before after e (v ∷ vs) n m =
        (Memᴰ-remove v w before after n.0 (subst (Memᴰ v) e m.0), kept before after e vs n.1 m.1)

-- A decimal number is a text that is not empty, and another one for another number.
pub record IsDecimal (ns : Names) : Type 0 where
  pub written : (n : ℕ) → ns.itoa n ≢ ""
  pub injective : (n k : ℕ) → ns.itoa n ≡ ns.itoa k → n ≡ k

abbrev no_separator : Bytes → Bool
no_separator [] = true
no_separator (b ∷ bs) = not (b == 0 || b == 47) && no_separator bs

-- What the name of a file in a folder can be: some text of at most 255 bytes, without a slash or a zero
-- byte, which is not a name that every folder has for itself or for its parent.
unfoldable pub is_file_name : String → Bool
is_file_name name =
    not (str_eq name "" || (str_eq name "." || str_eq name ".."))
    && (leb (length (string_bytes name)) 255 && no_separator (string_bytes name))

-- At the names that a file can have, `Lstat` finds the files that the folder lists, and no others.
pub record IsFolder (sys : System) (ns : Names) (path : String) (names : List String) : Type 0 where
  pub lists : ns.read_dir path ≡ ok names
  pub finds :
      (name : String)
      → is_file_name name ≡ true
      → ((sys.lstat (sys.join_path path name) ≡ found) × Memᴰ name names)
        ⊎ ((sys.lstat (sys.join_path path name) ≡ not_exist) × (Memᴰ name names → ⊥))

module _ (sys : System) (ns : Names) (decimal : IsDecimal ns) (path : String) (names : List String)
    (folder : IsFolder sys ns path names) (base ext : String) where
  abbrev numbered : ℕ → String
  numbered suffix = if suffix == 0 then base else join base (ns.itoa suffix)

  unnumbered_differs : (n : ℕ) → join base (ns.itoa n) ≢ base
  unnumbered_differs n e =
      decimal.written n (append_cancel_left base (ns.itoa n) "" (e ∙ sym (append-nil base)))

  numbered-suc : (n : ℕ) → numbered (suc n) ≡ join base (ns.itoa (suc n))
  numbered-suc n = let e : (suc n == 0) ≡ false = ground arith in rw e

  numbered_injective : (n k : ℕ) → numbered n ≡ numbered k → n ≡ k
  numbered_injective zero zero e = refl
  numbered_injective zero (suc k) e =
      absurd (unnumbered_differs (suc k) (sym (numbered-suc k) ∙ sym e))
  numbered_injective (suc n) zero e = absurd (unnumbered_differs (suc n) (sym (numbered-suc n) ∙ e))
  numbered_injective (suc n) (suc k) e = decimal.injective (suc n) (suc k) (
      append_cancel_left base (ns.itoa (suc n)) (ns.itoa (suc k))
        (sym (numbered-suc n) ∙ e ∙ numbered-suc k))

  name_at_injective : (n k : ℕ) → name_at sys ns base ext n ≡ name_at sys ns base ext k → n ≡ k
  name_at_injective n k e =
      numbered_injective n k (append_cancel_right (numbered n) (numbered k) ext e)

  -- The names that the loop tries.
  abbrev tried : ℕ → ℕ → List String
  tried zero suffix = []
  tried (suc left) suffix = name_at sys ns base ext suffix ∷ tried left (suffix + 1)

  tried-Distinct : (left suffix : ℕ) → Distinct (tried left suffix)
  tried-Distinct zero suffix = tt
  tried-Distinct (suc left) suffix =
      (later left (suffix + 1) (omega arith), tried-Distinct left (suffix + 1))
    where
      later : (k i : ℕ) → suffix < i → All (λ v. v ≢ name_at sys ns base ext suffix) (tried k i)
      later zero i h = tt
      later (suc k) i h =
          (λ e. absurd (omega (arith, name_at_injective i suffix e)), later k (i + 1) (omega arith))

  length-tried : (left suffix : ℕ) → length (tried left suffix) ≡ left
  length-tried zero suffix = refl
  length-tried (suc left) suffix = ap suc (length-tried left (suffix + 1))

  -- What the loop returns: the first free name, if one is free.
  pub record IsFirstFree (suffix : ℕ) (name : String) : Type 0 where
    pub skipped : ℕ
    pub numbered_so : name ≡ name_at sys ns base ext (suffix + skipped)
    pub free : Memᴰ name names → ⊥
    pub taken : All (λ w. Memᴰ w names) (tried skipped suffix)

  try_names-cases :
      (left suffix : ℕ)
      → ((i : ℕ) → i < suffix + left → is_file_name (name_at sys ns base ext i) ≡ true)
      → ((name : String) × (try_names sys ns path base ext left suffix ≡ ok name)
          × IsFirstFree suffix name)
        ⊎ All (λ w. Memᴰ w names) (tried left suffix)
  unfolding try_names file_exists
  try_names-cases zero suffix fine = inr tt
  try_names-cases (suc left) suffix fine =
      elim (folder.finds (name_at sys ns base ext suffix) (fine suffix (omega arith))) [
        | inr (q, none_there) ↦ inl (
          name_at sys ns base ext suffix,
          rw (try_names, file_exists, q),
          record {
            skipped = 0;
            numbered_so = ap (name_at sys ns base ext) (omega arith);
            free = none_there;
            taken = tt;
          },
        )
        | inl (q, there) ↦ elim (try_names-cases left (suffix + 1) (λ i h. fine i (omega arith))) [
          | inr all ↦ inr (there, all)
          | inl (name, r, first) ↦ inl (
            name,
            rw (try_names, file_exists, q) r,
            record {
              skipped = suc first.skipped;
              numbered_so = first.numbered_so ∙ ap (name_at sys ns base ext) (omega arith);
              free = first.free;
              taken = (there, first.taken);
            },
          )
        ]
      ]

  try_names-found :
      (n : ℕ)
      → length names ≡ n
      → ((i : ℕ) → i < suc n → is_file_name (name_at sys ns base ext i) ≡ true)
      → (name : String) × (try_names sys ns path base ext (suc n) 0 ≡ ok name) × IsFirstFree 0 name
  try_names-found n e fine = elim (try_names-cases (suc n) 0 (λ i h. fine i (omega arith))) [
    | inl found_one ↦ found_one
    | inr all ↦ absurd (
        omega (
          arith,
          e,
          length-tried (suc n) 0,
          Distinct-length (tried (suc n) 0) names (tried-Distinct (suc n) 0) all,
        ))
  ]

-- In a folder whose files `Lstat` finds, and no others, with decimal numbers that are texts of their own,
-- and where the texts that may have to be tried can be names of files, one more than there are files: a
-- name is found, there is no such file, and there are files of all names that were tried before it, with
-- the lower numbers. The error that no valid name was found does not come up.
pub generate_file_name-IsFirstFree :
    (sys : System) (ns : Names) (decimal : IsDecimal ns) (path filename : String)
    (names : List String) (folder : IsFolder sys ns path names)
    → ((i : ℕ)
        → i < suc (length names)
        → is_file_name (
            name_at sys ns
              (ns.trim_suffix filename (ns.extension filename))
              (ns.extension filename)
              i)
          ≡ true)
    → (name : String) × (generate_file_name sys ns path filename ≡ ok name)
      × IsFirstFree sys ns decimal path names folder
          (ns.trim_suffix filename (ns.extension filename))
          (ns.extension filename)
          0
          name
unfolding generate_file_name num_files_in_folder
generate_file_name-IsFirstFree sys ns decimal path filename names folder fine =
    let ext = ns.extension filename in
    let (name, e, first) =
      try_names-found sys ns decimal path names folder (ns.trim_suffix filename ext) ext
        (length names) refl fine in
    (name, rw (generate_file_name, num_files_in_folder, folder.lists) e, first)
