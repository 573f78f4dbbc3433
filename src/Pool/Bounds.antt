-- ===== src/Pool/Bounds.antt =====
-- The bound and the reuse check of the pool, over any calls.
use logarithm.Prelude.{
  ℕ, zero, suc, ◌≤◌, ◌≡◌, refl, ap, inl, inr, true, ◌&&◌, List, [], ◌∷◌, ◌++◌, arith, ltb,
  if◌then◌else◌, ltb→lt, Bool-cases, length, length-append, All, All-snoc,
}
use mathlib.Core.List.{append-nil}
use logarithm.Pool.{Pool, get, put, is_reusable}

-- The channel never holds more than its capacity, nor an item that the reuse check refuses.
pub record IsValid {ℓ} {A : Type ℓ} (p : Pool A) : Type ℓ where
  pub bounded : length p.items ≤ p.size
  pub reusable : All (λ a. is_reusable p.reuse_func a ≡ true) p.items

pub data Call {ℓ} (A : Type ℓ) : Type ℓ where
  gets : Call A
  puts : A → Call A

module _ {ℓ} {A : Type ℓ} where
  unfoldable pub step : Pool A → Call A → Pool A
  step p gets = (get p).1
  step p (puts item) = (put p item).0

  unfoldable pub run : Pool A → List (Call A) → Pool A
  run p [] = p
  run p (c ∷ cs) = run (step p c) cs

  pub get-IsValid : (p : Pool A) → IsValid p → IsValid (get p).1
  unfolding get
  get-IsValid p v = go p.items v.bounded v.reusable
    where
      go :
          (items : List A)
          → length items ≤ p.size
          → All (λ a. is_reusable p.reuse_func a ≡ true) items
          → IsValid (get (record p { items = items })).1
      go [] b r = record { bounded = b; reusable = r }
      go (x ∷ xs) b r = record { bounded = omega arith; reusable = r.1 }

  pub put-IsValid : (p : Pool A) (item : A) → IsValid p → IsValid (put p item).0
  unfolding put
  put-IsValid p item v = elim (Bool-cases (is_reusable p.reuse_func item)) [
    | inr bad ↦ rw bad v
    | inl good ↦ elim (Bool-cases (ltb (length p.items) p.size)) [
      | inr full ↦ rw (good, full) v
      | inl room ↦
          rw (good, room)
            (record {
              bounded =
                  omega
                    (arith, length-append p.items (item ∷ []), ltb→lt (length p.items) p.size room);
              reusable = All-snoc _ good p.items v.reusable;
            })
    ]
  ]

  step-IsValid : (p : Pool A) (c : Call A) → IsValid p → IsValid (step p c)
  unfolding step
  step-IsValid p gets v = get-IsValid p v
  step-IsValid p (puts item) v = put-IsValid p item v

  -- From a pool that holds at most its size in items that the reuse check accepts, every sequence
  -- of Get and Put calls leads to such a pool again.
  pub run-IsValid : (p : Pool A) (cs : List (Call A)) → IsValid p → IsValid (run p cs)
  unfolding run
  run-IsValid p [] v = v
  run-IsValid p (c ∷ cs) v = run-IsValid (step p c) cs (step-IsValid p c v)

  -- So many items taken one after the other, the first one first.
  abbrev pub gets_items : ℕ → Pool A → List A
  gets_items zero p = []
  gets_items (suc n) p = let (item, p') = get p in item ∷ gets_items n p'

  gets_items-all :
      (p : Pool A) (items : List A) → gets_items (length items) (record p { items = items }) ≡ items
  unfolding get
  gets_items-all p [] = refl
  gets_items-all p (x ∷ xs) = ap (λ l. x ∷ l) (gets_items-all p xs)

  -- Where the channel has room and the reuse check accepts the item, a Put keeps it: the Gets after it
  -- hand out the items that were there, oldest first, and then this one. Otherwise they hand out only
  -- the items that were there.
  pub put_fifo :
      (p : Pool A) (item : A)
      → let kept = is_reusable p.reuse_func item && ltb (length p.items) p.size in
        let after = (put p item).0 in
        (gets_items (length after.items) after ≡ p.items ++ (if kept then item ∷ [] else []))
        × ((put p item).1 ≡ kept)
  unfolding put
  put_fifo p item = elim (Bool-cases (is_reusable p.reuse_func item)) [
    | inr bad ↦ rw (bad, append-nil p.items) (gets_items-all p p.items, refl)
    | inl good ↦ elim (Bool-cases (ltb (length p.items) p.size)) [
      | inr full ↦ rw (good, full, append-nil p.items) (gets_items-all p p.items, refl)
      | inl room ↦ rw (good, room) (gets_items-all p (p.items ++ item ∷ []), refl)
    ]
  ]
