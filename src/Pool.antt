-- ===== src/Pool.antt =====
-- backend/internal/pool/pool.go: a bounded free list of reusable items, kept in a Go channel.
-- The channel is the list `items`, oldest first, with its capacity `size`.
pub mod Bounds
use logarithm.Prelude.{
  ℕ, ◌≡◌, Bool, true, false, not, Option, none, some, List, [], ◌∷◌, ◌++◌, ltb, length,
  if◌then◌else◌,
}

pub record Pool {ℓ} (A : Type ℓ) : Type ℓ where
  pub items : List A
  pub size : ℕ
  pub new_func : Unit {0} → A
  -- A Go function value, which may be nil.
  pub reuse_func : Option (A → Bool)

module _ {ℓ} {A : Type ℓ} where
  -- `Option[T]`: a change to a pool that is being built.
  unfoldable pub with_reuse_check : (A → Bool) → Pool A → Pool A
  with_reuse_check f p = record p { reuse_func = some f }

  unfoldable pub apply_options : List (Pool A → Pool A) → Pool A → Pool A
  apply_options [] p = p
  apply_options (opt ∷ opts) p = apply_options opts (opt p)

  unfoldable pub new : ℕ → (Unit {0} → A) → List (Pool A → Pool A) → Pool A
  unfolding apply_options
  new size new_func opts =
      apply_options opts
        (record { items = []; size = size; new_func = new_func; reuse_func = some (λ _. true) })

  -- The `select` takes an item if the channel holds one, and otherwise makes a new one.
  unfoldable pub get : Pool A → A × Pool A
  get p = elim p.items [ [] ↦ (p.new_func tt, p) | item ∷ rest ↦ (item, record p { items = rest }) ]

  abbrev pub is_reusable : Option (A → Bool) → A → Bool
  is_reusable none item = true
  is_reusable (some f) item = f item

  -- The pool after the call, and whether it kept the item.
  unfoldable pub put : Pool A → A → Pool A × Bool
  put p item =
      if not (is_reusable p.reuse_func item)
      then (p, false)
      else if ltb (length p.items) p.size
      then (record p { items = p.items ++ item ∷ [] }, true)
      else (p, false)
