-- ===== src/Worker/Split.antt =====
-- backend/internal/worker/worker.go: how a batch of messages is divided among the workers.
pub mod Cover
use logarithm.Prelude.{ℕ, zero, suc, ◌+◌, ◌/◌, ◌%◌, List, [], ◌∷◌, ltb, if◌then◌else◌}
use logarithm.Prelude.Int.{ℤ, pos, negsuc, pos_part, min_ℤ, leb_ℤ}

-- [start, end)
pub record Interval : Type 0 where
  pub start : ℕ
  pub end : ℕ

-- The `for` loop: `k` rounds are left, of which this is round `i`.
unfoldable pub split_loop : ℕ → ℕ → ℕ → ℕ → ℕ → List Interval
split_loop zero i start base remainder = []
split_loop (suc k) i start base remainder =
    let size = if ltb i remainder then base + 1 else base in
    record { start = start; end = start + size }
    ∷ split_loop k (i + 1) (start + size) base remainder

unfoldable pub split_messages : ℕ → ℤ → List Interval
unfolding split_loop
split_messages num_messages num_workers =
    let workers = min_ℤ (pos num_messages) num_workers in
    if leb_ℤ workers (pos 0)
    then []
    else split_loop (pos_part workers) 0 0 (num_messages / pos_part workers)
        (num_messages % pos_part workers)
