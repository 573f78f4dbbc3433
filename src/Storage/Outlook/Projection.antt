-- ===== src/Storage/Outlook/Projection.antt =====
-- The projection is in range wherever no sum wraps.
use native.Mathlib.Nat.{div-add-mod}
use logarithm.Prelude.{
  ℕ, zero, suc, ◌+◌, ◌-◌, ◌*◌, ◌/◌, ◌%◌, ◌^◌, ◌≤◌, ◌<◌, ◌≡◌, refl, ap, true, ◌++◌, leb,
  if◌then◌else◌, length-append, sym, subst, ◌∙◌, inl, inr, List, [], ◌∷◌, arith, ltb, ltb→lt,
  Bool-cases, length, take, length-take,
}
use logarithm.Storage.Outlook.{sum_u64, usable, get_logs_storage_outlook}

abbrev pub sum : List ℕ → ℕ
sum [] = 0
sum (b ∷ bs) = b + sum bs

sum_u64-sum :
    (total : ℕ) (bs : List ℕ) → total + sum bs < 2 ^ 64 → sum_u64 total bs ≡ total + sum bs
unfolding sum_u64
sum_u64-sum total [] h = omega arith
sum_u64-sum total (b ∷ bs) h =
    subst (λ t. sum_u64 t bs ≡ total + (b + sum bs)) (sym fits)
      (sum_u64-sum (total + b) bs (omega arith) ∙ omega arith)
  where
    fits : (total + b) % 2 ^ 64 ≡ total + b
    fits = omega arith

sum-take-le : (n : ℕ) (bs : List ℕ) → sum (take n bs) ≤ sum bs
sum-take-le zero bs = omega arith
sum-take-le (suc n) [] = omega arith
sum-take-le (suc n) (b ∷ bs) = omega (arith, sum-take-le n bs)

div-le : (s n : ℕ) → 0 < n → s / n ≤ s
div-le s zero h = absurd (omega arith)
div-le s (suc n) h = omega (arith, div-add-mod s (suc n))

sum-usable-le : (bs : List ℕ) → sum (usable bs) ≤ sum bs
sum-usable-le bs = elim (Bool-cases (ltb 1 (length bs))) [
  | inl more ↦ rw more (sum-take-le (length bs - 1) bs)
  | inr one ↦ rw one (omega arith)
]

take-length : (xs ys : List ℕ) → take (length xs) (xs ++ ys) ≡ xs
take-length [] ys = refl
take-length (x ∷ xs) ys = ap (λ l. x ∷ l) (take-length xs ys)

length-usable : (bs : List ℕ) → 0 < length bs → 0 < length (usable bs)
length-usable bs h = elim (Bool-cases (ltb 1 (length bs))) [
  | inl more ↦ rw more (omega (arith, length-take (length bs - 1) bs, ltb→lt 1 (length bs) more))
  | inr one ↦ rw one h
]

usable-append : (b : ℕ) (bs : List ℕ) (today : ℕ) → usable ((b ∷ bs) ++ today ∷ []) ≡ b ∷ bs
usable-append b bs today =
    let e = length-append (b ∷ bs) (today ∷ []) in
    let more : ltb 1 (length ((b ∷ bs) ++ today ∷ [])) ≡ true = ground (arith, e) in
    let n : length ((b ∷ bs) ++ today ∷ []) - 1 ≡ length (b ∷ bs) = omega (arith, e) in
    rw (more, n, take-length (b ∷ bs) (today ∷ []))

-- What a full day brings in, rounded down: the average of the days before today, or today where it is
-- the first.
abbrev pub daily : List ℕ → ℕ → ℕ
daily [] today = today
daily (b ∷ bs) today = sum (b ∷ bs) / length (b ∷ bs)

daily-usable :
    (earlier : List ℕ) (today : ℕ)
    → sum (usable (earlier ++ today ∷ [])) / length (usable (earlier ++ today ∷ []))
      ≡ daily earlier today
daily-usable [] today = omega (arith, div-add-mod (today + 0) 1)
daily-usable (b ∷ bs) today = ap (λ l. sum l / length l) (usable-append b bs today)

sum-append : (xs : List ℕ) (today : ℕ) → sum (xs ++ today ∷ []) ≡ sum xs + today
sum-append [] today = omega arith
sum-append (x ∷ xs) today = omega (arith, sum-append xs today)

-- With the sizes of the partitions of some earlier days and of today, whose sum is less than
-- 2 ^ 64 / 30, nothing wraps: the total is the sum. From 30 days on it is also the projection, and the
-- state is steady; with fewer the projection is thirty times what a full day brings in, which is the
-- average of the earlier days, rounded down, or today's size where there is no earlier day.
pub get_logs_storage_outlook_lem :
    (earlier : List ℕ) (today : ℕ)
    → 30 * (sum earlier + today) < 2 ^ 64
    → get_logs_storage_outlook (earlier ++ today ∷ []) ≡ record {
      current_total_bytes = sum earlier + today;
      projected_steady_state_bytes =
          if leb 29 (length earlier) then sum earlier + today else daily earlier today * 30;
      is_steady_state = leb 29 (length earlier);
      days_of_history = length earlier + 1;
    }
unfolding get_logs_storage_outlook
get_logs_storage_outlook_lem earlier today fits = ground (
  arith,
  length-append earlier (today ∷ []),
  sum-append earlier today,
  sum_u64-sum 0 partitions (omega (arith, sum-append earlier today)),
  sum_u64-sum 0 (usable partitions)
      (omega (arith, sum-usable-le partitions, sum-append earlier today)),
  daily-usable earlier today,
  small,
)
  where
    partitions : List ℕ
    partitions = earlier ++ today ∷ []

    small :
        sum (usable partitions) / length (usable partitions) * 30 % 2 ^ 64
        ≡ sum (usable partitions) / length (usable partitions) * 30
    small = omega (
      arith,
      div-le (sum (usable partitions)) (length (usable partitions))
          (length-usable partitions (omega (arith, length-append earlier (today ∷ [])))),
      sum-usable-le partitions,
      sum-append earlier today,
    )
