-- ===== src/Worker/Split/Cover.antt =====
-- The intervals of `split_messages` cover the batch, once each, and evenly.
use native.Mathlib.Nat.{div-add-mod, mod-lt}
use logarithm.Prelude.{
  ℕ, zero, suc, ◌+◌, ◌-◌, ◌*◌, ◌/◌, ◌%◌, ◌≤◌, ◌<◌, min, ◌≡◌, refl, ap, subst, ◌∙◌, inl, inr, List,
  [], ◌∷◌, ◌++◌, arith, ltb, if◌then◌else◌, ltb→lt, Bool-cases, length, take, drop, drop-drop,
  take-append-take, take_all,
}
use logarithm.Prelude.Int.{pos}
use logarithm.Worker.Split.{Interval, split_loop, split_messages}

-- The intervals follow one another from `lo` to `hi`, with no gap and no overlap.
abbrev pub Tiles : ℕ → List Interval → ℕ → Type 0
Tiles lo [] hi = lo ≡ hi
Tiles lo (iv ∷ ivs) hi = (iv.start ≡ lo) × (lo ≤ iv.end) × Tiles iv.end ivs hi

split_loop-Tiles :
    (k i start base remainder : ℕ)
    → remainder ≤ i + k
    → Tiles start (split_loop k i start base remainder) (start + k * base + (remainder - i))
unfolding split_loop
split_loop-Tiles zero i start base remainder h = omega arith
split_loop-Tiles (suc k) i start base remainder h = elim (Bool-cases (ltb i remainder)) [
  | inl e ↦ rw e (
    refl,
    omega arith,
    subst (Tiles (start + (base + 1)) _) (omega (arith, ltb→lt i remainder e))
        (split_loop-Tiles k (i + 1) (start + (base + 1)) base remainder (omega arith)),
  )
  | inr e ↦ rw e (
    refl,
    omega arith,
    subst (Tiles (start + base) _) (ground arith)
        (split_loop-Tiles k (i + 1) (start + base) base remainder (omega arith)),
  )
]

-- Each size is the base or one more, and all the larger ones come first.
abbrev pub Even : ℕ → ℕ → List Interval → Type 0
Even base larger [] = larger ≡ 0
Even base larger (iv ∷ ivs) =
    (iv.end ≡ iv.start + base + (if ltb 0 larger then 1 else 0)) × Even base (larger - 1) ivs

split_loop-Even :
    (k i start base remainder : ℕ)
    → remainder ≤ i + k
    → Even base (remainder - i) (split_loop k i start base remainder)
unfolding split_loop
split_loop-Even zero i start base remainder h = omega arith
split_loop-Even (suc k) i start base remainder h =
    (ground arith, rw (← later) (split_loop-Even k (i + 1) next base remainder (omega arith)))
  where
    next : ℕ
    next = start + (if ltb i remainder then base + 1 else base)

    later : remainder - (i + 1) ≡ remainder - i - 1
    later = omega arith

length-split_loop :
    (k i start base remainder : ℕ) → length (split_loop k i start base remainder) ≡ k
unfolding split_loop
length-split_loop zero i start base remainder = refl
length-split_loop (suc k) i start base remainder = ap suc (
    length-split_loop k (i + 1) (start + (if ltb i remainder then base + 1 else base)) base
      remainder)

-- What the call comes to for a batch and workers that are not empty.
split_messages_lem :
    (m w : ℕ)
    → 0 < m
    → 0 < w
    → split_messages m (pos w) ≡ split_loop (min m w) 0 0 (m / min m w) (m % min m w)
unfolding split_messages
split_messages_lem m w h k = ground arith

div-pos : (m n : ℕ) → 0 < n → n ≤ m → 0 < m / n
div-pos m n h k = go (m / n) (div-add-mod m n)
  where
    go : (q : ℕ) → n * q + m % n ≡ m → 0 < q
    go zero e = absurd (omega (arith, mod-lt m {m = n} h))
    go (suc q) e = omega arith

split_loop_full :
    (m n : ℕ)
    → 0 < n
    → n ≤ m
    → Tiles 0 (split_loop n 0 0 (m / n) (m % n)) m
      × (0 < m / n)
      × Even (m / n) (m % n) (split_loop n 0 0 (m / n) (m % n))
split_loop_full m n h k = (
  subst (Tiles 0 (split_loop n 0 0 (m / n) (m % n))) total
      (split_loop-Tiles n 0 0 (m / n) (m % n) (omega (arith, mod-lt m {m = n} h))),
  div-pos m n h k,
  subst (λ r. Even (m / n) r (split_loop n 0 0 (m / n) (m % n))) none_done
      (split_loop-Even n 0 0 (m / n) (m % n) (omega (arith, mod-lt m {m = n} h))),
)
  where
    total : 0 + n * (m / n) + (m % n - 0) ≡ m
    total = omega (arith, div-add-mod m n)

    none_done : m % n - 0 ≡ m % n
    none_done = omega arith

-- With at least one message and one worker, the intervals run from 0 to the number of messages
-- without gap or overlap.
pub split_messages-Tiles : (m w : ℕ) → 0 < m → 0 < w → Tiles 0 (split_messages m (pos w)) m
split_messages-Tiles m w h k =
    rw (split_messages_lem m w h k) (split_loop_full m (min m w) (omega arith) (omega arith)).0

-- With at least one message and one worker, there is one interval for each worker, or for each message
-- if they are fewer; none is empty, and their sizes differ by at most one, the larger ones first.
pub split_messages-Even :
    (m w : ℕ)
    → 0 < m
    → 0 < w
    → (length (split_messages m (pos w)) ≡ min m w)
      × (0 < m / min m w)
      × Even (m / min m w) (m % min m w) (split_messages m (pos w))
split_messages-Even m w h k =
    let full = split_loop_full m (min m w) (omega arith) (omega arith) in
    rw (split_messages_lem m w h k)
      (length-split_loop (min m w) 0 0 (m / min m w) (m % min m w), full.1, full.2)

-- The messages of one interval, `messages[iv.start:iv.end]`.
abbrev pub slice {ℓ} : {A : Type ℓ} → List A → Interval → List A
slice messages iv = take (iv.end - iv.start) (drop iv.start messages)

abbrev pub slices {ℓ} : {A : Type ℓ} → List A → List Interval → List A
slices messages [] = []
slices messages (iv ∷ ivs) = slice messages iv ++ slices messages ivs

Tiles-le : (lo : ℕ) (ivs : List Interval) (hi : ℕ) → Tiles lo ivs hi → lo ≤ hi
Tiles-le lo [] hi t = omega arith
Tiles-le lo (iv ∷ ivs) hi t = omega (arith, Tiles-le iv.end ivs hi t.2)

slices-Tiles {ℓ} :
    {A : Type ℓ} (messages : List A) (lo : ℕ) (ivs : List Interval) (hi : ℕ)
    → Tiles lo ivs hi
    → slices messages ivs ≡ take (hi - lo) (drop lo messages)
slices-Tiles messages lo [] hi t = rw none_left
  where
    none_left : hi - lo ≡ 0
    none_left = omega arith
slices-Tiles messages lo (iv ∷ ivs) hi t =
    rw (t.0, slices-Tiles messages iv.end ivs hi t.2)
      (rw (← next) (
        take-append-take (iv.end - lo) (hi - iv.end) (drop lo messages)
        ∙ ap (λ n. take n (drop lo messages)) total))
  where
    there : lo + (iv.end - lo) ≡ iv.end
    there = omega (arith, t.1)

    next : drop (iv.end - lo) (drop lo messages) ≡ drop iv.end messages
    next = drop-drop lo (iv.end - lo) messages ∙ ap (λ n. drop n messages) there

    total : iv.end - lo + (hi - iv.end) ≡ hi - lo
    total = omega (arith, t.1, Tiles-le iv.end ivs hi t.2)

-- With at least one message and one worker, the workers' shares, one after the other, are the batch:
-- each message goes to one worker, once.
pub slices-split_messages {ℓ} :
    {A : Type ℓ} (messages : List A) (w : ℕ)
    → 0 < length messages
    → 0 < w
    → slices messages (split_messages (length messages) (pos w)) ≡ messages
slices-split_messages messages w h k =
    slices-Tiles messages 0 (split_messages (length messages) (pos w)) (length messages)
      (split_messages-Tiles (length messages) w h k)
    ∙ subst (λ n. take n messages ≡ messages) whole (take_all messages)
  where
    whole : length messages ≡ length messages - 0
    whole = omega arith
