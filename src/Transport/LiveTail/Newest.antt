-- ===== src/Transport/LiveTail/Newest.antt =====
-- The channel of the live tail holds the newest messages, and its callback never waits.
use logarithm.Prelude.{
  ℕ, zero, suc, ◌-◌, ◌≤◌, ◌<◌, ◌≡◌, refl, false, List, [], ◌∷◌, ◌++◌, arith, length, drop, ◌+◌,
  Bool-cases, ap, length-drop, sym, ltb, length-append, ◌∙◌, drop-drop, inl, ltb→lt, inr, Bytes,
}
use mathlib.Core.List.{append-nil, append_assoc}
use logarithm.Transport.LiveTail.{Tail, deliver, deliver_all, cleanup, sent, panicked}

-- The last `n` of a list.
abbrev pub newest {ℓ} : {A : Type ℓ} → ℕ → List A → List A
newest n xs = drop (length xs - n) xs

abbrev pub IsLive : Tail → Type 0
IsLive t =
    (t.done ≡ false) × (t.closed ≡ false) × (0 < t.max_batch) × (length t.channel ≤ t.max_batch)

drop-append {ℓ} :
    {A : Type ℓ} (n : ℕ) (xs ys : List A) → n ≤ length xs → drop n (xs ++ ys) ≡ drop n xs ++ ys
drop-append zero xs ys h = refl
drop-append (suc n) [] ys h = absurd (omega arith)
drop-append (suc n) (x ∷ xs) ys h = drop-append n xs ys (omega arith)

length-snoc : (xs : List Bytes) (x : Bytes) → length (xs ++ x ∷ []) ≡ length xs + 1
length-snoc xs x = omega (arith, length-append xs (x ∷ []))

newest_room :
    (n : ℕ) (xs : List Bytes) (x : Bytes) → length xs < n → newest n (xs ++ x ∷ []) ≡ xs ++ x ∷ []
newest_room n xs x h = ap (λ d. drop d (xs ++ x ∷ [])) all_fit
  where
    all_fit : length (xs ++ x ∷ []) - n ≡ 0
    all_fit = omega (arith, length-snoc xs x)

newest_full :
    (n : ℕ) (xs : List Bytes) (x : Bytes)
    → 0 < n
    → length xs ≡ n
    → newest n (xs ++ x ∷ []) ≡ drop 1 xs ++ x ∷ []
newest_full n xs x h e =
    ap (λ d. drop d (xs ++ x ∷ [])) one_over ∙ drop-append 1 xs (x ∷ []) (omega arith)
  where
    one_over : length (xs ++ x ∷ []) - n ≡ 1
    one_over = omega (arith, length-snoc xs x)

-- One message on a live tail: it is sent, and the channel holds the newest messages.
deliver-newest :
    (t : Tail) (item : Bytes)
    → IsLive t
    → deliver t item ≡ sent (record t { channel = newest t.max_batch (t.channel ++ item ∷ []) })
unfolding deliver
deliver-newest t item h = elim (Bool-cases (ltb (length t.channel) t.max_batch)) [
  | inl room ↦
      rw (newest_room t.max_batch t.channel item (ltb→lt (length t.channel) _ room)) (ground arith)
  | inr full ↦
      rw (newest_full t.max_batch t.channel item h.2 (ground arith))
        (ground (arith, length-drop 1 t.channel))
]

newest-newest {ℓ} :
    {A : Type ℓ} (n : ℕ) (xs ys : List A) → newest n (newest n xs ++ ys) ≡ newest n (xs ++ ys)
newest-newest n xs ys =
    ap (newest n) (sym (drop-append d xs ys (omega arith)))
    ∙ drop-drop d (length (drop d (xs ++ ys)) - n) (xs ++ ys)
    ∙ ap (λ k. drop k (xs ++ ys)) together
  where
    d : ℕ
    d = length xs - n

    together : d + (length (drop d (xs ++ ys)) - n) ≡ length (xs ++ ys) - n
    together = omega (arith, length-drop d (xs ++ ys), length-append xs ys)

length-newest {ℓ} : {A : Type ℓ} (n : ℕ) (xs : List A) → length (newest n xs) ≤ n
length-newest n xs = omega (arith, length-drop (length xs - n) xs)

-- On a live tail with a positive capacity that is not exceeded, any number of messages with no read
-- between them go through without waiting, and leave in the channel the newest of what it held and
-- of the messages, in their order, as many as the capacity allows.
pub deliver_all-newest :
    (t : Tail) (items : List Bytes)
    → IsLive t
    → deliver_all t items ≡ sent (record t { channel = newest t.max_batch (t.channel ++ items) })
unfolding deliver_all
deliver_all-newest t [] h = ap (λ c. sent (record t { channel = c })) (sym unchanged)
  where
    none_over : length (t.channel ++ []) - t.max_batch ≡ 0
    none_over = omega (arith, length-append t.channel [], h.3)

    unchanged : newest t.max_batch (t.channel ++ []) ≡ t.channel
    unchanged = ap (λ d. drop d (t.channel ++ [])) none_over ∙ append-nil t.channel
deliver_all-newest t (item ∷ items) h =
    rw (deliver-newest t item h, deliver_all)
      (deliver_all-newest t' items (h.0, h.1, h.2, length-newest t.max_batch _)
        ∙ ap (λ c. sent (record t { channel = c })) again)
  where
    t' : Tail
    t' = record t { channel = newest t.max_batch (t.channel ++ item ∷ []) }

    again :
        newest t.max_batch (t'.channel ++ items) ≡ newest t.max_batch (t.channel ++ item ∷ items)
    again =
        newest-newest t.max_batch (t.channel ++ item ∷ []) items
        ∙ ap (newest t.max_batch) (append_assoc t.channel (item ∷ []) items)

-- A message that reaches the callback after the caller's cleanup, while the context lives, panics:
-- the cleanup has closed the channel that the callback sends on.
pub deliver-cleanup_panics :
    (t : Tail) (item : Bytes) → t.done ≡ false → deliver (cleanup t) item ≡ panicked
unfolding deliver cleanup
deliver-cleanup_panics t item h = ground arith
