-- ===== src/Dashboard/Stream/Reader.antt =====
-- A client of the event stream, and what it makes of one event.
use logarithm.Prelude.{
  ℕ, zero, suc, take, sym, subst, ◌<◌, String, ◌≡◌, refl, ap, ◌∙◌, inl, inr, Bool, true, not, ◌&&◌,
  Option, none, some, List, [], ◌∷◌, ◌++◌, arith, ◌==◌, if◌then◌else◌, Bool-cases, length, Bytes,
}
use mathlib.Core.List.{append_assoc, append-nil}
use logarithm.Prelude.Text.{string_bytes}
use logarithm.Dashboard.Stream.{event_frame}

-- A reader of the event-stream format, for the two fields that the events have: the line that has begun,
-- the fields of the event that has begun, and the events.
pub record Reader : Type 0 where
  pub line : Bytes
  pub name : Bytes
  pub payload : Bytes
  pub events : List (Bytes × Bytes)

abbrev pub new_reader : List (Bytes × Bytes) → Reader
new_reader events = record { line = []; name = []; payload = []; events = events }

-- What follows a prefix.
abbrev pub strip : Bytes → Bytes → Option Bytes
strip [] bs = some bs
strip (p ∷ ps) [] = none
strip (p ∷ ps) (b ∷ bs) = if p == b then strip ps bs else none

abbrev pub read_line : Bytes → Reader → Reader
read_line [] r =
    if length r.payload == 0
    then new_reader r.events
    else new_reader (r.events ++ (r.name, r.payload) ∷ [])
read_line (b ∷ bs) r = elim (strip (string_bytes "event: ") (b ∷ bs)) [
  | some name ↦ record r { line = []; name = name }
  | none ↦ elim (strip (string_bytes "data: ") (b ∷ bs)) [
    | some payload ↦ record r { line = []; payload = r.payload ++ payload }
    | none ↦ record r { line = [] }
  ]
]

-- A byte ends the line or goes on with it.
abbrev pub read_all : Reader → Bytes → Reader
read_all r [] = r
read_all r (b ∷ bs) =
    read_all (if b == 10 then read_line r.line r else record r { line = r.line ++ b ∷ [] }) bs

abbrev pub one_line : Bytes → Bool
one_line [] = true
one_line (b ∷ bs) = not (b == 10) && one_line bs

read_all-line :
    (xs : Bytes) (r : Reader) (rest : Bytes)
    → one_line xs ≡ true
    → read_all r (xs ++ 10 ∷ rest)
      ≡ read_all (read_line (r.line ++ xs) (record r { line = r.line ++ xs })) rest
read_all-line [] r rest h = rw (append-nil r.line) refl
read_all-line (x ∷ xs) r rest h = elim (Bool-cases (x == 10)) [
  | inl newline ↦ absurd (ground (arith, newline))
  | inr other ↦
      ap
        (λ b.
          read_all (if b then read_line r.line r else record r { line = r.line ++ x ∷ [] })
            (xs ++ 10 ∷ rest))
        other
      ∙ read_all-line xs (record r { line = r.line ++ x ∷ [] }) rest (ground (arith, other))
      ∙ ap (λ l. read_all (read_line l (record r { line = l })) rest)
          (append_assoc r.line (x ∷ []) xs)
]

one_line-append :
    (xs ys : Bytes) → one_line xs ≡ true → one_line ys ≡ true → one_line (xs ++ ys) ≡ true
one_line-append [] ys h k = k
one_line-append (x ∷ xs) ys h k = ground (arith, one_line-append xs ys)

-- An event with its payload is read as one more event, where neither has a line break.
pub read_all-event_frame :
    (event : String) (payload rest : Bytes) (events : List (Bytes × Bytes))
    → one_line (string_bytes event) ≡ true
    → one_line payload ≡ true
    → 0 < length payload
    → read_all (new_reader events) (event_frame event payload ++ rest)
      ≡ read_all (new_reader (events ++ (string_bytes event, payload) ∷ [])) rest
unfolding string_bytes
read_all-event_frame event payload rest events h k l =
    ap (read_all (new_reader events)) lines
    ∙ read_all-line name_line (new_reader events) (data_line ++ 10 ∷ 10 ∷ rest)
        (one_line-append (string_bytes "event: ") (string_bytes event) refl h)
    ∙ read_all-line data_line (record (new_reader events) { name = string_bytes event }) (10 ∷ rest)
        (one_line-append (string_bytes "data: ") payload refl k)
    ∙ ap (λ r. read_all r rest) (dispatched payload l)
  where
    name_line : Bytes
    name_line = string_bytes "event: " ++ string_bytes event

    data_line : Bytes
    data_line = string_bytes "data: " ++ payload

    lines : event_frame event payload ++ rest ≡ name_line ++ 10 ∷ (data_line ++ 10 ∷ 10 ∷ rest)
    lines = simp append_assoc refl

    dispatched :
        (bs : Bytes)
        → 0 < length bs
        → (if length bs == 0
            then new_reader events
            else new_reader (events ++ (string_bytes event, bs) ∷ []))
          ≡ new_reader (events ++ (string_bytes event, bs) ∷ [])
    dispatched [] p = absurd (omega arith)
    dispatched (b ∷ bs) p = ground arith

pub read_all-append :
    (xs : Bytes) (r : Reader) (ys : Bytes) → read_all r (xs ++ ys) ≡ read_all (read_all r xs) ys
read_all-append [] r ys = refl
read_all-append (x ∷ xs) r ys = read_all-append xs _ ys

-- Some of a line and of what follows it, where what follows adds no event.
read_all-part :
    (xs : Bytes) (r : Reader) (rest : Bytes) (n : ℕ) (events : List (Bytes × Bytes))
    → one_line xs ≡ true
    → r.events ≡ events
    → ((m : ℕ)
        → m < length rest
        → (read_all
            (read_line (r.line ++ xs) (record r { line = r.line ++ xs }))
            (take m rest)).events
          ≡ events)
    → n < length (xs ++ 10 ∷ rest)
    → (read_all r (take n (xs ++ 10 ∷ rest))).events ≡ events
read_all-part xs r rest zero events h e k l = e
read_all-part [] r rest (suc n) events h e k l =
    ap (λ line. (read_all (read_line line (record r { line = line })) (take n rest)).events)
      (sym (append-nil r.line))
    ∙ k n (omega arith)
read_all-part (x ∷ xs) r rest (suc n) events h e k l = elim (Bool-cases (x == 10)) [
  | inl newline ↦ absurd (ground (arith, newline))
  | inr other ↦
      ap
        (λ b.
          (read_all (if b then read_line r.line r else record r { line = r.line ++ x ∷ [] })
            (take n (xs ++ 10 ∷ rest))).events)
        other
      ∙ read_all-part xs (record r { line = r.line ++ x ∷ [] }) rest n events
          (ground (arith, other)) e
          (λ m q.
            ap (λ line. (read_all (read_line line (record r { line = line })) (take m rest)).events)
              (append_assoc r.line (x ∷ []) xs)
            ∙ k m q)
          (omega arith)
]

-- Less than the whole of an event's frame adds no event.
pub read_all-event_frame_part :
    (event : String) (payload : Bytes) (n : ℕ) (events : List (Bytes × Bytes))
    → one_line (string_bytes event) ≡ true
    → one_line payload ≡ true
    → n < length (event_frame event payload)
    → (read_all (new_reader events) (take n (event_frame event payload))).events ≡ events
unfolding string_bytes
read_all-event_frame_part event payload n events h k l =
    ap (λ b. (read_all (new_reader events) (take n b)).events) lines
    ∙ read_all-part name_line (new_reader events) (data_line ++ 10 ∷ 10 ∷ []) n events
        (one_line-append (string_bytes "event: ") (string_bytes event) refl h) refl
        (λ m q.
          read_all-part data_line (record (new_reader events) { name = string_bytes event })
            (10 ∷ []) m events (one_line-append (string_bytes "data: ") payload refl k) refl
            (λ i small. last i small) q)
        (subst (λ b. n < length b) lines l)
  where
    name_line : Bytes
    name_line = string_bytes "event: " ++ string_bytes event

    data_line : Bytes
    data_line = string_bytes "data: " ++ payload

    lines : event_frame event payload ≡ name_line ++ 10 ∷ (data_line ++ 10 ∷ 10 ∷ [])
    lines = simp append_assoc refl

    last :
        (i : ℕ)
        → i < 1
        → (read_all
            (record (new_reader events) { name = string_bytes event; payload = payload })
            (take i (10 ∷ []))).events
          ≡ events
    last zero small = refl
    last (suc i) small = absurd (omega arith)
