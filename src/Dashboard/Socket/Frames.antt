-- ===== src/Dashboard/Socket/Frames.antt =====
-- What a client of the live tail reads from the frames.
use logarithm.Prelude.{
  ℕ, zero, suc, String, ◌≡◌, refl, sym, ap, subst, ◌∙◌, Bool, true, false, Option, none, some, List,
  [], ◌∷◌, ◌++◌, map, ◌==◌, length, All, Result, ◌>>=◌, ok, if◌then◌else◌, Bytes,
}
use mathlib.Core.List.{append_assoc, append-nil, map-append}
use logarithm.Core.Msgp.{Msgp}
use logarithm.Core.Logs.{FlatLogRecord}
use logarithm.Core.Encoding.{marshal_msg, unmarshal_msg}
use logarithm.Core.Encoding.Fields.{IsEncodable}
use logarithm.Core.Encoding.RoundTrip.{unmarshal_msg-marshal_msg}
use logarithm.Dashboard.Socket.{
  Socket, on_payload, on_tick, Tailing, opened, payload, tick, stopped,
}

abbrev pub join_all {ℓ} : {A : Type ℓ} → List (List A) → List A
join_all [] = []
join_all (xs ∷ xss) = xs ++ join_all xss

join_all-snoc {ℓ} :
    {A : Type ℓ} (xss : List (List A)) (xs : List A)
    → join_all (xss ++ xs ∷ []) ≡ join_all xss ++ xs
join_all-snoc [] xs = append-nil xs
join_all-snoc (ys ∷ xss) xs =
    ap (λ l. ys ++ l) (join_all-snoc xss xs) ∙ sym (append_assoc ys (join_all xss) xs)

module _ {ℓ} {A : Type ℓ} (enc : A → Bytes) where
  -- Several values one after the other.
  abbrev pub encoded : List A → Bytes
  encoded [] = []
  encoded (a ∷ as_) = enc a ++ encoded as_

  encoded-append : (xs ys : List A) → encoded (xs ++ ys) ≡ encoded xs ++ encoded ys
  encoded-append [] ys = refl
  encoded-append (x ∷ xs) ys =
      ap (λ l. enc x ++ l) (encoded-append xs ys)
      ∙ sym (append_assoc (enc x) (encoded xs) (encoded ys))

  -- The values in groups, one for each frame, and those that wait for the next tick.
  pub record Grouped (as_ : List A) (s : Socket) : Type ℓ where
    pub groups : List (List A)
    pub waiting : List A
    pub all : join_all groups ++ waiting ≡ as_
    pub frames : s.frames ≡ map encoded groups
    pub batch : s.batch ≡ encoded waiting

  on_tick-Grouped :
      (as_ : List A) (s : Socket) (failure : Option String)
      → Grouped as_ s
      → Grouped as_ (on_tick failure s).0
  unfolding on_tick
  on_tick-Grouped as_ s failure g = go (length s.batch == 0) failure
    where
      written : Grouped as_ (record { batch = []; frames = s.frames ++ s.batch ∷ [] })
      written = record {
        groups = g.groups ++ g.waiting ∷ [];
        waiting = [];
        all = append-nil _ ∙ join_all-snoc g.groups g.waiting ∙ g.all;
        frames =
            (λ i. g.frames i ++ g.batch i ∷ [])
            ∙ sym (map-append encoded g.groups (g.waiting ∷ []));
        batch = refl;
      }

      go :
          (nothing : Bool) (failure : Option String)
          → Grouped as_
              (if◌then◌else◌ {A = Socket × Bool} nothing
                (s, true)
                (elim failure [
                  | some e ↦ (s, false)
                  | none ↦ (record { batch = []; frames = s.frames ++ s.batch ∷ [] }, true)
                ])).0
      go true failure = g
      go false (some e) = g
      go false none = written

  pub Tailing-Grouped :
      {as_ : List A} {s : Socket} {open_ : Bool} → Tailing enc as_ s open_ → Grouped as_ s
  unfolding on_payload
  Tailing-Grouped opened = record {
    groups = [];
    waiting = [];
    all = refl;
    frames = refl;
    batch = refl;
  }
  Tailing-Grouped (payload a t) =
      let g = Tailing-Grouped t in
      record {
        groups = g.groups;
        waiting = g.waiting ++ a ∷ [];
        all =
            sym (append_assoc (join_all g.groups) g.waiting (a ∷ [])) ∙ ap (λ l. l ++ a ∷ []) g.all;
        frames = g.frames;
        batch =
            ap (λ b. b ++ enc a) g.batch
            ∙ sym (
                encoded-append g.waiting (a ∷ [])
                ∙ ap (λ l. encoded g.waiting ++ l) (append-nil (enc a)));
      }
  Tailing-Grouped (tick {as_ = as_} {s = s} failure t) =
      on_tick-Grouped as_ s failure (Tailing-Grouped t)
  Tailing-Grouped (stopped t) = Tailing-Grouped t

All-append {ℓ κ} :
    {A : Type ℓ} (P : A → Type κ) (xs ys : List A) → All P (xs ++ ys) → All P xs × All P ys
All-append P [] ys h = (tt, h)
All-append P (x ∷ xs) ys (h, hs) = let ih = All-append P xs ys hs in ((h, ih.0), ih.1)

All-join {ℓ κ} :
    {A : Type ℓ} (P : A → Type κ) (xss : List (List A)) → All P (join_all xss) → All (All P) xss
All-join P [] h = tt
All-join P (xs ∷ xss) h = let p = All-append P xs (join_all xss) h in (p.0, All-join P xss p.1)

module _ (m : Msgp) where
  -- So many rows, read one after the other.
  abbrev pub read_rows : FlatLogRecord → ℕ → Bytes → Result (List FlatLogRecord × Bytes)
  read_rows old zero bts = ok ([], bts)
  read_rows old (suc n) bts = do
    (z, bts) ← unmarshal_msg m old bts
    (zs, bts) ← read_rows old n bts
    ok (z ∷ zs, bts)

  abbrev pub encode_row : FlatLogRecord → Bytes
  encode_row z = marshal_msg m z []

  read_rows-encoded :
      (old : FlatLogRecord) (zs : List FlatLogRecord) (rest : Bytes)
      → All IsEncodable zs
      → read_rows old (length zs) (encoded encode_row zs ++ rest) ≡ ok (zs, rest)
  read_rows-encoded old [] rest h = refl
  read_rows-encoded old (z ∷ zs) rest (h, hs) = rw (
    append_assoc (encode_row z) (encoded encode_row zs) rest,
    unmarshal_msg-marshal_msg m z old (encoded encode_row zs ++ rest) h,
    read_rows-encoded old zs rest hs,
  )

  -- Each frame is read to its end as the rows of one group.
  abbrev pub ReadAs : FlatLogRecord → List Bytes → List (List FlatLogRecord) → Type 0
  ReadAs old [] [] = Unit
  ReadAs old [] (zs ∷ zss) = ⊥
  ReadAs old (frame ∷ frames) [] = ⊥
  ReadAs old (frame ∷ frames) (zs ∷ zss) =
      (read_rows old (length zs) frame ≡ ok (zs, [])) × ReadAs old frames zss

  encoded-ReadAs :
      (old : FlatLogRecord) (zss : List (List FlatLogRecord))
      → All (All IsEncodable) zss
      → ReadAs old (map (encoded encode_row) zss) zss
  encoded-ReadAs old [] h = tt
  encoded-ReadAs old (zs ∷ zss) (h, hs) =
      (rw append-nil at (read_rows-encoded old zs [] h), encoded-ReadAs old zss hs)

  -- The rows of the frames, and those that wait for the next tick, are the rows received.
  pub record Shown (old : FlatLogRecord) (rows : List FlatLogRecord) (s : Socket) : Type 0 where
    pub shown : List (List FlatLogRecord)
    pub waiting : List FlatLogRecord
    pub all : join_all shown ++ waiting ≡ rows
    pub frames : ReadAs old s.frames shown
    pub batch : read_rows old (length waiting) s.batch ≡ ok (waiting, [])

  -- If the live tail's payloads are rows that the encoding has room for, then at every moment of the
  -- loop each frame that was written is read as whole rows with nothing left over, whatever record they
  -- are read into; and the rows of the frames, followed by those of the batch, are all the rows received,
  -- in order.
  pub Tailing-Shown :
      (old : FlatLogRecord) (rows : List FlatLogRecord) (s : Socket) (open_ : Bool)
      → Tailing encode_row rows s open_
      → All IsEncodable rows
      → Shown old rows s
  Tailing-Shown old rows s open_ t h =
      let g = Tailing-Grouped encode_row t in
      let split =
        All-append IsEncodable (join_all g.groups) g.waiting
          (subst (All IsEncodable) (sym g.all) h) in
      record {
        shown = g.groups;
        waiting = g.waiting;
        all = g.all;
        frames =
            subst (λ l. ReadAs old l g.groups) (sym g.frames)
              (encoded-ReadAs old g.groups (All-join IsEncodable g.groups split.0));
        batch =
            subst (λ b. read_rows old (length g.waiting) b ≡ ok (g.waiting, [])) (sym g.batch)
              (rw append-nil at (read_rows-encoded old g.waiting [] split.1));
      }
