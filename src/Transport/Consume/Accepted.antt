-- ===== src/Transport/Consume/Accepted.antt =====
-- Why a message was acknowledged, over a whole run of the loop.
use logarithm.Prelude.{
  ℕ, String, ◌≡◌, refl, ap, subst, ◌≢◌, ◌⊎◌, inl, inr, true, Option, none, some, List, [], ◌∷◌,
  ◌++◌, map, ◌∙◌, sym, Memᴰ, leb, Bool-cases, length, All, All-map, Bytes,
}
use logarithm.Transport.Consume.{
  Msg, Settled, Handlers, Loop, Step, Reach, receive, ack, nak, nak_with_delay, flush, flush_loop,
  start, buffers, refuses, cancels, times_out, receives, stops, here, next, settle_failed,
  settle_all_failed, ack_all, Answer,
}
use logarithm.Transport.Consume.Settle.{messages-flush, flush-ack_safe, bodies, is_dead}
use logarithm.Transport.Message.{Message, Headers}

-- The callbacks keep a property of what they share.
pub record Keeps {S : Type 0} (hs : Handlers S) (P : S → Type 0) : Type 0 where
  pub logs : (s : S) (ms : List Message) → P s → P (hs.log_handler s ms).0
  pub dlq :
      (s : S) (payload : Bytes) (headers : Headers) → P s → P (hs.dlq_handler s payload headers).0

All-from-mem {ℓ κ} :
    {A : Type ℓ} (P : A → Type κ) (xs : List A) → ((a : A) → Memᴰ a xs → P a) → All P xs
All-from-mem P [] h = tt
All-from-mem P (x ∷ xs) h = (h x (Memᴰ.head refl), All-from-mem P xs λ a m. h a (Memᴰ.tail m))

All-append {ℓ κ} :
    {A : Type ℓ} (P : A → Type κ) (xs ys : List A) → All P xs → All P ys → All P (xs ++ ys)
All-append P [] ys h k = k
All-append P (x ∷ xs) ys (h, hs) k = (h, All-append P xs ys hs k)

Mem-map {ℓ κ} :
    {A : Type ℓ} {B : Type κ} (f : A → B) (xs : List A) {a : A} → Memᴰ a xs → Memᴰ (f a) (map f xs)
Mem-map f [] m = elim m [ ]
Mem-map f (x ∷ xs) (Memᴰ.head e) = Memᴰ.head (ap f e)
Mem-map f (x ∷ xs) (Memᴰ.tail m) = Memᴰ.tail (Mem-map f xs m)

module _ {S : Type 0} (hs : Handlers S) (max_deliver max_batch max_wait : ℕ) (s0 : S)
    (now0 : ℕ) where
  -- The steps that the loop takes from a state.
  pub data Later (l : Loop S) : Loop S → Type 0 where
    at_once : Later l l
    later_step :
        {l' l'' : Loop S} {new : List Msg}
        → Later l l'
        → Step hs max_deliver max_batch max_wait l' new l''
        → Later l l''

  -- What the loop hands over at a state: its batch, or that with the next message of the channel.
  pub data HandsOver (l : Loop S) : List Msg → Type 0 where
    its_batch : HandsOver l l.batch
    with_next : (m : Msg) (rest : List Msg) → l.channel ≡ m ∷ rest → HandsOver l (l.batch ++ m ∷ [])

  -- A step of the run that led to a state, in which the handler accepted a batch with this message:
  -- what the handler left is what the loop went on with, and all of the batch was acknowledged.
  pub record Accepted (P : S → Type 0) (d : Settled) (final : Loop S) : Type 0 where
    pub seen : List Msg
    pub earlier : Loop S
    pub reached : Reach hs max_deliver max_batch max_wait s0 now0 seen earlier
    pub kept : P earlier.shared
    pub batch : List Msg
    pub member : Memᴰ d.msg batch
    pub handed_over : HandsOver earlier batch
    pub accepted : (hs.log_handler earlier.shared (bodies batch)).1 ≡ none
    pub new : List Msg
    pub after : Loop S
    pub step : Step hs max_deliver max_batch max_wait earlier new after
    pub went_on : after.shared ≡ (hs.log_handler earlier.shared (bodies batch)).0
    pub answered : after.settled ≡ ack_all batch ++ earlier.settled
    pub cleared : after.batch ≡ []
    pub later : Later after final

  Accepted-step :
      (P : S → Type 0) (d : Settled) {l l' : Loop S} {new : List Msg}
      → Step hs max_deliver max_batch max_wait l new l'
      → Accepted P d l
      → Accepted P d l'
  Accepted-step P d st a = record {
    seen = a.seen;
    earlier = a.earlier;
    reached = a.reached;
    kept = a.kept;
    batch = a.batch;
    member = a.member;
    handed_over = a.handed_over;
    accepted = a.accepted;
    new = a.new;
    after = a.after;
    step = a.step;
    went_on = a.went_on;
    answered = a.answered;
    cleared = a.cleared;
    later = later_step a.later st;
  }

  -- A message is not acknowledged, or has used up its deliveries, or was accepted.
  abbrev pub Justified : (S → Type 0) → Loop S → Settled → Type 0
  Justified P final d =
      (d.answer ≢ ack) ⊎ ((is_dead max_deliver d.msg.num_delivered ≡ true) ⊎ Accepted P d final)

  -- The run goes on.
  Justified-step :
      (P : S → Type 0) {l l' : Loop S} {new : List Msg}
      → Step hs max_deliver max_batch max_wait l new l'
      → (ds : List Settled) → All (Justified P l) ds
      → All (Justified P l') ds
  Justified-step P st = All-map _ _ λ d j. elim j [
    | inl other ↦ inl other
    | inr (inl dead) ↦ inr (inl dead)
    | inr (inr a) ↦ inr (inr (Accepted-step P d st a))
  ]

  settle_failed-keeps :
      (P : S → Type 0) (n : Option ℕ) (s : S) (m : Msg)
      → Keeps hs P
      → P s
      → P (settle_failed hs max_deliver s (record m { num_delivered = n })).0
  unfolding settle_failed
  settle_failed-keeps P none s m k p = p
  settle_failed-keeps P (some n) s m k p = elim (Bool-cases (leb max_deliver n)) [
    | inl dead ↦ rw (dead, settle_failed) (k.dlq s m.body.payload m.body.headers p)
    | inr alive ↦ rw (alive, settle_failed) p
  ]

  settle_all_failed-keeps :
      (P : S → Type 0) (batch : List Msg) (s : S)
      → Keeps hs P
      → P s
      → P (settle_all_failed hs max_deliver s batch).0
  unfolding settle_all_failed
  settle_all_failed-keeps P [] s k p = p
  settle_all_failed-keeps P (m ∷ batch) s k p =
      settle_all_failed-keeps P batch _ k (settle_failed-keeps P m.num_delivered s m k p)

  flush-keeps :
      (P : S → Type 0) (s : S) (batch : List Msg)
      → Keeps hs P
      → P s
      → P (flush hs max_deliver s batch).0
  unfolding flush
  flush-keeps P s [] k p = p
  flush-keeps P s (m ∷ batch) k p = go (hs.log_handler s (bodies (m ∷ batch))) (k.logs s _ p)
    where
      go :
          (r : S × Option String)
          → P r.0
          → P
              (elim r.1 as (λ x. S × List Settled) [
                | none ↦ (r.0, ack_all (m ∷ batch))
                | some e ↦ settle_all_failed hs max_deliver r.0 (m ∷ batch)
              ]).0
      go (s', none) q = q
      go (s', some e) q = settle_all_failed-keeps P (m ∷ batch) s' k q

  flush_accepted :
      (s : S) (m : Msg) (batch : List Msg)
      → Memᴰ m batch
      → (hs.log_handler s (bodies batch)).1 ≡ none
      → flush hs max_deliver s batch ≡ ((hs.log_handler s (bodies batch)).0, ack_all batch)
  unfolding flush
  flush_accepted s m [] h e = elim h [ ]
  flush_accepted s m (x ∷ batch) h e = rw (e, flush) refl

  -- The answers of a step that flushes a batch.
  flush-Justified :
      (P : S → Type 0) (seen : List Msg) (l : Loop S) (batch : List Msg) {new : List Msg}
      (after : Loop S)
      → Reach hs max_deliver max_batch max_wait s0 now0 seen l
      → Step hs max_deliver max_batch max_wait l new after
      → HandsOver l batch
      → P l.shared
      → after.shared ≡ (flush hs max_deliver l.shared batch).0
      → after.settled ≡ (flush hs max_deliver l.shared batch).1 ++ l.settled
      → after.batch ≡ []
      → All (Justified P after) (flush hs max_deliver l.shared batch).1
  flush-Justified P seen l batch {new = new} after r st over p es ea eb =
      All-from-mem (Justified P after) _ λ d h. go d h d.answer refl
    where
      go :
          (d : Settled)
          → Memᴰ d (flush hs max_deliver l.shared batch).1
          → (a : Answer) → d.answer ≡ a
          → Justified P after d
      go d h nak e = inl (λ e'. cc)
      go d h (nak_with_delay t) e = inl (λ e'. cc)
      go d h ack e = elim (flush-ack_safe hs max_deliver l.shared batch d h e) [
        | inr dead ↦ inr (inl dead)
        | inl fine ↦
            let member : Memᴰ d.msg batch =
              subst (Memᴰ d.msg) (messages-flush hs max_deliver l.shared batch)
                (Mem-map (λ d. d.msg) _ h) in
            let whole = flush_accepted l.shared d.msg batch member fine in
            inr (
              inr (record {
                seen = seen;
                earlier = l;
                reached = r;
                kept = p;
                batch = batch;
                member = member;
                handed_over = over;
                accepted = fine;
                new = new;
                after = after;
                step = st;
                went_on = es ∙ ap (λ w. w.0) whole;
                answered = ea ∙ ap (λ w. w.1 ++ l.settled) whole;
                cleared = eb;
                later = at_once;
              }))
      ]

  -- The loop's state, less what no flush depends on.
  abbrev JustifiedAt : (S → Type 0) → Loop S → Type 0
  JustifiedAt P l = P l.shared × All (Justified P l) l.settled

  flush_step-Justified :
      (P : S → Type 0) (seen : List Msg) (l : Loop S) (batch : List Msg) {new : List Msg}
      (after : Loop S)
      → Keeps hs P
      → Reach hs max_deliver max_batch max_wait s0 now0 seen l
      → Step hs max_deliver max_batch max_wait l new after
      → HandsOver l batch
      → JustifiedAt P l
      → after.shared ≡ (flush hs max_deliver l.shared batch).0
      → after.settled ≡ (flush hs max_deliver l.shared batch).1 ++ l.settled
      → after.batch ≡ []
      → JustifiedAt P after
  flush_step-Justified P seen l batch after k r st over (p, j) es ea eb = (
    subst P (sym es) (flush-keeps P l.shared batch k p),
    subst (All (Justified P after)) (sym ea) (
        All-append (Justified P after) _ l.settled
          (flush-Justified P seen l batch after r st over p es ea eb)
          (Justified-step P st l.settled j)),
  )

  receive-Justified :
      (P : S → Type 0) (seen : List Msg) (l : Loop S) (now : ℕ) (m : Msg) (rest : List Msg)
      → Keeps hs P
      → Reach hs max_deliver max_batch max_wait s0 now0 seen l
      → Step hs max_deliver max_batch max_wait l []
          (receive hs max_deliver max_batch max_wait now m (record l { channel = rest }))
      → l.channel ≡ m ∷ rest
      → JustifiedAt P l
      → JustifiedAt P
          (receive hs max_deliver max_batch max_wait now m (record l { channel = rest }))
  unfolding receive flush_loop
  receive-Justified P seen l now m rest k r st e (p, j) =
      elim (Bool-cases (leb max_batch (length (l.batch ++ m ∷ [])))) [
        | inl full ↦
            flush_step-Justified P seen l (l.batch ++ m ∷ []) _ k r st (with_next m rest e) (p, j)
              (rw full refl) (rw full refl) (rw full refl)
        | inr room ↦
            let same : (receive hs max_deliver max_batch max_wait now m
                  (record l { channel = rest })).shared
                ≡ l.shared =
              rw room refl in
            let kept : (receive hs max_deliver max_batch max_wait now m
                  (record l { channel = rest })).settled
                ≡ l.settled =
              rw room refl in
            (
              subst P (sym same) p,
              subst (All (Justified P _)) (sym kept) (Justified-step P st l.settled j),
            )
      ]

  Step-Justified :
      (P : S → Type 0) (seen : List Msg) (l : Loop S) {new : List Msg} {l' : Loop S}
      → Keeps hs P
      → Reach hs max_deliver max_batch max_wait s0 now0 seen l
      → Step hs max_deliver max_batch max_wait l new l'
      → JustifiedAt P l
      → JustifiedAt P l'
  unfolding flush_loop
  Step-Justified P seen _ k r (buffers l m room) (p, j) =
      (p, Justified-step P (buffers l m room) l.settled j)
  Step-Justified P seen _ k r (refuses l m c) (p, j) =
      (p, (inl (λ e. cc), Justified-step P (refuses l m c) l.settled j))
  Step-Justified P seen _ k r (cancels l) (p, j) = (p, Justified-step P (cancels l) l.settled j)
  Step-Justified P seen _ k r (times_out l now run due) h =
      flush_step-Justified P seen l l.batch _ k r (times_out l now run due) its_batch h refl refl
        refl
  Step-Justified P seen _ k r (receives l now m rest run e) h =
      receive-Justified P seen l now m rest k r (receives l now m rest run e) e h
  Step-Justified P seen _ k r (stops l now run c) h =
      flush_step-Justified P seen l l.batch _ k r (stops l now run c) its_batch h refl refl refl

  -- Over a whole run, if the callbacks keep a property that holds at the start, every message that was
  -- acknowledged has used up its deliveries, or stood in a batch that the handler accepted in a step of
  -- this run, at a state with this property.
  pub Reach-Justified :
      (P : S → Type 0) {seen : List Msg} {l : Loop S}
      → Keeps hs P
      → P s0
      → Reach hs max_deliver max_batch max_wait s0 now0 seen l
      → P l.shared × All (Justified P l) l.settled
  unfolding start
  Reach-Justified P k p here = (p, tt)
  Reach-Justified P k p (next {ms = ms} {l = l} r st) =
      Step-Justified P ms l k r st (Reach-Justified P k p r)
