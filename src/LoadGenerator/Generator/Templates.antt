-- ===== src/LoadGenerator/Generator/Templates.antt =====
-- The pool of templates: never a panic for a configuration that is clean, and each template fits it.
use logarithm.Prelude.{
  ℕ, zero, suc, ◌+◌, ◌^◌, ◌≤◌, ◌<◌, String, ◌≡◌, refl, ap, subst, ◌∙◌, inl, inr, false, List, [],
  ◌∷◌, map, Memᴰ, arith, if◌then◌else◌, length, All, All-mem, Result, Result-cases, ok, err,
}
use logarithm.Prelude.Int.{ℤ, pos, pos_part, ltb_ℤ, ◌≤ℤ◌, negsuc}
use logarithm.Prelude.Text.{concat}
use logarithm.LoadGenerator.{Float64, CleanConfig}
use logarithm.LoadGenerator.Clean.{IsClean}
use logarithm.LoadGenerator.Random.{◌>>=◌, drawn, Rand, randomised_body, panic}
use logarithm.LoadGenerator.Random.Gives.{
  Gives, drawn-Gives, chain-Gives, index-Gives, IsUniform, InRange, in_range, Severity, debug, info,
  warning, error, fatal, severity_text_rand_number-Gives,
}
use logarithm.LoadGenerator.Random.Words.{Body, randomised_body-Gives}
use logarithm.LoadGenerator.Generator.{
  LogRecordTemplate, Weighted, new_choices, generate_template, generate_templates,
  generate_log_record_pool, choice,
}
use logarithm.Worker.Transform.{to_uint8}

abbrev pub texts : List String
texts = "DEBUG" ∷ "INFO" ∷ "WARNING" ∷ "ERROR" ∷ "FATAL" ∷ []

-- A pick is the text of one of the choices.
pub record IsChooser (r : Rand) (w : Weighted r) : Type 0 where
  pub picks :
      (choices : List (String × ℤ)) (c : w.Chooser) (s : r.State)
      → w.new_chooser choices ≡ ok c
      → Memᴰ (w.pick_with c s).0 (map (λ p. p.0) choices)

-- Bodies of `a` to `b` words, and what is far from the end of the 64 bits.
pub record HasBodies {fl : Float64} (cfg : CleanConfig fl) (a b : ℕ) : Type 0 where
  pub least : cfg.body_tokens.min_tokens ≡ pos a
  pub most : cfg.body_tokens.max_tokens ≡ pos b
  pub ordered : a ≤ b
  pub small : b + 1 < 2 ^ 63
  pub words : length cfg.body_tokens.dictionary + 1 < 2 ^ 63

-- The number of the severity is one of the four of its text, and the body is made of the dictionary.
pub record Fits {fl : Float64} (cfg : CleanConfig fl) (a b : ℕ) (t : LogRecordTemplate)
    : Type 0 where
  pub low : ℕ
  pub severity : Severity t.severity_text low
  pub above : low ≤ t.severity_number
  pub below : t.severity_number ≤ low + 3
  pub body : Body cfg.body_tokens.dictionary a b t.body
  pub attributes : t.log_attributes ≡ cfg.log_attributes

text-Severity : (text : String) → Memᴰ text texts → (low : ℕ) × Severity text low × (low + 3 < 256)
text-Severity text m = All-mem (λ text. (low : ℕ) × Severity text low × (low + 3 < 256)) texts all m
  where
    all : All (λ text. (low : ℕ) × Severity text low × (low + 3 < 256)) texts
    all = (
      (5, debug, omega arith),
      (
        (9, info, omega arith),
        ((13, warning, omega arith), ((17, error, omega arith), ((21, fatal, omega arith), tt))),
      ),
    )

to_uint8_small : (n : ℕ) → n < 256 → to_uint8 (pos n) ≡ n
unfolding to_uint8
to_uint8_small n h = omega arith

same_size : (z : ℤ) → pos 0 ≤ℤ z → pos (pos_part z) ≡ z
same_size (pos n) h = refl
same_size (negsuc n) h = absurd (omega arith)

module _ (fl : Float64) (percent : fl.Float → ℤ) (r : Rand) (u : IsUniform r) (w : Weighted r)
    (v : IsChooser r w)
    (put_str : List (String × String) → String → String → List (String × String))
    (cfg : CleanConfig fl) (clean : IsClean fl cfg) (a b : ℕ) (bodies : HasBodies cfg a b) where
  -- What the constructor of the pool returns: the error of the chooser, or as many templates as the
  -- configuration says.
  pub PoolResult : Result (List LogRecordTemplate) → Type 0
  PoolResult (err e) =
      (choices : List (String × ℤ)) × (reason : String) × (map (λ p. p.0) choices ≡ texts)
      × (w.new_chooser choices ≡ err reason)
  PoolResult (ok pool) = (pos (length pool) ≡ cfg.pool_size) × All (Fits cfg a b) pool

  template-Gives :
      (choices : List (String × ℤ)) (c : w.Chooser)
      → w.new_chooser choices ≡ ok c
      → map (λ p. p.0) choices ≡ texts
      → Gives (Fits cfg a b) (generate_template fl percent r w put_str cfg c)
  unfolding generate_template
  template-Gives choices c q e =
      chain-Gives (λ text. Memᴰ text texts) _ _ _
        (record {
          give = λ s. (_, _, refl, subst (Memᴰ (w.pick_with c s).0) e (v.picks choices c s q));
        })
        λ text m.
          let (low, s, small) = text-Severity text m in
          chain-Gives (InRange low (low + 3)) _ _ _ (severity_text_rand_number-Gives r u text low s)
            λ number n.
              chain-Gives (Body cfg.body_tokens.dictionary a b) _ _ _ body-Gives
                λ text_body t. drawn-Gives _ _ (fits text low s small number n text_body t)
    where
      body-Gives : Gives (Body cfg.body_tokens.dictionary a b) (
          randomised_body r cfg.body_tokens.dictionary cfg.body_tokens.min_tokens
            cfg.body_tokens.max_tokens)
      body-Gives =
          rw (bodies.least, bodies.most)
            (randomised_body-Gives r u cfg.body_tokens.dictionary bodies.words a b bodies.ordered
              bodies.small)

      fits :
          (text : String) (low : ℕ)
          → Severity text low
          → low + 3 < 256
          → (number : ℤ) → InRange low (low + 3) number
          → (text_body : String) → Body cfg.body_tokens.dictionary a b text_body
          → Fits cfg a b (record {
            trace_id = "";
            span_id = "";
            severity_text = text;
            severity_number = to_uint8 number;
            body = text_body;
            log_attributes = cfg.log_attributes;
          })
      fits text low s small _ (in_range n l m) text_body t =
          let same = to_uint8_small n (omega arith) in
          record {
            low = low;
            severity = s;
            above = rw same l;
            below = rw same m;
            body = t;
            attributes = refl;
          }

  templates-Gives :
      (choices : List (String × ℤ)) (c : w.Chooser)
      → w.new_chooser choices ≡ ok c
      → map (λ p. p.0) choices ≡ texts
      → (n : ℕ)
      → Gives
          (λ pool. (length pool ≡ n) × All (Fits cfg a b) pool)
          (generate_templates fl percent r w put_str cfg c n)
  unfolding generate_templates
  templates-Gives choices c q e zero = drawn-Gives _ _ (refl, tt)
  templates-Gives choices c q e (suc n) =
      let rest = templates-Gives choices c q e n in
      chain-Gives (Fits cfg a b) _ _ _ (template-Gives choices c q e) λ t f.
        chain-Gives (λ pool. (length pool ≡ n) × All (Fits cfg a b) pool) _ _ _ rest
          λ pool (l, all). drawn-Gives _ _ (ap suc l, (f, all))

  abbrev AnyFloat : fl.Float → Type 0
  AnyFloat p = Unit

  choice-Gives :
      (text : String) (i : ℕ)
      → i < 5
      → Gives (λ c. c.0 ≡ text) (choice fl percent r w put_str cfg text i)
  choice-Gives text i h =
      chain-Gives AnyFloat _ _ _
        (index-Gives AnyFloat cfg.severity_distribution i (anything cfg.severity_distribution)
          (omega (arith, clean.five)))
        λ p x. drawn-Gives _ _ refl
    where
      anything : (ps : List fl.Float) → All (AnyFloat) ps
      anything [] = tt
      anything (p ∷ ps) = (tt, anything ps)

  new_choices-Gives :
      Gives (λ cs. map (λ p. p.0) cs ≡ texts) (new_choices fl percent r w put_str cfg)
  new_choices-Gives =
      chain-Gives (λ c. c.0 ≡ "DEBUG") _ _ _ (choice-Gives "DEBUG" 0 (omega arith))
        λ c1 e1.
          chain-Gives (λ c. c.0 ≡ "INFO") _ _ _ (choice-Gives "INFO" 1 (omega arith))
            λ c2 e2.
              chain-Gives (λ c. c.0 ≡ "WARNING") _ _ _ (choice-Gives "WARNING" 2 (omega arith))
                λ c3 e3.
                  chain-Gives (λ c. c.0 ≡ "ERROR") _ _ _ (choice-Gives "ERROR" 3 (omega arith))
                    λ c4 e4.
                      chain-Gives (λ c. c.0 ≡ "FATAL") _ _ _ (choice-Gives "FATAL" 4 (omega arith))
                        λ c5 e5. drawn-Gives _ _ (λ i. e1 i ∷ e2 i ∷ e3 i ∷ e4 i ∷ e5 i ∷ [])

  -- For a clean configuration whose bodies have between `a` and `b` words, and for a `rand.Rand` and a
  -- chooser that keep to their ranges, the constructor of the pool never panics: it returns the error of
  -- the chooser, or exactly the number of templates that the configuration asks for, each with a number
  -- of severity that its text stands for, and a body of that many words of the dictionary.
  pub generate_log_record_pool-Gives :
      Gives PoolResult (generate_log_record_pool fl percent r w put_str cfg)
  unfolding generate_log_record_pool PoolResult
  generate_log_record_pool-Gives =
      chain-Gives (λ cs. map (λ p. p.0) cs ≡ texts) _ _ _ new_choices-Gives λ cs e. chosen cs e
    where
      chosen :
          (cs : List (String × ℤ))
          → map (λ p. p.0) cs ≡ texts
          → Gives PoolResult (elim (w.new_chooser cs) [
            | err e ↦ drawn (err (concat ("failed to create weighted chooser: " ∷ e ∷ [])))
            | ok chooser ↦ if ltb_ℤ cfg.pool_size (pos 0) then panic else do
              pool ← generate_templates fl percent r w put_str cfg chooser (pos_part cfg.pool_size)
              drawn (ok pool)
          ])
      chosen cs e = elim (Result-cases (w.new_chooser cs)) [
        | inr (reason, q) ↦ rw q (drawn-Gives PoolResult _ (cs, reason, e, q))
        | inl (c, q) ↦
            rw (q, not_negative)
              (chain-Gives
                (λ pool. (length pool ≡ pos_part cfg.pool_size) × All (Fits cfg a b) pool) _ _ _
                (templates-Gives cs c q e (pos_part cfg.pool_size))
                λ pool (l, all).
                  drawn-Gives _ _ (ap pos l ∙ same_size cfg.pool_size clean.pool_floor, all))
      ]
        where
          not_negative : ltb_ℤ cfg.pool_size (pos 0) ≡ false
          not_negative = ground (arith, clean.pool_floor)
