-- ===== src/LoadGenerator/Generator/Requests.antt =====
-- The requests: which there are, and when the code panics.
use logarithm.Prelude.{
  ℕ, zero, suc, ◌+◌, ◌-◌, ◌/◌, ◌<◌, String, ◌≡◌, refl, ap, ◌⊎◌, inl, inr, List, [], ◌∷◌, ◌++◌, Memᴰ,
  arith, length, length-append, All,
}
use logarithm.Prelude.Int.{ℤ, pos, pos_part}
use logarithm.Worker.Transform.{LogData, ResourceLogs}
use logarithm.LoadGenerator.{Float64, CleanConfig}
use logarithm.LoadGenerator.Random.{Rand, int_n, index}
use logarithm.LoadGenerator.Random.Gives.{
  range-Gives, Gives, Panics, drawn-Gives, chain-Gives, chain-Panics, then-Panics, index-Gives,
  int_n-Gives, int_n-Panics, IsUniform,
}
use logarithm.LoadGenerator.Random.Words.{members}
use logarithm.LoadGenerator.Generator.{
  LogRecordTemplate, Weighted, generate_span_id, generate_trace_id, generate_record,
  generate_records, generate_request, put_uint64, put_all,
}

length-put_uint64 : (k n : ℕ) → length (put_uint64 k n) ≡ k
unfolding put_uint64
length-put_uint64 zero n = refl
length-put_uint64 (suc k) n = ap suc (length-put_uint64 k (n / 256))

generate_span_id-Gives : (r : Rand) → Gives (λ b. length b ≡ 8) (generate_span_id r)
unfolding generate_span_id
generate_span_id-Gives r = record { give = λ s. (_, _, refl, length-put_uint64 8 (r.uint64 s).0) }

generate_trace_id-Gives : (r : Rand) → Gives (λ b. length b ≡ 16) (generate_trace_id r)
unfolding generate_trace_id
generate_trace_id-Gives r = record {
  give = λ s. (_, _, refl, both (r.uint64 s).0 (r.uint64 (r.uint64 s).1).0);
}
  where
    both : (low high : ℕ) → length (put_uint64 8 low ++ put_uint64 8 high) ≡ 16
    both low high = omega (
      arith,
      length-append (put_uint64 8 low) (put_uint64 8 high),
      length-put_uint64 8 low,
      length-put_uint64 8 high,
    )

none_or_more : (n : ℕ) → (n ≡ 0) ⊎ ((b : ℕ) × (n ≡ b + 1))
none_or_more zero = inl refl
none_or_more (suc b) = inr (b, omega arith)

module _ (fl : Float64) (percent : fl.Float → ℤ) (r : Rand) (u : IsUniform r) (w : Weighted r)
    (put_str : List (String × String) → String → String → List (String × String))
    (cfg : CleanConfig fl) (now : ℕ) (pool : List LogRecordTemplate) where
  -- A log record that was made of one of the templates.
  pub record IsOf (log : LogData) : Type 0 where
    pub template : LogRecordTemplate
    pub member : Memᴰ template pool
    pub severity_text : log.severity_text ≡ template.severity_text
    pub severity_number : log.severity_number ≡ pos template.severity_number
    pub body : log.body ≡ template.body
    pub attributes : log.attributes ≡ put_all fl percent r w put_str cfg [] template.log_attributes
    pub timestamp : log.timestamp ≡ now
    pub observed_timestamp : log.observed_timestamp ≡ now
    pub trace_id : length log.trace_id ≡ 16
    pub span_id : length log.span_id ≡ 8

  -- One resource with the name of one of the services, and as many log records as a batch has.
  pub record IsRequest (request : List ResourceLogs) : Type 0 where
    pub service_name : String
    pub known : Memᴰ service_name cfg.service_names
    pub logs : List LogData
    pub count : length logs ≡ pos_part cfg.batch_size
    pub each : All IsOf logs
    pub shape :
        request
        ≡ record {
          attributes = put_str [] "service.name" service_name;
          scope_logs =
              record { scope_name = "test-scope"; scope_version = "1.0.0"; log_records = logs }
              ∷ [];
        }
          ∷ []

  generate_record-Gives :
      (b : ℕ)
      → length pool ≡ b + 1
      → Gives IsOf (generate_record fl percent r w put_str cfg now pool)
  unfolding generate_record
  generate_record-Gives b e = range-Gives 0 b _ _ _ (int_n-Gives r u (length pool) b e) λ k l m.
      chain-Gives (λ t. Memᴰ t pool) _ _ _
        (index-Gives (λ t. Memᴰ t pool) pool k (members pool) (omega arith))
        λ t mem.
          chain-Gives (λ x. length x ≡ 16) _ _ _ (generate_trace_id-Gives r)
            λ trace l16.
              chain-Gives (λ x. length x ≡ 8) _ _ _ (generate_span_id-Gives r)
                λ span l8. drawn-Gives _ _ (record {
                  template = t;
                  member = mem;
                  severity_text = refl;
                  severity_number = refl;
                  body = refl;
                  attributes = refl;
                  timestamp = refl;
                  observed_timestamp = refl;
                  trace_id = l16;
                  span_id = l8;
                })

  generate_records-Gives :
      (b : ℕ)
      → length pool ≡ b + 1
      → (n : ℕ)
      → Gives
          (λ logs. (length logs ≡ n) × All IsOf logs)
          (generate_records fl percent r w put_str cfg now pool n)
  unfolding generate_records
  generate_records-Gives b e zero = drawn-Gives _ _ (refl, tt)
  generate_records-Gives b e (suc n) =
      let rest = generate_records-Gives b e n in
      chain-Gives IsOf _ _ _ (generate_record-Gives b e) λ log f.
        chain-Gives (λ logs. (length logs ≡ n) × All IsOf logs) _ _ _ rest
          λ logs (l, all). drawn-Gives _ _ (ap suc l, (f, all))

  generate_records-Panics :
      (n : ℕ)
      → length pool ≡ 0
      → Panics (generate_records fl percent r w put_str cfg now pool (suc n))
  unfolding generate_records generate_record
  generate_records-Panics n e = chain-Panics _ _ (chain-Panics _ _ (int_n-Panics r (length pool) e))

  records-Panics :
      (m n : ℕ)
      → m ≡ n + 1
      → length pool ≡ 0
      → Panics (generate_records fl percent r w put_str cfg now pool m)
  records-Panics zero n e empty = absurd (omega (arith, e))
  records-Panics (suc m) n e empty = generate_records-Panics m empty

  -- There is a service to name, and a template unless the batches are empty.
  pub IsReady : Type 0
  IsReady = (0 < length cfg.service_names) × ((0 < length pool) ⊎ (pos_part cfg.batch_size ≡ 0))

  some_records :
      (0 < length pool) ⊎ (pos_part cfg.batch_size ≡ 0)
      → Gives
          (λ logs. (length logs ≡ pos_part cfg.batch_size) × All IsOf logs)
          (generate_records fl percent r w put_str cfg now pool (pos_part cfg.batch_size))
  unfolding generate_records
  some_records h = elim h [
    | inl some_template ↦
        generate_records-Gives (length pool - 1) (omega arith) (pos_part cfg.batch_size)
    | inr empty ↦ rw (empty, generate_records) (drawn-Gives _ _ (refl, tt))
  ]

  ready-Gives : IsReady → Gives IsRequest (generate_request fl percent r w put_str cfg now pool)
  unfolding generate_request IsReady
  ready-Gives (names, templates) =
      let b = length cfg.service_names - 1 in
      let more : length cfg.service_names ≡ b + 1 = omega arith in
      range-Gives 0 b _ _ _ (int_n-Gives r u (length cfg.service_names) b more) λ k l m.
        chain-Gives (λ name. Memᴰ name cfg.service_names) _ _ _
          (index-Gives (λ name. Memᴰ name cfg.service_names) cfg.service_names k
            (members cfg.service_names) (omega arith))
          λ name mem.
            chain-Gives (λ logs. (length logs ≡ pos_part cfg.batch_size) × All IsOf logs) _ _ _
              (some_records templates)
              λ logs (count, each). drawn-Gives _ _ (record {
                service_name = name;
                known = mem;
                logs = logs;
                count = count;
                each = each;
                shape = refl;
              })

  -- In every state of the `rand.Rand`, which keeps to its ranges: if the configuration names a service,
  -- and there is a template or a batch is empty, the code makes a request, with one of the services and
  -- as many log records as a batch has, each with the text, number and body of a template, the time of
  -- the request and identifiers of 16 and 8 bytes; in every other case it panics.
  pub generate_request-cases :
      (IsReady × Gives IsRequest (generate_request fl percent r w put_str cfg now pool))
      ⊎ ((IsReady → ⊥) × Panics (generate_request fl percent r w put_str cfg now pool))
  unfolding generate_request IsReady
  generate_request-cases = elim (none_or_more (length cfg.service_names)) [
    | inl unnamed ↦ inr (
      λ (names, templates). absurd (omega (arith, names, unnamed)),
      chain-Panics _ _ (int_n-Panics r (length cfg.service_names) unnamed),
    )
    | inr (a, named) ↦ elim (none_or_more (length pool)) [
      | inr (b, some_template) ↦
          let ready : IsReady = (omega (arith, named), inl (omega (arith, some_template))) in
          inl (ready, ready-Gives ready)
      | inl no_template ↦ elim (none_or_more (pos_part cfg.batch_size)) [
        | inl empty ↦
            let ready : IsReady = (omega (arith, named), inr empty) in
            inl (ready, ready-Gives ready)
        | inr (n, more) ↦ inr (
          λ (names, templates). elim templates [
            | inl t ↦ absurd (omega (arith, t, no_template))
            | inr e ↦ absurd (omega (arith, e, more))
          ],
          then-Panics (int_n r (pos (length cfg.service_names))) _ λ idx.
              then-Panics (index cfg.service_names (pos_part idx)) _ λ name.
                chain-Panics
                  (generate_records fl percent r w put_str cfg now pool (pos_part cfg.batch_size)) _
                  (records-Panics (pos_part cfg.batch_size) n more no_template),
        )
      ]
    ]
  ]
