-- ===== src/LoadGenerator/Generator.antt =====
-- load_generator/generator/generator.go: the pool of log records that a load test draws from, and the
-- requests that it sends.
pub mod Templates
pub mod Requests
use logarithm.Prelude.{
  ℕ, zero, suc, ◌/◌, ◌%◌, String, some, List, [], ◌∷◌, ◌++◌, if◌then◌else◌, Bytes, length, Result,
  ok, err,
}
use logarithm.Prelude.Int.{ℤ, pos, pos_part, ltb_ℤ}
use logarithm.Prelude.Text.{concat}
use logarithm.Worker.Transform.{LogData, ResourceLogs, to_uint8}
use logarithm.LoadGenerator.{Float64, CleanConfig, KeyValue}
use logarithm.LoadGenerator.Random.{
  Draw, ◌>>=◌, drawn, panic, index, Rand, int_n, severity_text_rand_number, randomised_body,
}

pub record LogRecordTemplate : Type 0 where
  pub trace_id : String
  pub span_id : String
  pub severity_text : String
  pub severity_number : ℕ
  pub body : String
  pub log_attributes : List KeyValue

-- The library's weighted choice: its constructor may fail, and a pick draws one of the choices.
pub record Weighted (r : Rand) : Type 1 where
  pub Chooser : Type 0
  pub new_chooser : List (String × ℤ) → Result Chooser
  pub pick_with : Chooser → r.State → String × r.State

-- `binary.LittleEndian.PutUint64` into so many bytes.
unfoldable pub put_uint64 : ℕ → ℕ → Bytes
put_uint64 zero n = []
put_uint64 (suc k) n = (n % 256) ∷ put_uint64 k (n / 256)

module _ (r : Rand) where
  abbrev draw_uint64 : Draw r.State ℕ
  draw_uint64 s = some (r.uint64 s)

  unfoldable pub generate_span_id : Draw r.State Bytes
  unfolding put_uint64
  generate_span_id = do n ← draw_uint64; drawn (put_uint64 8 n)

  unfoldable pub generate_trace_id : Draw r.State Bytes
  unfolding put_uint64
  generate_trace_id = do
    low ← draw_uint64
    high ← draw_uint64
    drawn (put_uint64 8 low ++ put_uint64 8 high)

-- `percent p` is `int(p * 100)`, and `put_str` the method of the OTLP library's attributes.
module _ (fl : Float64) (percent : fl.Float → ℤ) (r : Rand) (w : Weighted r)
    (put_str : List (String × String) → String → String → List (String × String))
    (cfg : CleanConfig fl) where
  -- A choice of a text by the probability at an index.
  abbrev choice : String → ℕ → Draw r.State (String × ℤ)
  choice text i = do p ← index cfg.severity_distribution i; drawn (text, percent p)

  abbrev pub new_choices : Draw r.State (List (String × ℤ))
  new_choices = do
    debug ← choice "DEBUG" 0
    info ← choice "INFO" 1
    warning ← choice "WARNING" 2
    error ← choice "ERROR" 3
    fatal ← choice "FATAL" 4
    drawn (debug ∷ info ∷ warning ∷ error ∷ fatal ∷ [])

  -- One round of the loop.
  unfoldable pub generate_template : w.Chooser → Draw r.State LogRecordTemplate
  unfolding severity_text_rand_number randomised_body to_uint8
  generate_template chooser = do
    text ← λ s. some (w.pick_with chooser s)
    number ← severity_text_rand_number r text
    text_body ←
        randomised_body r cfg.body_tokens.dictionary cfg.body_tokens.min_tokens
          cfg.body_tokens.max_tokens
    drawn (record {
      trace_id = "";
      span_id = "";
      severity_text = text;
      severity_number = to_uint8 number;
      body = text_body;
      log_attributes = cfg.log_attributes;
    })

  unfoldable pub generate_templates : w.Chooser → ℕ → Draw r.State (List LogRecordTemplate)
  unfolding generate_template
  generate_templates chooser zero = drawn []
  generate_templates chooser (suc left) = do
    template ← generate_template chooser
    rest ← generate_templates chooser left
    drawn (template ∷ rest)

  -- `make` panics on a negative size.
  unfoldable pub generate_log_record_pool : Draw r.State (Result (List LogRecordTemplate))
  unfolding generate_templates
  generate_log_record_pool = do
    choices ← new_choices
    elim (w.new_chooser choices) [
      | err e ↦ drawn (err (concat ("failed to create weighted chooser: " ∷ e ∷ [])))
      | ok chooser ↦
          if ltb_ℤ cfg.pool_size (pos 0)
          then panic
          else do pool ← generate_templates chooser (pos_part cfg.pool_size); drawn (ok pool)
    ]

  abbrev pub put_all : List (String × String) → List KeyValue → List (String × String)
  put_all attrs [] = attrs
  put_all attrs (kv ∷ kvs) = put_all (put_str attrs kv.key kv.value) kvs

  unfoldable pub generate_record : ℕ → List LogRecordTemplate → Draw r.State LogData
  unfolding int_n generate_trace_id generate_span_id
  generate_record now pool = do
    idx ← int_n r (pos (length pool))
    template ← index pool (pos_part idx)
    trace ← generate_trace_id r
    span ← generate_span_id r
    drawn (record {
      attributes = put_all [] template.log_attributes;
      timestamp = now;
      observed_timestamp = now;
      trace_id = trace;
      span_id = span;
      severity_text = template.severity_text;
      severity_number = pos template.severity_number;
      body = template.body;
    })

  unfoldable pub generate_records : ℕ → List LogRecordTemplate → ℕ → Draw r.State (List LogData)
  unfolding generate_record
  generate_records now pool zero = drawn []
  generate_records now pool (suc left) = do
    log ← generate_record now pool
    logs ← generate_records now pool left
    drawn (log ∷ logs)

  unfoldable pub generate_request : ℕ → List LogRecordTemplate → Draw r.State (List ResourceLogs)
  unfolding int_n generate_records
  generate_request now pool = do
    idx ← int_n r (pos (length cfg.service_names))
    service_name ← index cfg.service_names (pos_part idx)
    logs ← generate_records now pool (pos_part cfg.batch_size)
    drawn (
        record {
          attributes = put_str [] "service.name" service_name;
          scope_logs =
              record { scope_name = "test-scope"; scope_version = "1.0.0"; log_records = logs }
              ∷ [];
        }
        ∷ [])
