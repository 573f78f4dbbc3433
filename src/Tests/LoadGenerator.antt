-- ===== src/Tests/LoadGenerator.antt =====
-- A load test with one service and one kind of log.
use logarithm.Prelude.{
  ℕ, ◌+◌, ◌-◌, ◌*◌, ◌%◌, String, ◌≡◌, refl, ◌⊎◌, inl, inr, List, [], ◌∷◌, map, Memᴰ, arith, ltb,
  Bytes, Result, ok, err,
}
use logarithm.Prelude.Int.{ℤ, pos}
use logarithm.LoadGenerator.{
  Float64, System, RawConfig, CleanConfig, found, clean_config, clean_severity_distribution,
  clean_pool_size, clean_encoding, clean_content_type, validate, accept, clean_grpc_worker_count,
  float_equals, default_distribution, parse_config, file_exists,
}
use logarithm.LoadGenerator.Clean.{IsClean, AddsUp, parse_config-IsClean}
use logarithm.LoadGenerator.Random.{Rand}
use logarithm.LoadGenerator.Random.Gives.{IsUniform, Gives, Panics}
use logarithm.LoadGenerator.Generator.{
  Weighted, LogRecordTemplate, generate_log_record_pool, generate_request,
}
use logarithm.LoadGenerator.Generator.Templates.{
  IsChooser, HasBodies, PoolResult, generate_log_record_pool-Gives,
}
use logarithm.LoadGenerator.Generator.Requests.{IsReady, IsRequest, generate_request-cases}

-- Numbers with one digit after the point.
abbrev pub tenths : Float64
tenths = record {
  Float = ℕ;
  add = λ a b. a + b;
  sub = λ a b. (a - b) + (b - a);
  abs = λ a. a;
  less = λ a b. ltb a b;
  zero_float = 0;
  one = 10;
  tenth = 1;
  six_tenths = 6;
  epsilon = 1;
}

abbrev pub system : System
system = record {
  getwd = ok "/root";
  join_path = λ a b. b;
  lstat = λ path. found;
  read_file = λ path. ok [];
  lower = λ s. s;
}

abbrev pub raw : RawConfig tenths
raw = record {
  seed = pos 42;
  pool_size = pos 2;
  protocol = "grpc";
  grpc_workers = pos 0;
  http_method = "POST";
  http_health_url = "";
  target_url = "http://localhost:4318/v1/logs";
  content_type = "proto";
  encoding = "gzip";
  rps = pos 10;
  batch_size = pos 1;
  severity_distribution = 1 ∷ 6 ∷ 1 ∷ 1 ∷ 1 ∷ [];
  service_names = "shop" ∷ [];
  body_tokens = record { min_tokens = pos 1; max_tokens = pos 2; dictionary = "paid" ∷ [] };
  log_attributes = [];
  resource_attributes = [];
}

abbrev pub config : CleanConfig tenths
config = record {
  seed = pos 42;
  pool_size = pos 2;
  protocol = "grpc";
  grpc_workers = pos 5;
  http_method = "POST";
  http_health_url = "";
  target_url = "http://localhost:4318/v1/logs";
  content_type = "proto";
  encoding = "gzip";
  rps = pos 10;
  batch_size = pos 1;
  severity_distribution = 1 ∷ 6 ∷ 1 ∷ 1 ∷ 1 ∷ [];
  service_names = "shop" ∷ [];
  body_tokens = record { min_tokens = pos 1; max_tokens = pos 2; dictionary = "paid" ∷ [] };
  log_attributes = [];
  resource_attributes = [];
}

abbrev unmarshalled : Bytes → Result (RawConfig tenths)
unmarshalled content = ok raw

parsed : parse_config tenths system unmarshalled "config.json" ≡ ok config
unfolding parse_config file_exists accept validate clean_config clean_severity_distribution
    float_equals clean_pool_size clean_encoding clean_content_type clean_grpc_worker_count
parsed = refl

defaults-AddsUp : AddsUp tenths (default_distribution tenths)
unfolding float_equals
defaults-AddsUp = refl

pub config-IsClean : IsClean tenths config
unfolding float_equals
config-IsClean = record {
  pool_floor = omega arith;
  pool_limit = omega arith;
  five = refl;
  adds_up = refl;
  encoding = inr (inr (inl refl));
  content_type = inr refl;
  workers = λ e. omega arith;
}

parse_config-IsClean_example : IsClean tenths config
parse_config-IsClean_example =
    parse_config-IsClean tenths system unmarshalled "config.json" config defaults-AddsUp parsed

-- A generator that counts, and draws the remainder of its count.
abbrev pub counting : Rand
counting = record { State = ℕ; below = λ n s. (s % n, s + 1); uint64 = λ s. (s, s + 1) }

pub counting-IsUniform : IsUniform counting
counting-IsUniform = record { below_lt = λ n s h. grind arith }

-- A chooser that always picks its first choice.
abbrev pub first_choice : Weighted counting
first_choice = record {
  Chooser = String;
  new_chooser = λ choices. elim choices [ [] ↦ err "no choices" | c ∷ cs ↦ ok c.0 ];
  pick_with = λ c s. (c, s);
}

first_choice-IsChooser : IsChooser counting first_choice
first_choice-IsChooser = record { picks = picked }
  where
    picked :
        (choices : List (String × ℤ)) (c : String) (s : ℕ)
        → first_choice.new_chooser choices ≡ ok c
        → Memᴰ c (map (λ p. p.0) choices)
    picked [] c s e = absurd (ground arith)
    picked (p ∷ ps) c s e = Memᴰ.head (ground arith)

config-HasBodies : HasBodies config 1 2
config-HasBodies = record {
  least = refl;
  most = refl;
  ordered = omega arith;
  small = omega arith;
  words = omega arith;
}

abbrev pub percent : ℕ → ℤ
percent p = pos (p * 10)

abbrev pub put_str : List (String × String) → String → String → List (String × String)
put_str attrs k v = (k, v) ∷ attrs

generate_log_record_pool-Gives_example :
    Gives
      (PoolResult tenths percent counting counting-IsUniform first_choice first_choice-IsChooser
        put_str config config-IsClean 1 2 config-HasBodies)
      (generate_log_record_pool tenths percent counting first_choice put_str config)
generate_log_record_pool-Gives_example =
    generate_log_record_pool-Gives tenths percent counting counting-IsUniform first_choice
      first_choice-IsChooser put_str config config-IsClean 1 2 config-HasBodies

abbrev pub templates : List LogRecordTemplate
templates =
    record {
      trace_id = "";
      span_id = "";
      severity_text = "INFO";
      severity_number = 9;
      body = "paid";
      log_attributes = [];
    }
    ∷ []

generate_request-cases_example :
    (IsReady tenths percent counting counting-IsUniform first_choice put_str config 7 templates
      × Gives
          (IsRequest tenths percent counting counting-IsUniform first_choice put_str config 7
            templates)
          (generate_request tenths percent counting first_choice put_str config 7 templates))
    ⊎ ((IsReady tenths percent counting counting-IsUniform first_choice put_str config 7 templates
          → ⊥)
        × Panics (generate_request tenths percent counting first_choice put_str config 7 templates))
generate_request-cases_example =
    generate_request-cases tenths percent counting counting-IsUniform first_choice put_str config 7
      templates
