-- ===== src/LoadGenerator/Clean.antt =====
-- What a configuration promises that `ParseConfig` returns.
use logarithm.Prelude.{
  String, ◌≡◌, sym, ap, subst, ◌∙◌, ◌≢◌, ◌⊎◌, inl, inr, Bool, true, false, none, some, List, [],
  ◌∷◌, arith, str_eq, eq_iff, if◌then◌else◌, Bool-cases, Bytes, length, Result, ◌>>=◌, ok, err,
}
use logarithm.Prelude.Text.{concat}
use logarithm.Prelude.Int.{pos, ◌≤ℤ◌, negsuc}
use logarithm.LoadGenerator.{
  validate, Float64, System, RawConfig, CleanConfig, sum_from, default_distribution, float_equals,
  clean_encoding, parse_config, clean_grpc_worker_count, clean_pool_size, clean_config,
  clean_severity_distribution, accept, clean_content_type, file_exists,
}

-- What each of the two runners needs.
abbrev pub IsRunnable : (fl : Float64) → RawConfig fl → Type 0
IsRunnable fl raw =
    ((raw.protocol ≡ "http") × (raw.http_method ≢ "") × (raw.http_health_url ≢ ""))
    ⊎ (raw.protocol ≡ "grpc")

-- The values of an encoding and of a content type that the rest of the load generator knows.
abbrev pub KnownEncoding : String → Type 0
KnownEncoding e = (e ≡ "identity") ⊎ (e ≡ "none") ⊎ (e ≡ "gzip") ⊎ (e ≡ "zstd")

abbrev pub KnownType : String → Type 0
KnownType t = (t ≡ "json") ⊎ (t ≡ "proto")

-- Probabilities that add up to 1.
abbrev pub AddsUp : (fl : Float64) → List fl.Float → Type 0
AddsUp fl ps = float_equals fl (sum_from fl fl.zero_float ps) fl.one ≡ true

pub record IsClean (fl : Float64) (c : CleanConfig fl) : Type 0 where
  pub pool_floor : pos 0 ≤ℤ c.pool_size
  pub pool_limit : c.pool_size ≤ℤ pos 1_000_000
  pub five : length c.severity_distribution ≡ 5
  pub adds_up : AddsUp fl c.severity_distribution
  pub encoding : KnownEncoding c.encoding
  pub content_type : KnownType c.content_type
  pub workers : c.protocol ≡ "grpc" → pos 1 ≤ℤ c.grpc_workers

text_cases : (s t : String) → ((str_eq s t ≡ true) × (s ≡ t)) ⊎ ((str_eq s t ≡ false) × (s ≢ t))
text_cases s t = elim (Bool-cases (str_eq s t)) [
  | inl q ↦ inl (q, ground (arith, eq_iff s t))
  | inr q ↦ inr (q, λ e. ground (arith, eq_iff s t))
]

module _ (fl : Float64) (sys : System) where
  clean_distribution :
      (raw : RawConfig fl)
      → AddsUp fl (default_distribution fl)
      → (length (clean_severity_distribution fl raw) ≡ 5)
        × AddsUp fl (clean_severity_distribution fl raw)
  unfolding clean_severity_distribution
  clean_distribution raw d = ground arith

  clean_encoding-KnownEncoding : (raw : RawConfig fl) → KnownEncoding (clean_encoding fl sys raw)
  unfolding clean_encoding
  clean_encoding-KnownEncoding raw =
      let e = sys.lower raw.encoding in
      ground (arith, eq_iff e "", eq_iff e "none", eq_iff e "gzip", eq_iff e "zstd")

  clean_content_type-KnownType : (raw : RawConfig fl) → KnownType (clean_content_type fl sys raw)
  unfolding clean_content_type
  clean_content_type-KnownType raw =
      let t = sys.lower raw.content_type in ground (arith, eq_iff t "json", eq_iff t "proto")

  clean_pool_size_bounds :
      (raw : RawConfig fl)
      → (pos 0 ≤ℤ clean_pool_size fl raw) × (clean_pool_size fl raw ≤ℤ pos 1_000_000)
  unfolding clean_pool_size
  clean_pool_size_bounds raw = elim raw.pool_size [ pos n ↦ ground arith | negsuc n ↦ ground arith ]

  clean_grpc_worker_count_positive :
      (raw : RawConfig fl) → raw.protocol ≡ "grpc" → pos 1 ≤ℤ clean_grpc_worker_count fl raw
  unfolding clean_grpc_worker_count
  clean_grpc_worker_count_positive raw g = ground (arith, eq_iff raw.protocol "grpc")

  clean_config-IsClean :
      (raw : RawConfig fl)
      → AddsUp fl (default_distribution fl)
      → IsClean fl (clean_config fl sys raw)
  unfolding clean_config
  clean_config-IsClean raw d = record {
    pool_floor = (clean_pool_size_bounds raw).0;
    pool_limit = (clean_pool_size_bounds raw).1;
    five = (clean_distribution raw d).0;
    adds_up = (clean_distribution raw d).1;
    encoding = clean_encoding-KnownEncoding raw;
    content_type = clean_content_type-KnownType raw;
    workers = clean_grpc_worker_count_positive raw;
  }

  validate-cases :
      (raw : RawConfig fl)
      → ((validate fl raw ≡ none) × IsRunnable fl raw)
        ⊎ ((e : String) × (validate fl raw ≡ some e) × (IsRunnable fl raw → ⊥))
  unfolding validate
  validate-cases raw = elim (text_cases raw.protocol "http") [
    | inl (q, http) ↦ elim (text_cases raw.http_method "") [
      | inl (r, empty) ↦ inr (
        "http protocol requires 'method' to be set (e.g., POST)",
        rw (validate, q, r),
        λ v. elim v [ inl x ↦ x.1 empty | inr x ↦ other http x ],
      )
      | inr (r, method) ↦ elim (text_cases raw.http_health_url "") [
        | inl (s, empty) ↦ inr (
          "http protocol requires 'healthUrl' to be set",
          rw (validate, q, r, s),
          λ v. elim v [ inl x ↦ x.2 empty | inr x ↦ other http x ],
        )
        | inr (s, url) ↦ inl (rw (validate, q, r, s), inl (http, method, url))
      ]
    ]
    | inr (q, http) ↦ elim (text_cases raw.protocol "grpc") [
      | inl (r, grpc) ↦ inl (rw (validate, q, r), inr grpc)
      | inr (r, grpc) ↦ inr (
        concat ("unsupported protocol: " ∷ raw.protocol ∷ []),
        rw (validate, q, r),
        λ v. elim v [ inl x ↦ http x.0 | inr x ↦ grpc x ],
      )
    ]
  ]
    where
      other : raw.protocol ≡ "http" → raw.protocol ≡ "grpc" → ⊥
      other a b = let e : false ≡ true = ap (λ s. str_eq s "grpc") (sym a ∙ b) in ground arith

  -- From a system whose default probabilities add up to 1: a configuration that one of the runners can
  -- use is accepted, and what is returned is clean; any other is an error.
  pub accept-cases :
      (raw : RawConfig fl)
      → AddsUp fl (default_distribution fl)
      → (IsRunnable fl raw × (c : CleanConfig fl) × (accept fl sys raw ≡ ok c) × IsClean fl c)
        ⊎ ((IsRunnable fl raw → ⊥) × (e : String) × (accept fl sys raw ≡ err e))
  unfolding accept
  accept-cases raw d = elim (validate-cases raw) [
    | inl (q, r) ↦ inl (r, clean_config fl sys raw, rw (accept, q), clean_config-IsClean raw d)
    | inr (e, q, bad) ↦ inr (bad, e, rw (accept, q))
  ]

  -- What a call returns is clean, if it returns no error.
  CleanResult : Result (CleanConfig fl) → Type 0
  CleanResult (err e) = Unit
  CleanResult (ok c) = IsClean fl c

  accept-CleanResult :
      (raw : RawConfig fl) → AddsUp fl (default_distribution fl) → CleanResult (accept fl sys raw)
  unfolding CleanResult
  accept-CleanResult raw d = elim (accept-cases raw d) [
    | inl (r, c, q, clean) ↦ rw q clean
    | inr (bad, e, q) ↦ rw q tt
  ]

  chain-CleanResult {ℓ} :
      {A : Type ℓ} (r : Result A) (next : A → Result (CleanConfig fl))
      → ((a : A) → CleanResult (next a))
      → CleanResult (r >>= next)
  unfolding CleanResult
  chain-CleanResult (err e) next h = tt
  chain-CleanResult (ok a) next h = h a

  if-CleanResult :
      (b : Bool) (r : Result (CleanConfig fl)) (e : String)
      → CleanResult r
      → CleanResult (if b then r else err e)
  unfolding CleanResult
  if-CleanResult true r e h = h
  if-CleanResult false r e h = tt

  -- Whatever the system answers and the file holds, a configuration that is returned is clean, in a
  -- `float64` whose default probabilities add up to 1.
  pub parse_config-IsClean :
      (json_unmarshal : Bytes → Result (RawConfig fl)) (path : String) (c : CleanConfig fl)
      → AddsUp fl (default_distribution fl)
      → parse_config fl sys json_unmarshal path ≡ ok c
      → IsClean fl c
  unfolding parse_config CleanResult
  parse_config-IsClean json_unmarshal path c d h = subst CleanResult h (
      chain-CleanResult sys.getwd _ λ dir.
        chain-CleanResult (file_exists sys (sys.join_path dir path)) _ λ exists.
          if-CleanResult exists _ "config file does not exist" (
            chain-CleanResult (sys.read_file (sys.join_path dir path)) _ λ content.
              chain-CleanResult (json_unmarshal content) _ λ raw. accept-CleanResult raw d))
