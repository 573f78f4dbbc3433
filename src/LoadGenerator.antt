-- ===== src/LoadGenerator.antt =====
-- load_generator/config/config.go: the configuration of a load test, validated and cleaned.
pub mod Clean
pub mod Random
pub mod Generator
pub mod Payload
pub mod Attack
pub mod Files
use logarithm.Prelude.{
  String, Bool, true, false, not, ◌&&◌, ◌||◌, Option, none, some, List, [], ◌∷◌, str_eq, ◌==◌,
  if◌then◌else◌, Bytes, length, Result, ◌>>=◌, ok, err,
}
use logarithm.Prelude.Int.{ℤ, pos, ltb_ℤ, leb_ℤ}
use logarithm.Prelude.Text.{concat}

pub record KeyValue : Type 0 where
  pub key : String
  pub value : String

pub record BodyTokenFormat : Type 0 where
  pub min_tokens : ℤ
  pub max_tokens : ℤ
  pub dictionary : List String

-- What the code uses of `float64`: its arithmetic, and the numbers 0, 1, 0.1, 0.6 and 1e-9.
pub record Float64 : Type 1 where
  pub Float : Type 0
  pub add : Float → Float → Float
  pub sub : Float → Float → Float
  pub abs : Float → Float
  pub less : Float → Float → Bool
  pub zero_float : Float
  pub one : Float
  pub tenth : Float
  pub six_tenths : Float
  pub epsilon : Float

-- What `os.Lstat` answers: a file, `ErrNotExist`, or another error.
pub data Stat : Type 0 where
  found not_exist : Stat
  stat_failed : String → Stat

-- What the code calls of the system and of other libraries: the current folder, the joined path of two,
-- `Lstat`, and the contents of a file; `lower` is `strings.ToLower`.
pub record System : Type 0 where
  pub getwd : Result String
  pub join_path : String → String → String
  pub lstat : String → Stat
  pub read_file : String → Result Bytes
  pub lower : String → String

-- `FileExists` of load_generator/files/files.go
unfoldable pub file_exists : System → String → Result Bool
file_exists sys path = elim (sys.lstat path) [
  | found ↦ ok true
  | not_exist ↦ ok false
  | stat_failed e ↦ err e
]

module _ (fl : Float64) where
  pub record RawConfig : Type 0 where
    pub seed : ℤ
    pub pool_size : ℤ
    pub protocol : String
    pub grpc_workers : ℤ
    pub http_method : String
    pub http_health_url : String
    pub target_url : String
    pub content_type : String
    pub encoding : String
    pub rps : ℤ
    pub batch_size : ℤ
    pub severity_distribution : List fl.Float
    pub service_names : List String
    pub body_tokens : BodyTokenFormat
    pub log_attributes : List KeyValue
    pub resource_attributes : List KeyValue

  pub record CleanConfig : Type 0 where
    pub seed : ℤ
    pub pool_size : ℤ
    pub protocol : String
    pub grpc_workers : ℤ
    pub http_method : String
    pub http_health_url : String
    pub target_url : String
    pub content_type : String
    pub encoding : String
    pub rps : ℤ
    pub batch_size : ℤ
    pub severity_distribution : List fl.Float
    pub service_names : List String
    pub body_tokens : BodyTokenFormat
    pub log_attributes : List KeyValue
    pub resource_attributes : List KeyValue

  unfoldable pub float_equals : fl.Float → fl.Float → Bool
  float_equals f1 f2 = fl.less (fl.abs (fl.sub f1 f2)) fl.epsilon

  unfoldable pub clean_pool_size : RawConfig → ℤ
  clean_pool_size raw =
      let pool_size = if ltb_ℤ raw.pool_size (pos 0) then pos 1000 else raw.pool_size in
      if ltb_ℤ (pos 1_000_000) raw.pool_size then pos 1_000_000 else pool_size

  -- The loop that adds up the probabilities.
  abbrev pub sum_from : fl.Float → List fl.Float → fl.Float
  sum_from s [] = s
  sum_from s (p ∷ ps) = sum_from (fl.add s p) ps

  abbrev pub default_distribution : List fl.Float
  default_distribution = fl.tenth ∷ fl.six_tenths ∷ fl.tenth ∷ fl.tenth ∷ fl.tenth ∷ []

  unfoldable pub clean_severity_distribution : RawConfig → List fl.Float
  unfolding float_equals
  clean_severity_distribution raw =
      let sum_prob = sum_from fl.zero_float raw.severity_distribution in
      if not (length raw.severity_distribution == 5) || not (float_equals sum_prob fl.one)
      then default_distribution
      else raw.severity_distribution

  unfoldable pub clean_encoding : System → RawConfig → String
  clean_encoding sys raw =
      let encoding = sys.lower raw.encoding in
      if str_eq encoding ""
      then "identity"
      else if str_eq encoding "none" || (str_eq encoding "gzip" || str_eq encoding "zstd")
      then encoding
      else "identity"

  unfoldable pub clean_content_type : System → RawConfig → String
  clean_content_type sys raw =
      let ct = sys.lower raw.content_type in
      if str_eq ct "json" || str_eq ct "proto" then ct else "proto"

  unfoldable pub clean_grpc_worker_count : RawConfig → ℤ
  clean_grpc_worker_count raw =
      if leb_ℤ raw.grpc_workers (pos 0) && str_eq raw.protocol "grpc"
      then pos 5
      else raw.grpc_workers

  unfoldable pub clean_config : System → RawConfig → CleanConfig
  unfolding clean_severity_distribution clean_pool_size clean_encoding clean_content_type
      clean_grpc_worker_count
  clean_config sys raw = record {
    seed = raw.seed;
    pool_size = clean_pool_size raw;
    protocol = raw.protocol;
    grpc_workers = clean_grpc_worker_count raw;
    http_method = raw.http_method;
    http_health_url = raw.http_health_url;
    target_url = raw.target_url;
    content_type = clean_content_type sys raw;
    encoding = clean_encoding sys raw;
    rps = raw.rps;
    batch_size = raw.batch_size;
    severity_distribution = clean_severity_distribution raw;
    service_names = raw.service_names;
    body_tokens = raw.body_tokens;
    log_attributes = raw.log_attributes;
    resource_attributes = raw.resource_attributes;
  }

  -- The error of `validate`; what it only prints a warning about is not an error.
  unfoldable pub validate : RawConfig → Option String
  validate raw =
      if str_eq raw.protocol "http"
      then if str_eq raw.http_method ""
        then some "http protocol requires 'method' to be set (e.g., POST)"
        else if str_eq raw.http_health_url ""
        then some "http protocol requires 'healthUrl' to be set"
        else none
      else if str_eq raw.protocol "grpc"
      then none
      else some (concat ("unsupported protocol: " ∷ raw.protocol ∷ []))

  unfoldable pub accept : System → RawConfig → Result CleanConfig
  unfolding validate clean_config
  accept sys raw = elim (validate raw) [ some e ↦ err e | none ↦ ok (clean_config sys raw) ]

  unfoldable pub parse_config : System → (Bytes → Result RawConfig) → String → Result CleanConfig
  unfolding accept file_exists
  parse_config sys json_unmarshal config_path = do
    dir ← sys.getwd
    let path = sys.join_path dir config_path
    exists ← file_exists sys path
    if exists then read_config path else err "config file does not exist"
    where
      read_config : String → Result CleanConfig
      read_config path = do
        content ← sys.read_file path
        raw ← json_unmarshal content
        accept sys raw
