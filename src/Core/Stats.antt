-- ===== src/Core/Stats.antt =====
-- The statistics of backend/internal/core/metrics.go and storage.go that the dashboard shows.
use logarithm.Prelude.{ℕ, String, Bool, List}
use logarithm.Prelude.Int.{ℤ}
use logarithm.Core.Metrics.{IngestionGraphMetrics}

-- Go's float64, with `uint64` conversion, the operations that the dashboard uses, and `%.0f`.
pub record Floats : Type 1 where
  pub Float : Type 0
  pub of_uint64 : ℕ → Float
  pub times : Float → Float → Float
  pub over : Float → Float → Float
  pub more_than : Float → Float → Bool
  pub print_whole : Float → String

pub record StorageCardData : Type 0 where
  pub value : String
  pub unit : String
  pub delta : String
  pub delta_colour : String

pub record NatsQueueDepthGraphMetrics : Type 0 where
  pub timestamps : List ℤ
  pub num_pending : List ℕ
  pub num_ack_pending : List ℕ
  pub num_redelivered : List ℕ

pub record NatsQueueDepthConsumerInfo : Type 0 where
  pub name : String
  pub stream : String
  pub num_pending : ℕ
  pub num_ack_pending : ℕ
  pub num_redelivered : ℕ

pub record NatsDlqMetrics : Type 0 where
  pub num_messages : ℕ

module _ (fl : Floats) where
  pub record StorageStats : Type 0 where
    pub disk_name : String
    pub free_bytes : ℕ
    pub total_bytes : ℕ
    pub used_percent : fl.Float

  pub record TopServiceErrorsStats : Type 0 where
    pub service_name : String
    pub total_errors : ℕ
    pub error_rate : fl.Float

  pub record LogRateStatistics : Type 0 where
    pub current_rate : fl.Float
    pub avg_rate : fl.Float
    pub ratio : fl.Float

  pub record ErrorRateMetrics : Type 0 where
    pub current_rate : fl.Float

  -- The values that the routes and the event stream print as JSON; `top_response` has them under the
  -- key `data`.
  pub data Value : Type 0 where
    health_value : String → Value
    services_value : List String → Value
    graph_value : IngestionGraphMetrics → Value
    rates_value : LogRateStatistics → Value
    error_rate_value : ErrorRateMetrics → Value
    depth_value : NatsQueueDepthGraphMetrics → Value
    top_value : List TopServiceErrorsStats → Value
    top_response : List TopServiceErrorsStats → Value
    card_value : StorageCardData → Value
    dlq_value : NatsDlqMetrics → Value
