-- ===== src/Storage/Outlook.antt =====
-- `GetLogsStorageOutlook` of backend/internal/storage/clickhouse.go, from the sizes that its query
-- returns.
pub mod Projection
use logarithm.Prelude.{
  ℕ, ◌+◌, ◌-◌, ◌*◌, ◌/◌, ◌%◌, ◌^◌, Bool, true, false, List, [], ◌∷◌, ltb, leb, ◌==◌, if◌then◌else◌,
  length, take,
}

pub record StorageOutlook : Type 0 where
  pub current_total_bytes : ℕ
  pub projected_steady_state_bytes : ℕ
  pub is_steady_state : Bool
  pub days_of_history : ℕ

abbrev pub logs_ttl_days : ℕ
logs_ttl_days = 30

-- A `uint64` sum, which wraps.
unfoldable pub sum_u64 : ℕ → List ℕ → ℕ
sum_u64 total [] = total
sum_u64 total (b ∷ bs) = sum_u64 ((total + b) % 2 ^ 64) bs

-- `usable[:len(usable)-1]`, if there is more than one.
abbrev pub usable : List ℕ → List ℕ
usable partitions =
    if ltb 1 (length partitions) then take (length partitions - 1) partitions else partitions

-- From the sizes of the partitions, one for each day, oldest first.
unfoldable pub get_logs_storage_outlook : List ℕ → StorageOutlook
unfolding sum_u64
get_logs_storage_outlook partitions =
    let current_total = sum_u64 0 partitions in
    let avg_daily_bytes =
      if length partitions == 0
      then 0
      else sum_u64 0 (usable partitions) / length (usable partitions) in
    if leb logs_ttl_days (length partitions)
    then record {
      current_total_bytes = current_total;
      projected_steady_state_bytes = current_total;
      is_steady_state = true;
      days_of_history = length partitions;
    }
    else record {
      current_total_bytes = current_total;
      projected_steady_state_bytes = avg_daily_bytes * logs_ttl_days % 2 ^ 64;
      is_steady_state = false;
      days_of_history = length partitions;
    }
