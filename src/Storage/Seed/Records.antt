-- ===== src/Storage/Seed/Records.antt =====
-- The sample records of backend/internal/storage/seed.go.
use logarithm.Prelude.{ℕ, List, [], ◌∷◌}
use logarithm.Core.Time.{Time, zero_time}
use logarithm.Core.Logs.{FlatLogRecord}

-- The clock is read twice for each record, in their order: reading `k`, less some minutes.
module _ (ago : ℕ → ℕ → Time) where
  abbrev test_record1 : FlatLogRecord
  test_record1 = record {
    timestamp = ago 0 60;
    observed_timestamp = ago 1 60;
    inserted_at = zero_time;
    trace_id = "4bf92f3577b34da6a3ce929d0e0e4736";
    span_id = "00f067aa0ba902b7";
    severity_text = "ERROR";
    severity_number = 17;
    service_name = "test-service1";
    body = "Failed to process transaction due to timeout";
    body_type = "string";
    scope_name = "1.0.0";
    scope_version = "manual-tester";
    log_attr_keys = "http.method" ∷ "http.status_code" ∷ "retry_count" ∷ [];
    log_attr_values = "POST" ∷ "504" ∷ "3" ∷ [];
    res_attr_keys = "host.name" ∷ "os.type" ∷ "service.version" ∷ [];
    res_attr_values = "prod-server-1" ∷ "linux" ∷ "1.2.0" ∷ [];
  }

  abbrev test_record2 : FlatLogRecord
  test_record2 = record {
    timestamp = ago 2 120;
    observed_timestamp = ago 3 120;
    inserted_at = zero_time;
    trace_id = "4bf92f3577b37da6a3ce929d0f0e4736";
    span_id = "01f067ef0ba402b7";
    severity_text = "WARNING";
    severity_number = 13;
    service_name = "test-service2";
    body = "extra information";
    body_type = "string";
    scope_name = "1.0.0";
    scope_version = "manual-tester";
    log_attr_keys = "http.method" ∷ "http.status_code" ∷ "retry_count" ∷ [];
    log_attr_values = "POST" ∷ "504" ∷ "3" ∷ [];
    res_attr_keys = "host.name" ∷ "os.type" ∷ "service.version" ∷ [];
    res_attr_values = "prod-server-2" ∷ "windows" ∷ "2.0.1" ∷ [];
  }

  abbrev test_record3 : FlatLogRecord
  test_record3 = record {
    timestamp = ago 4 0;
    observed_timestamp = ago 5 0;
    inserted_at = zero_time;
    trace_id = "8bf92f3577b34da6d3ce921d0e0e4536";
    span_id = "02y067aa0ba902h3";
    severity_text = "INFO";
    severity_number = 9;
    service_name = "test-service3";
    body = "Just some test body";
    body_type = "string";
    scope_name = "1.0.0";
    scope_version = "manual-tester";
    log_attr_keys = "http.method" ∷ "http.status_code" ∷ "retry_count" ∷ [];
    log_attr_values = "GET" ∷ "500" ∷ "3" ∷ [];
    res_attr_keys = "host.name" ∷ "os.type" ∷ "service.version" ∷ [];
    res_attr_values = "prod-server-3" ∷ "linux" ∷ "3.1.0" ∷ [];
  }

  abbrev test_record4 : FlatLogRecord
  test_record4 = record {
    timestamp = ago 6 30;
    observed_timestamp = ago 7 30;
    inserted_at = zero_time;
    trace_id = "1cf92f3577b34da6a3ce929d0e0e1234";
    span_id = "10f067aa0ba902c1";
    severity_text = "INFO";
    severity_number = 9;
    service_name = "test-service1";
    body = "User authentication successful";
    body_type = "string";
    scope_name = "1.0.0";
    scope_version = "manual-tester";
    log_attr_keys = "http.method" ∷ "http.status_code" ∷ "user.id" ∷ [];
    log_attr_values = "POST" ∷ "200" ∷ "usr-991" ∷ [];
    res_attr_keys = "host.name" ∷ "os.type" ∷ "service.version" ∷ [];
    res_attr_values = "prod-server-1" ∷ "linux" ∷ "1.2.0" ∷ [];
  }

  abbrev test_record5 : FlatLogRecord
  test_record5 = record {
    timestamp = ago 8 45;
    observed_timestamp = ago 9 45;
    inserted_at = zero_time;
    trace_id = "2df92f3577b34da6a3ce929d0e0e5678";
    span_id = "11f067aa0ba902c2";
    severity_text = "ERROR";
    severity_number = 17;
    service_name = "test-service2";
    body = "Database connection pool exhausted";
    body_type = "string";
    scope_name = "1.0.0";
    scope_version = "manual-tester";
    log_attr_keys = "db.system" ∷ "db.name" ∷ "error.type" ∷ [];
    log_attr_values = "postgresql" ∷ "orders_db" ∷ "ConnectionPoolError" ∷ [];
    res_attr_keys = "host.name" ∷ "os.type" ∷ "service.version" ∷ [];
    res_attr_values = "prod-server-2" ∷ "windows" ∷ "2.0.1" ∷ [];
  }

  abbrev test_record6 : FlatLogRecord
  test_record6 = record {
    timestamp = ago 10 180;
    observed_timestamp = ago 11 180;
    inserted_at = zero_time;
    trace_id = "3ef92f3577b34da6a3ce929d0e0e9012";
    span_id = "12f067aa0ba902c3";
    severity_text = "WARNING";
    severity_number = 13;
    service_name = "test-service3";
    body = "Memory usage above 80% threshold";
    body_type = "string";
    scope_name = "1.0.0";
    scope_version = "manual-tester";
    log_attr_keys = "mem.used_mb" ∷ "mem.total_mb" ∷ "mem.percent" ∷ [];
    log_attr_values = "6554" ∷ "8192" ∷ "80.5" ∷ [];
    res_attr_keys = "host.name" ∷ "os.type" ∷ "service.version" ∷ [];
    res_attr_values = "prod-server-3" ∷ "linux" ∷ "3.1.0" ∷ [];
  }

  abbrev test_record7 : FlatLogRecord
  test_record7 = record {
    timestamp = ago 12 240;
    observed_timestamp = ago 13 240;
    inserted_at = zero_time;
    trace_id = "4ff92f3577b34da6a3ce929d0e0e3456";
    span_id = "13f067aa0ba902c4";
    severity_text = "INFO";
    severity_number = 9;
    service_name = "test-service1";
    body = "Cache invalidation completed";
    body_type = "string";
    scope_name = "1.0.0";
    scope_version = "manual-tester";
    log_attr_keys = "cache.keys_evicted" ∷ "cache.size_mb" ∷ "cache.hit_rate" ∷ [];
    log_attr_values = "142" ∷ "512" ∷ "0.87" ∷ [];
    res_attr_keys = "host.name" ∷ "os.type" ∷ "service.version" ∷ [];
    res_attr_values = "prod-server-1" ∷ "linux" ∷ "1.2.0" ∷ [];
  }

  abbrev test_record8 : FlatLogRecord
  test_record8 = record {
    timestamp = ago 14 300;
    observed_timestamp = ago 15 300;
    inserted_at = zero_time;
    trace_id = "5af92f3577b34da6a3ce929d0e0e7890";
    span_id = "14f067aa0ba902c5";
    severity_text = "ERROR";
    severity_number = 17;
    service_name = "test-service2";
    body = "Payment gateway returned unexpected response";
    body_type = "string";
    scope_name = "1.0.0";
    scope_version = "manual-tester";
    log_attr_keys = "http.method" ∷ "http.status_code" ∷ "payment.gateway" ∷ [];
    log_attr_values = "POST" ∷ "502" ∷ "stripe" ∷ [];
    res_attr_keys = "host.name" ∷ "os.type" ∷ "service.version" ∷ [];
    res_attr_values = "prod-server-2" ∷ "windows" ∷ "2.0.1" ∷ [];
  }

  abbrev test_record9 : FlatLogRecord
  test_record9 = record {
    timestamp = ago 16 360;
    observed_timestamp = ago 17 360;
    inserted_at = zero_time;
    trace_id = "6bf92f3577b34da6a3ce929d0e0e2345";
    span_id = "15f067aa0ba902c6";
    severity_text = "INFO";
    severity_number = 9;
    service_name = "test-service3";
    body = "Scheduled job completed successfully";
    body_type = "string";
    scope_name = "1.0.0";
    scope_version = "manual-tester";
    log_attr_keys = "job.name" ∷ "job.duration_ms" ∷ "job.records_processed" ∷ [];
    log_attr_values = "daily-report" ∷ "4521" ∷ "10200" ∷ [];
    res_attr_keys = "host.name" ∷ "os.type" ∷ "service.version" ∷ [];
    res_attr_values = "prod-server-3" ∷ "linux" ∷ "3.1.0" ∷ [];
  }

  abbrev test_record10 : FlatLogRecord
  test_record10 = record {
    timestamp = ago 18 420;
    observed_timestamp = ago 19 420;
    inserted_at = zero_time;
    trace_id = "7cf92f3577b34da6a3ce929d0e0e6789";
    span_id = "16f067aa0ba902c7";
    severity_text = "WARNING";
    severity_number = 13;
    service_name = "test-service1";
    body = "Retrying failed request to downstream service";
    body_type = "string";
    scope_name = "1.0.0";
    scope_version = "manual-tester";
    log_attr_keys = "http.method" ∷ "http.url" ∷ "retry.attempt" ∷ [];
    log_attr_values = "GET" ∷ "http://inventory-svc/api/stock" ∷ "2" ∷ [];
    res_attr_keys = "host.name" ∷ "os.type" ∷ "service.version" ∷ [];
    res_attr_values = "prod-server-1" ∷ "linux" ∷ "1.2.0" ∷ [];
  }

  abbrev test_record11 : FlatLogRecord
  test_record11 = record {
    timestamp = ago 20 480;
    observed_timestamp = ago 21 480;
    inserted_at = zero_time;
    trace_id = "8df92f3577b34da6a3ce929d0e0e1357";
    span_id = "17f067aa0ba902c8";
    severity_text = "ERROR";
    severity_number = 17;
    service_name = "test-service2";
    body = "Unhandled exception in order processing pipeline";
    body_type = "string";
    scope_name = "1.0.0";
    scope_version = "manual-tester";
    log_attr_keys = "exception.type" ∷ "exception.message" ∷ "order.id" ∷ [];
    log_attr_values = "NullPointerException" ∷ "order item is nil" ∷ "ord-77342" ∷ [];
    res_attr_keys = "host.name" ∷ "os.type" ∷ "service.version" ∷ [];
    res_attr_values = "prod-server-2" ∷ "windows" ∷ "2.0.1" ∷ [];
  }

  abbrev test_record12 : FlatLogRecord
  test_record12 = record {
    timestamp = ago 22 540;
    observed_timestamp = ago 23 540;
    inserted_at = zero_time;
    trace_id = "9ef92f3577b34da6a3ce929d0e0e2468";
    span_id = "18f067aa0ba902c9";
    severity_text = "INFO";
    severity_number = 9;
    service_name = "test-service3";
    body = "New user registered successfully";
    body_type = "string";
    scope_name = "1.0.0";
    scope_version = "manual-tester";
    log_attr_keys = "user.id" ∷ "user.email" ∷ "user.country" ∷ [];
    log_attr_values = "usr-1124" ∷ "newuser@example.com" ∷ "SG" ∷ [];
    res_attr_keys = "host.name" ∷ "os.type" ∷ "service.version" ∷ [];
    res_attr_values = "prod-server-3" ∷ "linux" ∷ "3.1.0" ∷ [];
  }

  abbrev test_record13 : FlatLogRecord
  test_record13 = record {
    timestamp = ago 24 600;
    observed_timestamp = ago 25 600;
    inserted_at = zero_time;
    trace_id = "aaf92f3577b34da6a3ce929d0e0e3579";
    span_id = "19f067aa0ba902d1";
    severity_text = "WARNING";
    severity_number = 13;
    service_name = "test-service1";
    body = "Disk usage approaching limit on data volume";
    body_type = "string";
    scope_name = "1.0.0";
    scope_version = "manual-tester";
    log_attr_keys = "disk.path" ∷ "disk.used_gb" ∷ "disk.total_gb" ∷ [];
    log_attr_values = "/data" ∷ "92" ∷ "100" ∷ [];
    res_attr_keys = "host.name" ∷ "os.type" ∷ "service.version" ∷ [];
    res_attr_values = "prod-server-1" ∷ "linux" ∷ "1.2.0" ∷ [];
  }

  abbrev test_record14 : FlatLogRecord
  test_record14 = record {
    timestamp = ago 26 660;
    observed_timestamp = ago 27 660;
    inserted_at = zero_time;
    trace_id = "bbf92f3577b34da6a3ce929d0e0e4680";
    span_id = "20f067aa0ba902d2";
    severity_text = "ERROR";
    severity_number = 17;
    service_name = "test-service2";
    body = "TLS certificate validation failed";
    body_type = "string";
    scope_name = "1.0.0";
    scope_version = "manual-tester";
    log_attr_keys = "tls.peer" ∷ "tls.error" ∷ "http.url" ∷ [];
    log_attr_values =
        "api.partner.com" ∷ "certificate expired" ∷ "https://api.partner.com/v2/sync" ∷ [];
    res_attr_keys = "host.name" ∷ "os.type" ∷ "service.version" ∷ [];
    res_attr_values = "prod-server-2" ∷ "windows" ∷ "2.0.1" ∷ [];
  }

  abbrev test_record15 : FlatLogRecord
  test_record15 = record {
    timestamp = ago 28 720;
    observed_timestamp = ago 29 720;
    inserted_at = zero_time;
    trace_id = "ccf92f3577b34da6a3ce929d0e0e5791";
    span_id = "21f067aa0ba902d3";
    severity_text = "INFO";
    severity_number = 9;
    service_name = "test-service3";
    body = "Feature flag evaluated successfully";
    body_type = "string";
    scope_name = "1.0.0";
    scope_version = "manual-tester";
    log_attr_keys = "feature.flag" ∷ "feature.enabled" ∷ "user.id" ∷ [];
    log_attr_values = "new-checkout-flow" ∷ "true" ∷ "usr-4421" ∷ [];
    res_attr_keys = "host.name" ∷ "os.type" ∷ "service.version" ∷ [];
    res_attr_values = "prod-server-3" ∷ "linux" ∷ "3.1.0" ∷ [];
  }

  abbrev pub test_data : List FlatLogRecord
  test_data =
      test_record1 ∷ test_record2 ∷ test_record3 ∷ test_record4 ∷ test_record5 ∷ test_record6
      ∷ test_record7 ∷ test_record8 ∷ test_record9 ∷ test_record10 ∷ test_record11 ∷ test_record12
      ∷ test_record13 ∷ test_record14 ∷ test_record15 ∷ []
