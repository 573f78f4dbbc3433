-- ===== src/Storage/Stats/Scans.antt =====
-- What the loops over the rows of an answer return.
use logarithm.Prelude.{
  String, ◌≡◌, refl, sym, ap, subst, ◌∙◌, ◌≢◌, ◌⊎◌, inl, inr, Option, none, some, List, [], ◌∷◌,
  ◌++◌, map, Memᴰ, Result, ok, err,
}
use mathlib.Core.List.{append_assoc, append-nil}
use logarithm.Prelude.Int.{ℤ}
use logarithm.Core.Time.{Time}
use logarithm.Core.Stats.{Floats, NatsQueueDepthGraphMetrics}
use logarithm.Storage.Tables.{Tables, table, table_jetstream_consumer_metrics}
use logarithm.Storage.Stats.{
  DepthRow, Driver, append_depth, scan_depths, get_nats_queue_depth_metrics, depths_query,
  named_int,
}

module _ (fl : Floats) (db : Driver fl) (tables : Tables) (unix_milli : Time → ℤ) where
  -- The four columns of some rows, behind those that are there.
  abbrev pub with_columns : NatsQueueDepthGraphMetrics → List DepthRow → NatsQueueDepthGraphMetrics
  with_columns response rows = record {
    timestamps = response.timestamps ++ map (λ r. unix_milli r.timestamp) rows;
    num_pending = response.num_pending ++ map (λ r. r.num_pending) rows;
    num_ack_pending = response.num_ack_pending ++ map (λ r. r.num_ack_pending) rows;
    num_redelivered = response.num_redelivered ++ map (λ r. r.num_redelivered) rows;
  }

  -- All rows are scanned and make up the columns, or there is an error, of a row or of the iteration.
  abbrev pub Scanned :
      NatsQueueDepthGraphMetrics
      → List (Result DepthRow)
      → Option String
      → Result NatsQueueDepthGraphMetrics
      → Type 0
  Scanned response rows failure result =
      ((xs : List DepthRow) × (rows ≡ map ok xs)
        × (failure ≡ none)
        × (result ≡ ok (with_columns response xs)))
      ⊎ ((e : String) × (result ≡ err e)
          × ((failure ≢ none) ⊎ ((e' : String) × Memᴰ (err e') rows)))

  with_columns_nil : (response : NatsQueueDepthGraphMetrics) → with_columns response [] ≡ response
  with_columns_nil response = λ i. record {
    timestamps = append-nil response.timestamps i;
    num_pending = append-nil response.num_pending i;
    num_ack_pending = append-nil response.num_ack_pending i;
    num_redelivered = append-nil response.num_redelivered i;
  }

  with_columns_cons :
      (response : NatsQueueDepthGraphMetrics) (r : DepthRow) (xs : List DepthRow)
      → with_columns (append_depth fl db tables unix_milli r response) xs
        ≡ with_columns response (r ∷ xs)
  with_columns_cons response r xs = λ i. record {
    timestamps =
        append_assoc response.timestamps (unix_milli r.timestamp ∷ [])
          (map (λ r. unix_milli r.timestamp) xs) i;
    num_pending =
        append_assoc response.num_pending (r.num_pending ∷ []) (map (λ r. r.num_pending) xs) i;
    num_ack_pending =
        append_assoc response.num_ack_pending (r.num_ack_pending ∷ [])
          (map (λ r. r.num_ack_pending) xs) i;
    num_redelivered =
        append_assoc response.num_redelivered (r.num_redelivered ∷ [])
          (map (λ r. r.num_redelivered) xs) i;
  }

  scan_depths-Scanned :
      (rows : List (Result DepthRow)) (response : NatsQueueDepthGraphMetrics)
      (failure : Option String)
      → Scanned response rows failure (scan_depths fl db tables unix_milli response rows failure)
  unfolding scan_depths
  scan_depths-Scanned [] response none =
      inl ([], refl, refl, ap ok (sym (with_columns_nil response)))
  scan_depths-Scanned [] response (some e) = inr (_, refl, inl (λ p. cc))
  scan_depths-Scanned (err e ∷ rows) response failure = inr (_, refl, inr (e, Memᴰ.head refl))
  scan_depths-Scanned (ok r ∷ rows) response failure =
      elim (scan_depths-Scanned rows (append_depth fl db tables unix_milli r response) failure) [
        | inl (xs, all, fine, result) ↦
            inl (
              r ∷ xs,
              ap (λ l. ok r ∷ l) all,
              fine,
              result ∙ ap ok (with_columns_cons response r xs),
            )
        | inr (e, result, inl bad) ↦ inr (e, result, inl bad)
        | inr (e, result, inr (e', m)) ↦ inr (e, result, inr (e', Memᴰ.tail m))
      ]

  depths_answered :
      (tbl : String) (minutes : ℤ) (rows : List (Result DepthRow)) (failure : Option String)
      → table tables table_jetstream_consumer_metrics ≡ ok tbl
      → db.query_depths (depths_query tbl) (named_int "duration" minutes ∷ []) ≡ ok (rows, failure)
      → get_nats_queue_depth_metrics fl db tables unix_milli minutes
        ≡ scan_depths fl db tables unix_milli
            (record {
              timestamps = [];
              num_pending = [];
              num_ack_pending = [];
              num_redelivered = [];
            })
            rows
            failure
  unfolding get_nats_queue_depth_metrics
  depths_answered tbl minutes rows failure known answered =
      rw (get_nats_queue_depth_metrics, known, answered)

  -- With a known table, where the query is answered with some rows, the four lists of the result are the
  -- columns of all the rows, in their order, so that they have one length; or else a row could not be
  -- scanned or the iteration failed, and the result is an error.
  pub get_nats_queue_depth_metrics-Scanned :
      (tbl : String) (minutes : ℤ) (rows : List (Result DepthRow)) (failure : Option String)
      → table tables table_jetstream_consumer_metrics ≡ ok tbl
      → db.query_depths (depths_query tbl) (named_int "duration" minutes ∷ []) ≡ ok (rows, failure)
      → Scanned
          (record { timestamps = []; num_pending = []; num_ack_pending = []; num_redelivered = [] })
          rows
          failure
          (get_nats_queue_depth_metrics fl db tables unix_milli minutes)
  get_nats_queue_depth_metrics-Scanned tbl minutes rows failure known answered =
      subst
        (Scanned
          (record { timestamps = []; num_pending = []; num_ack_pending = []; num_redelivered = [] })
          rows failure)
        (sym (depths_answered tbl minutes rows failure known answered))
        (scan_depths-Scanned rows _ failure)
