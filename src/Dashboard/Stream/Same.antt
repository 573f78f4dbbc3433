-- ===== src/Dashboard/Stream/Same.antt =====
-- The event stream shows what the routes show.
use logarithm.Prelude.{
  ℕ, ◌+◌, ◌-◌, ◌%◌, ◌^◌, subst, String, ◌≡◌, refl, ◌≢◌, ◌⊎◌, inl, inr, Option, none, List, [], ◌∷◌,
  Result, Result-cases, ok, err, Bytes,
}
use logarithm.Core.Stats.{Floats, Value, StorageStats, StorageCardData, card_value, dlq_value}
use logarithm.Dashboard.Routes.{
  Response, http_error, write_json, show_result, handle_storage_info, handle_nats_dlq_info, Stats,
  runway, dlq_stream_name,
}
use logarithm.Dashboard.Stream.{
  Written, send_frame, write_sse_event, one_result, write_nats_dlq_info_event,
  write_storage_info_event, write_storage_card, stream_runway,
}
use logarithm.Storage.Outlook.{StorageOutlook}

-- An event that is sent has the body of the reply as its payload, and its stream goes on; or the reply
-- is the error 500, nothing is sent, and the stream has an error.
abbrev pub Agrees : Response → String → Written → Written × Option String → Type 0
Agrees r event s out =
    ((r.status ≡ 200) × (out ≡ send_frame none event r.body s))
    ⊎ ((r ≡ http_error "Internal Server Error" 500) × (out.0 ≡ s) × (out.1 ≢ none))

module _ (fl : Floats) (marshal : Value fl → Result Bytes) where
  write_json-Agrees :
      (event : String) (v : Value fl) (s : Written)
      → Agrees (write_json fl marshal 200 v) event s (write_sse_event fl marshal none event v s)
  unfolding write_json write_sse_event
  write_json-Agrees event v s = elim (Result-cases (marshal v)) [
    | inl (body, e) ↦ rw (e, write_json, write_sse_event) (inl (refl, refl))
    | inr (text, e) ↦ rw (e, write_json, write_sse_event) (inr (refl, refl, λ p. cc))
  ]

  one_result-Agrees {ℓ} :
      {A : Type ℓ} (a : Result A) (show : A → Value fl) (event : String) (s : Written)
      → Agrees
          (show_result fl marshal a show)
          event
          s
          (one_result fl marshal a (λ v. write_sse_event fl marshal none event (show v)) s)
  unfolding show_result one_result
  one_result-Agrees (err e) show event s = inr (refl, refl, λ p. cc)
  one_result-Agrees (ok a) show event s = write_json-Agrees event (show a) s

  -- The two copies of the computation agree.
  stream_runway-runway :
      (free used projected : ℕ)
      → stream_runway fl marshal free used projected ≡ runway fl marshal free used projected
  unfolding stream_runway runway
  stream_runway-runway free used projected = refl

  storage_info-Agrees :
      (stats : Result (List (StorageStats fl))) (outlook : Result StorageOutlook) (q : Stats fl)
      (s : Written)
      → Agrees
          (handle_storage_info fl marshal
            (record q { get_storage_stats = stats; get_logs_storage_outlook = outlook }))
          "storage-info"
          s
          (write_storage_info_event fl marshal
            (record q { get_storage_stats = stats; get_logs_storage_outlook = outlook })
            none
            s)
  unfolding handle_storage_info write_storage_info_event write_storage_card one_result
  storage_info-Agrees (err e) outlook q s = inr (refl, refl, λ p. cc)
  storage_info-Agrees (ok []) outlook q s = inr (refl, refl, λ p. cc)
  storage_info-Agrees (ok (disk ∷ disks)) (err e) q s = inr (refl, refl, λ p. cc)
  storage_info-Agrees (ok (disk ∷ disks)) (ok outlook) q s =
      let used = (disk.total_bytes + 2 ^ 64 - disk.free_bytes) % 2 ^ 64 in
      subst
        (λ card.
          Agrees (write_json fl marshal 200 (card_value (shown used card))) "storage-info" s (
            write_sse_event fl marshal none "storage-info"
              (card_value (
                shown used (
                  stream_runway fl marshal disk.free_bytes used
                    outlook.projected_steady_state_bytes)))
              s))
        (stream_runway-runway disk.free_bytes used outlook.projected_steady_state_bytes)
        (write_json-Agrees "storage-info" _ s)
    where
      shown : ℕ → String × String → StorageCardData
      shown used (delta, colour) = record {
        value = fl.print_whole (
            fl.times (fl.over (fl.of_uint64 used) (fl.of_uint64 disk.total_bytes))
              (fl.of_uint64 100));
        unit = "%";
        delta = delta;
        delta_colour = colour;
      }

  -- At the same answers of the store and the broker, and where the write of the event succeeds, the event
  -- `storage-info` shows what the route /api/storage-info replies, and `nats-dlq-info` what
  -- /api/nats-dlq-info does: the body of the reply 200, or else the reply is the error 500, nothing is
  -- sent, and the stream has an error.
  pub write_storage_info_event-handle_storage_info :
      (q : Stats fl) (s : Written)
      → Agrees
          (handle_storage_info fl marshal q)
          "storage-info"
          s
          (write_storage_info_event fl marshal q none s)
        × Agrees
            (handle_nats_dlq_info fl marshal q)
            "nats-dlq-info"
            s
            (write_nats_dlq_info_event fl marshal q none s)
  unfolding handle_nats_dlq_info write_nats_dlq_info_event
  write_storage_info_event-handle_storage_info q s = (
    storage_info-Agrees q.get_storage_stats q.get_logs_storage_outlook q s,
    one_result-Agrees (q.get_dlq_stream_info dlq_stream_name) dlq_value "nats-dlq-info" s,
  )
