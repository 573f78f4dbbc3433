-- ===== src/Lib.antt =====
-- Logarithm: a log pipeline in Go. The ingester takes OTLP logs by HTTP and gRPC and publishes their
-- bytes to a NATS stream; the worker consumes the stream in batches, decompresses, decodes and flattens
-- them, and inserts the rows into ClickHouse; the dashboard queries the rows and follows a live tail.
--
-- The parts and their files:
--   Prelude: shared names, Boolean tests, lists, results, integers, texts.
--   Core: backend/internal/core. Core/Logs.antt has the records and UnflattenLogRecords,
--     Core/Metrics.antt NewIngestionMetricsMap and NewIngestionGraphMetrics, Core/Time.antt the times,
--     Core/Stats.antt the other types of metrics.go and storage.go, Core/Encoding.antt MarshalMsg and
--     UnmarshalMsg of flat_log_gen.go, Core/Encoding/Streamed.antt EncodeMsg and DecodeMsg,
--     Core/Encoding/Size.antt Msgsize, over the msgp package as Core/Msgp.antt has it.
--   Pool: backend/internal/pool/pool.go, with New, Get and Put.
--   Transport: backend/internal/transport/nats.go. Transport/Consume.antt has ConsumeLogs,
--     Transport/LiveTail.antt TailLiveLogs, Transport/Retry.antt GetJetstreamConsumer,
--     Transport/Presence.antt the heartbeats of StartPresencePublisher and StartPresenceListener.
--   Ingester: backend/internal/ingester. Ingester/Http.antt has the routes of routes.go,
--     Ingester/Grpc.antt the stream handler of grpc_proxy.go and the server of grpc_server.go.
--     Ingester/Supported.antt joins them with the worker's decoder and decompressor.
--   Worker: backend/internal/worker. Worker/Split.antt has splitMessages, Worker/Delay.antt
--     DelayCalculator, Worker/Decompress.antt decompress.go and decode.go, Worker/Transform.antt Flatten
--     of transform.go, Worker/Process.antt processMessages, Worker/Publish.antt the live tail's queue.
--     Worker/Callback.antt has NewWorkerPool and ConsumeCallback: the handler that the consumer loop calls,
--     with its jobs taking turns in any order. Process runs one job in one go; Callback takes the same job
--     apart into steps on a message, a resource and a log.
--   Config: backend/internal/config/config.go, with validate; Config/Format.antt has format.go.
--   Dashboard: backend/internal/dashboard. Dashboard/Logs.antt has handleLogs of routes.go, with strconv
--     written out and time.Parse as a parameter, Dashboard/Routes.antt the routes for the statistics,
--     Dashboard/Stream.antt the event stream of sse.go, Dashboard/Socket.antt the loop of websocket.go.
--   Storage: backend/internal/storage. Storage/Batch.antt has the columnBatch and the appender,
--     Storage/Store.antt FastInsert, Flush, BatchInsert and insertRecords, Storage/Tables.antt tables.go,
--     Storage/Query.antt the filtered queries, Storage/Stats.antt the statistics, Storage/Outlook.antt
--     GetLogsStorageOutlook, Storage/Seed.antt InitDB with the records of seed.go.
--   Pipeline: backend/cmd/worker/main.go, where it joins ConsumeLogs with the handler of the worker pool,
--     DLQCallback and the delays; Pipeline/Delivered.antt says what an acknowledgement then means.
--   LoadGenerator: load_generator. LoadGenerator.antt has ParseConfig of config/config.go,
--     LoadGenerator/Random.antt and LoadGenerator/Generator.antt generator/generator.go,
--     LoadGenerator/Payload.antt the factory of attack/factory.go with the targeter of runner_http.go and
--     invoke of runner_grpc.go, LoadGenerator/Attack.antt attack of runner_grpc.go with its workers and
--     channels, LoadGenerator/Files.antt GenerateFileName of files/files.go. A draw
--     of random numbers takes the generator's state, and is none where the code panics.
--     Pipeline/Generated.antt and its children follow a request of the load generator through the
--     ingester to the worker, over HTTP and over gRPC.
--   Tests: the theorems at concrete inputs.
--
-- How the code corresponds: a Go function that changes state takes the state and returns it; a panic or
-- an error is a value; a Go map is an association list; a channel is a list with its capacity. The
-- consumer loop, the jobs of a batch, the live tail's workers, the websocket, the event stream, the
-- heartbeats and the workers of a load test are step relations, since a select takes any ready case and
-- goroutines take turns in any order. int, int64 and uint64 are integers whose wrap-around is written
-- where the code can reach it. No definition needs fuel: the loops are over lists or counters.
--
-- Parameters stand for what other libraries do: the random generator, the ClickHouse columns (an
-- interface with laws, which lists meet), the database connection, the codecs, OTLP unmarshalling, the
-- broker's publishing, the mux of net/http (with its law at one pattern), the primitives of msgp (an interface with laws), json.Marshal (which returns no
-- line break) and floats. The dashboard's routes and streams take the answers of the store's queries as an interface.
--
-- Not modelled: logging, contexts' deadlines, jobs that panic, the set-up of streams and servers, the
-- rest of the commands, the frontend, and of the load generator the attack over HTTP, which is a
-- library's, its health checks, its summaries and the writing of its files.
pub mod Pipeline
pub mod Prelude
pub mod Core
pub mod Transport
pub mod Ingester
pub mod Pool
pub mod Storage
pub mod Worker
pub mod Config
pub mod Dashboard
pub mod LoadGenerator
pub mod Tests
