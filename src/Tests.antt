-- ===== src/Tests.antt =====
-- Runs of the theorems at concrete inputs, part by part of the program.
mod Base
mod Transport
mod Consume
mod Worker
mod Storage
mod Ingester
mod Process
mod Publish
mod Config
mod Dashboard
mod Callback
mod Encoding
mod Stream
mod Pipeline
mod Stats
mod LoadGenerator
mod Attack
mod Generated
mod Presence
mod Files
mod Streamed
mod Size
