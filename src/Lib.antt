-- ===== src/Lib.antt =====
-- Verification library of Muesli's server: the parts of the Go code that decide what is
-- transcribed, what is sent, what is run and what is asked of a model.
--
-- The parts and their files. Paths are from the repository's root.
--
--   Base: Go's int as ℤ with its wrap-around (Base.Int), net.IP (Base.Ip), strings as lists of code points
--   (Base.Text), numerals (Base.Decimal), lists by native numbers (Base.Lists), the rows of a
--   table (Base.Rows), and Boolean tests (Base.Tests).
--   Streaming: internal/pluginkit/streaming.go, the session that turns audio into segments. The
--   session's fields are the records StreamingSession (what Feed buffers) and Utterance (the rest);
--   Feed, Finish and Wait are feed, finish and wait, and each Locked method has its own function.
--   Streaming.Config has NewStreamingSession's checks and the sample arithmetic. A transcription
--   goroutine is two steps, up to its emit and the hand-over under the mutex; `run` takes calls and
--   goroutine steps in any order.
--   Outbound: internal/api/stream_outbound.go, the mailbox between the transcription's callback and
--   the socket's writer. Enqueue and close are one step each, the writer's loop is split at its locks
--   and selects, and each wake-up channel of capacity one is a Boolean.
--   Relay: internal/api/stream_relay_state.go, which of a stream's events the API passes on.
--   Guard: internal/api/inflight_guard.go, one request at a time for a note.
--   RateLimit: internal/ratelimit/ratelimit.go, the token buckets of clients.
--   Jobs: internal/store/jobs.go with the job of internal/model/model.go and the check constraints
--   of internal/db/migrations. Jobs has EnqueueJob, Jobs.Queue one function per other statement.
--   Execution: internal/execution, which numbers the segments of documents (executor.go), renders
--   them into a prompt (prompt.go, in Execution.Prompt), bounds it (admission.go, in
--   Execution.Admission), calls the agent and checks its answer.
--   Chat: internal/chat/citations.go and context.go, the sources that an answer cites and the
--   block of sources that the model is shown.
--   Listener: internal/api/listener_controller.go, the private listener with its watchers.
--   Listener.Candidates is internal/iosaccess/network_candidates.go, the addresses it may bind.
--   AmiEval: cmd/whisper-cpp-streaming/ami-eval/internal, the reference of a meeting
--   (annotation/annotation.go) and the scores of a detector against it (score/frame.go and
--   utterance.go), with sort.Search written out.
--   Pairing: internal/iosaccess/pairing.go, the payload that a phone scans, its phrase and its checks.
--   People: internal/people/match.go, the person whom a speaker's name stands for.
--   Multitrack: internal/pluginkit/multitrack.go, one channel of a recording for each speaker: the
--   samples are split, each channel that is not silent is transcribed, and the transcripts merged.
--   Webhook: internal/store/webhooks.go, one function per statement on webhooks and deliveries;
--   Webhook.Worker: internal/webhook/deliver.go, where `step` is one call of the delivery worker or
--   of the server, a crash or a restart; Webhook.Address: internal/webhook/validate.go, webhook.go
--   and the dialer of deliver.go, which keep requests away from private addresses.
--
-- How the parts interact: a session emits segments, which the API relays through the mailbox; the
-- jobs of a stored recording are claimed by workers, whose summaries go through Execution.
--
-- Bounds and fuel. `wait` takes fuel, one for each goroutine step, and its theorem gives the
-- number of steps that are enough. `search_loop` takes one more than the length that it searches,
-- which its theorem shows to be enough. `digits` takes as fuel more than the number it prints.
-- Times in the job queue and sample counts in a session are natural numbers without a bound; the
-- products that can leave int64 (duration_samples) and the subtractions of the context budget wrap
-- around as in Go.
--
-- Parameters. The voice detector, the transcriber, the agent plugin, encoding/json, the
-- database's locks and foreign keys, ffmpeg with the test of silence,
-- net/url, net.ParseIP, the Unicode tables and norm.NFD, the interface source, and a webhook's
-- endpoint and resolver are arguments of the definitions. Not modelled: the energy detector and other floating point,
-- list queries, HTTP and websocket handlers, and the rest of the repository.
pub mod Base
pub mod Streaming
pub mod Outbound
pub mod Relay
pub mod Guard
pub mod RateLimit
pub mod Jobs
pub mod Execution
pub mod Listener
pub mod Chat
pub mod Webhook
pub mod AmiEval
pub mod Multitrack
pub mod Pairing
pub mod People
