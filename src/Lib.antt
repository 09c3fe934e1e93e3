-- ===== src/Lib.antt =====
-- argocd-notifier: a service that gathers the webhook events of ArgoCD applications into batches and
-- sends each batch as one notification, which later batches of the same rollout edit in place.
--
-- The parts of the program and the files that model them (paths from the repository's root):
--
--   internal/event          Event         the event, `Validate`
--   internal/config         Config        the configuration, `Load` and `Validate`
--   internal/receiver       Receiver      the webhook's handler, its queue, and the workers
--   internal/aggregator     Aggregator    engine.go: the debounce engine (Aggregator/Engine), clock.go:
--                                         its timers (Aggregator/Clock), session.go: the session
--                                         publisher (Aggregator/Session), its routing
--                                         (Aggregator/Recipients) and its content hash
--                                         (Aggregator/Content)
--   internal/notification   Notification  the notification and `Build` (Notification/Build)
--   internal/registry       Registry      the backends that registered themselves, and the endpoint
--                                         (Registry/Handler)
--   internal/remotebackend  RemoteBackend the adapter for a registered backend, and the resolver
--   api/backendapi          Wire          the messages between the core and a backend
--   internal/slackbackend   SlackBackend  the endpoints of a backend's process, and its heartbeat
--                                         (SlackBackend/Registrar)
--   api/core, api/backendapi Api          the generated code: routes of the servers (Api/Routing), the
--                                         clients (Api/Client, Api/CoreClient)
--   internal/httpx          Http          the middleware and the probes, over what they use of net/http
--   internal/leader         Leader        the elector and the resolver of the leader's address
--                                         (Leader/Resolver)
--   internal/leaderproxy    Leader/Proxy  the handler that serves or sends on, and a cluster of instances
--   cmd/argocd-notifier     Core          the parts put together, the server (Core/Server), calls of
--                                         `Upsert` at the same time (Core/Overlap), and several
--                                         instances behind the proxy (Core/Replicas)
--   cmd/slack-backend       SlackBackend/Process the parts of the Slack backend put together; behind
--                                         the core in SlackBackend/Process/SameMessage
--   internal/slack          Slack         the client of Slack's API (client.go: Slack/Client), the look
--                                         of a message (render.go, template.go: Slack/Render,
--                                         Slack/Template) and the watched template (watcher.go:
--                                         Slack/Watcher)
--
-- Prelude, Text and Maps hold what the parts share: Go strings as lists of bytes, Go maps as lists of
-- entries with distinct keys, and signed integers. Witnesses holds each theorem at a concrete input.
--
-- An event comes in by the handler `Receiver.handle`; a worker takes it out of the queue and calls
-- `ingest` (`Engine.Ingest`), where it waits in a bucket of its group. A timer's callback
-- (`on_timer_fire`) takes all buckets of the group and hands them over by session: the batches that
-- `flush` returns are the calls of `Upsert`. `upsert` merges a batch into its session, builds one
-- notification for each destination (`build`), and sends it by the backend that the resolver finds:
-- for a registered backend `RemoteBackend.notify`, which reaches the handler `SlackBackend.notify` by
-- HTTP, and by it the client `Slack.Client.post` or `update`. Core puts the receiver, the engine, the
-- publisher and the registry together as `main` does: a schedule of Core is any sequence of requests,
-- workers' steps, registrations, passing time, expiries and callbacks.
--
-- State and concurrency. Each locked section is a function from the state before to the state after.
-- Engine/Steps gives the schedules of the engine: events arrive, time passes, a timer that is due
-- moves from the pending to the started ones, where `Stop` does not reach it any more, and a started
-- callback runs. `upsert` is a call that no other call of it interrupts; `begin` and `store_refs` are
-- its two critical sections. Session/Interleave takes every schedule of calls that overlap: each of
-- them passes its first section, later its second one, with whatever references its backends returned.
-- Session/Steps takes one call step by step: each critical section is a step, and so is what the call
-- does for one destination or for one repeat. In Core each call of `Upsert` is over at once; in
-- Core/Overlap each callback goes on in a goroutine of its own, and anything may happen between two
-- steps of it. Receiver takes the schedules of requests and workers, Leader/Resolver those of calls of
-- `Resolve` that overlap. Leader/Proxy/Cluster follows one request from instance to instance, over as
-- many hops as it is told; in between no callback of the elector runs. What a request does where it
-- arrives does not depend on whether its sender still waits, so Cluster and Core/Replicas leave the
-- answer out. Leader/Proxy/Answers follows the answer back, with the time that each proxy waits for
-- headers and the 502 behind it; a request that is sent on more often than it is told gets none.
--
-- Numbers. A time is a reading of the monotonic clock in nanoseconds, a natural number; a duration is
-- a signed integer, and the difference of two times saturates at the bounds of an int64. Generations,
-- timer ids and the identities of session pointers are natural numbers that do not wrap: a wrap of a
-- 64-bit generation would need 2^63 flushes of one group. The product in the client's backoff wraps as
-- an int64. The loop of `Slack.Client.attempts` recurs on the rounds that are left, which `rounds`
-- takes from the number of retries. `Session.Steps.steps`, `Cluster.request` and `Answers.reply` go as
-- many steps as they are told. Every other loop recurs on the list it ranges over.
--
-- Parameters, with what is assumed of them: SHA-256 (any function), the format of a time, the resolver
-- and the backends of the session publisher (any functions on a world that the client of the model
-- chooses), the JSON decoders and encoders, url.Parse and its kin, the HTTP transport, the Kubernetes
-- API and the template engine. Where a theorem needs that a request arrives as it was sent, that JSON is
-- read as it was written, or that the API has an address, it says so as a hypothesis. client-go's elector
-- is a parameter too: its callbacks are steps that come in any order.
--
-- Http has what the program uses of net/http: a response writer whose status is set once, and the
-- multiplexer for patterns without wildcards at clean paths.
--
-- Not modelled: logging (internal/logging), metrics, listeners, signals and the profiler's server; the
-- choice of a range order by Go, which is the order of the list (Notification/Build/Deterministic
-- compares two orders); contexts but for their end in the Slack client; what envconfig makes of the
-- environment; how client-go elects; the parts of the generated code that nothing calls (clients for the
-- other operations, the parameter errors, the embedded API description).
pub mod Prelude
pub mod Text
pub mod Maps
pub mod Http
pub mod Api
pub mod Event
pub mod Leader
pub mod Notification
pub mod Aggregator
pub mod Registry
pub mod Config
pub mod Wire
pub mod RemoteBackend
pub mod SlackBackend
pub mod Slack
pub mod Witnesses
pub mod Receiver
pub mod Core
