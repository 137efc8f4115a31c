-- ===== src/Lib.antt =====
-- A model of LokanOS, the runtime of the Lokan Home Hub: services that talk over HTTP, behind a
-- gateway. Seven services, most of the gateway, the crates for metrics, logs, messages and
-- settings, and the tool that bundles the OpenAPI documents are modelled.
--
-- Updater (services/updater) keeps two slots for system images. State.antt has `UpdaterState` of
-- state.rs with its operations, Store.antt the trait `StateStore` of store.rs and its two
-- implementations, Core.antt `UpdaterCore` of core.rs, Bundle.antt the verifier of bundle.rs,
-- Health.antt the poller of health.rs, and Http.antt the handlers of lib.rs. The core asks the
-- verifier before it stages and the poller before it finishes a commit, and saves its state after
-- each change; the two answers are arguments here.
-- RuleEngine (services/rule-engine/src/main.rs) runs rules by a clock: Rules.antt has their data,
-- Schedule.antt `ScheduleState`, Evaluate.antt `evaluate_rule`, Traces.antt the last executions, and
-- Engine.antt the shared state, the handlers and one tick of the scheduler, with Engine/Ticks.antt
-- for ticks that follow one another.
-- Scene (services/scene-svc/src/main.rs) applies a scene to devices: Client.antt has the trait
-- `DeviceRegistryClient` and its HTTP implementation, Executor.antt `SceneExecutor`.
-- Gateway (services/api-gateway) has Rbac.antt for rbac.rs, loading a policy and `authorize`,
-- RateLimit.antt for rate_limit.rs, Errors.antt for error.rs, Commissioning.antt for
-- commissioning.rs with the answers of crates/common-ble, and Guards.antt for the two guards of
-- lib.rs with the audit client of audit.rs: a request passes `rbac_guard`, then `rate_limit_guard`,
-- then its handler.
-- Energy (services/energy-svc/src/main.rs) gives advice by the clock: Energy.antt has its state and
-- operations.
-- Audit (services/audit-log/src/main.rs) has Log.antt for `AuditWriter` and its handlers.
-- Radio (services/radio-coord/src/main.rs) sets the Thread and WiFi networks: Requests.antt has the
-- requests and the checks on them, Map.antt `RadioMapSnapshot` and its changes, Handlers.antt the
-- four handlers with `publish_event`, and Handlers/Service.antt the four as one service.
-- Registry (services/device-registry/src/main.rs) keeps rooms and devices: Database.antt has the
-- rows and the statements, Handlers.antt all handlers and the events that they send.
-- Obs (crates/common-obs/src) is what every service measures and logs with: Histogram.antt has
-- `HistogramValue`, Labels.antt the labels of a sample, Vectors.antt the metrics with labels, and
-- Registry.antt the registry and its text, all of metrics.rs; Log.antt has the JSON lines of lib.rs, and
-- Trace.antt its spans with `TraceState`.
-- Bus (crates/common-msgbus/src/lib.rs) carries messages between services: Messages.antt has the
-- messages and errors, Tokio.antt what the bus in memory uses of its libraries, and Mock.antt
-- `MockBus`, with Mock/Calls.antt for calls that follow one another.
-- Config (crates/common-config/src/lib.rs) reads ports and the settings of the bus from the
-- environment. OasBundle (tools/oas-bundle.rs) joins the OpenAPI documents of the services into one.
-- Prelude has what they share: tests on numbers, `Result` with `?`, maps, texts, and digits.
--
-- An operation on a mutable object returns the new object beside its result. A lock that is held
-- for a whole call makes the call one step; where the source releases it, the parts are separate
-- functions, and a sequence of calls has each of them run to its end. The handlers of the registry
-- hold no lock: handlers that interleave are not covered. Numbers are natural numbers, and u64 sums wrap where the source's do. A HashMap is an
-- association list, and a set is a list; theorems hold for each order. A text that is taken apart is
-- the list of its code points.
--
-- Files, the network, the clock, times of day, JSON, YAML, PEM, base64, SHA-256 and Ed25519 are parameters. Where
-- a theorem needs more of them than their types, the laws are fields of a record (`Files`,
-- `StateStore`, `Stateful`, `Faithful`, `Database`). Floating-point numbers are a parameter too. Events
-- of the registry stand in the order in which they are sent; a subscriber that falls behind the 64
-- places of the channel, and so misses some, is not modelled.
--
-- Fuel stands for rounds in two places. `wait_for_quorum` gets one unit for a round; the fuel is
-- enough once the clock of some round has passed the deadline. `expand_roles` gets one unit for
-- each role that is popped, which is at most the number of pushes: `fuel_of` counts one push for
-- each parent of each of the four roles.
--
-- Not modelled: what of the bytes that the audit log hands to tokio, without a flush, reaches the
-- file; the start of the services, routing, the static metrics, and the logging calls, which
-- change no state that is modelled; in the registry the
-- streams of events to clients; the diagnostic routes of the gateway;
-- presence-svc, the reading of configuration files, and the bus over NATS, which hands on to its
-- client; telemetry-pipe, common-auth, common-mdns and the client of common-ble, which are stubs.
pub mod Prelude
pub mod Obs
pub mod Bus
pub mod Config
pub mod OasBundle
pub mod Radio
pub mod Registry
pub mod Energy
pub mod Updater
pub mod RuleEngine
pub mod Scene
pub mod Gateway
pub mod Audit
