-- ===== src/Lib.antt =====
-- The platform orchestrator runner: the gateway that hands commands to remote runners, the executors
-- that run them, the diode relay that carries messages across a one-way link, and the two checks of
-- its releases.
--
-- A remote runner signs agent tokens and asks the gateway for commands. The gateway fetches them from
-- its backend, hands each out with a sealed receipt, and takes the receipt back when the runner
-- acknowledges, retries or rejects the command. The runner turns a command into a Kubernetes job with
-- the gateway's configuration injected; the job's executor runs the infrastructure phases and sends
-- results and logs to the gateway. Where the two sides have no direct connection, the relay's exporter
-- writes signed frames that the importer verifies and publishes. Two programs check
-- a release: one the findings of a scanner in the vendored tool, the other the notices of the modules.
--
-- The files and the code that they model:
-- - Base: lists, results and tests on native numbers, shared by all; Unary: an encoding of bytes that
--   concrete runs use for base64.
-- - Messaging: the envelopes of golib/hmessaging, a library that is a parameter.
-- - GatewayApi.Token: `SignAgentToken` and `VerifyAgentToken` (internal/gatewayapi/auth.go).
-- - GatewayApi.Client and GatewayApi.Outbox: the client of the gateway and its spool of results and logs
--   (internal/gatewayapi/client.go and outbox.go). A call of the outbox is a function of the exchanges
--   so far, the files and the number of file system calls; GatewayApi.Outbox.Spec is the abstract spool
--   that it refines.
-- - Gateway.Keys: the resolvers of public keys (internal/gateway/keys.go).
-- - Gateway.Receipt: `receiptCipher` (internal/gateway/receipt.go).
-- - Gateway.Http: requests, responses and the calls of `Backend` (internal/gateway/server.go and
--   backend.go). A handler is a function of the list of backend calls made so far; the backend, the
--   clock and the source of randomness answer by functions of that list, so that every order of
--   answers and failures is covered.
-- - Gateway.Authentication, Gateway.Commands, Gateway.BoundedReader and Gateway.Uploads: the handlers
--   of internal/gateway/server.go; Gateway.Configuration: its `NewServer`.
-- - Gateway.Backend: the acknowledgements of `NATSBackend`, and Gateway.Consumers: its cache of consumers
--   and the object stores (internal/gateway/backend.go). A load from the cache and a store in it are
--   steps of their own. Gateway.Transport and Gateway.Deliveries: the connection, the consumers and
--   the deliveries of NATS (internal/natstransport/transport.go).
-- - Executor.Remote and Executor.Injection: `executeCommand` and `injectJobGatewayConfiguration`
--   (internal/executor/remote_executor.go); Executor.Scheduling and
--   Executor.Polling: its `monitorJobScheduling` and the loop of `ExecuteRemoteMode`;
--   Executor.Standard: `ExecuteStandardMode` and `executeObservation`
--   (internal/executor/standard_executor.go and observation.go).
-- - Kubernetes: the client of the cluster's jobs (internal/kubernetesjob/client.go), with the monitor of
--   job scheduling over it.
-- - Settings: the checks of the four modes (internal/config/config.go).
-- - Runner.Json, Runner.Patterns, Runner.Observation, Runner.Plan and Runner.Observe: the observation of
--   an environment (internal/runner/observation.go), from the tokens of a plan to the sequence of
--   commands. Runner.Commands and Runner.Diagnostics: the other commands of a runner and what is read
--   from their output (base_runner.go of the same folder); Runner.Outputs, Runner.Artifacts,
--   Runner.Bundle and Runner.Factory: planned outputs, the check of artifacts, the extraction of bundles
--   and `CreateRunner` (output_changes.go, artifact_verification.go, utils.go and runner_factory.go).
-- - CommandLine: the choice of the mode, the results and logs that the program sends and the flusher of
--   the outbox (cmd/runner/main.go).
-- - Vendor: the check of the vendored tool (scripts/vendorcheck/main.go). Vendor.Values reads JSON without
--   duplicate keys, Vendor.Report judges the messages of the scanner, and Vendor.Check the release.
--   Vendor.Report.Messages describes an inventory on its own, without the state of the check.
-- - Notices: the check of the notices of a release and of their receipts (scripts/noticecheck/main.go).
-- - Logs: `LimitedLogsBuffer` (internal/limitedlogsbuffer/limitedlogsbuffer.go).
-- - Diode.Frame, Diode.Attachments, Diode.Importer, Diode.Exporter, Diode.Ledger and Diode.Setup: the
--   relay (internal/diode/relay.go).
--
-- Cryptography, encodings, object stores, the cluster and the file system are parameters. What the
-- code relies on of them is a record of laws, which the modules of tests instantiate.
--
-- Bounds and fuel: the loop of `nextCommand` runs on fuel, for which one round more than the fetches
-- until the deadline is enough; a bounded reader is read on fuel above the length of its body. The
-- exporter's sequence and the limits of frames and logs wrap as their machine integers do. Times are in
-- nanoseconds, and other machine integers stay far below their bounds.
--
-- The monitor of job scheduling runs on fuel for the inspections until its timeout. The two readers of
-- JSON run on fuel of two calls for each token, which is enough for every token sequence that is a
-- value, and the loop over a scanner's messages on fuel of one message for each token. Regular
-- expressions are matched by hand. Maps are lists with one entry for a key, and loops over them run in
-- the order of the list.
--
-- Not modelled: the loading of a bundle over the client and the encryption of strings with age, which only
-- call them; the moves of files and the locks of the relay; the flags, signals and servers of the
-- program; the SSH agent, whose state and protocol are those of golang.org/x/crypto; and the generated
-- API client.
pub mod Base
pub mod Unary
pub mod GatewayApi
pub mod Messaging
pub mod Gateway
pub mod Executor
pub mod Diode
pub mod Logs
pub mod Runner
pub mod Settings
pub mod CommandLine
pub mod Vendor
pub mod Notices
pub mod Kubernetes
