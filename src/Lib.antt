-- ===== src/Lib.antt =====
-- memory-leak-reloader: a Kubernetes controller that restarts workloads whose containers leak memory.
--
-- The program. A sampler (internal/controller/sampler.go) records the memory use of the containers of
-- each policy's workload in a store of bounded series (internal/sampling/buffer.go). The reconciler
-- (internal/controller/reconciler.go) is called with a MemoryLeakPolicy (api/v1alpha1). It resolves
-- the policy's configuration (internal/config) and its workload (internal/restart/restart.go), follows
-- a restart that is in flight to its end, and else runs the leak detectors
-- (internal/sampling/detect.go) over the containers that selection.go picks. A breach passes the
-- cooldown and the circuit breaker (internal/restart/breaker.go), the maintenance windows
-- (internal/maintenance/window.go) and the in-memory gate (internal/gate/gate.go). The restart is
-- written into the policy's status (internal/restart/store.go) before the workload is patched, and
-- notifications go out (internal/notify). The usage comes from a data source (internal/datasource), and
-- the expirer (cmd/expirer.go) gives back the slots of rollouts that are stuck or gone.
--
-- The files. Each names its source at its top.
--   Base            Boolean tests, lists, integers, Go's int64, instants, maps, texts
--   Api             api/v1alpha1/memoryleakpolicy_types.go
--   Config          internal/config/config.go: ResolvePolicy is resolve_policy, ForContainer is
--                   for_container
--   Sampling.Buffer internal/sampling/buffer.go: Observe, Samples, Prune, ... on a Store record
--   Sampling.Detect internal/sampling/detect.go: Detect is detect; allExceed, trendLeaking, olsSlope
--   Gate            internal/gate/gate.go: a method that changes the gate returns the new one
--   Restart         internal/restart: Objects and Cluster are the Kubernetes side; Workload and
--                   Resolve are restart.go, Breaker is breaker.go, Store is store.go
--   Maintenance     internal/maintenance/window.go: windows, next opening, the parser (Parse) and the
--                   printed form (Print, Shown); Opening, Reach and Allowed are about the next
--                   opening
--   Notify          internal/notify/notify.go: routing of a notification; Routes and Registry are
--                   routes.go, Sinks and Payload are sinks.go, Slack is slack_blocks.go and chart.go,
--                   Format has the texts, Delivery is Notify
--   Datasource      internal/datasource: Prometheus, Datadog and the metrics server (in Source), with
--                   New, ListUsage and Probe; Scope is about the namespaces that they keep to
--   Controller      internal/controller: Selection, Pods (helpers.go), and reconciler.go as State,
--                   Detection, Restarting and Reconcile; Sampler is sampler.go, a pass sample_once,
--                   whose effect on the store Replay tells without the store
--   Expirer         cmd/expirer.go: tick
--   Profile         internal/profile: capture, the sinks' put, and NewSink
--   System          the state that cmd/main.go gives the three to share; histories of their runs
--   Startup         cmd/main.go: run is Launch.run, in a monad of early returns (Stages); buildNotifier is
--                   Notifications.build_notifier
--   Metrics         internal/metrics, internal/logging and internal/clock
--   Strings         what the program uses of Go's strings package
--   Tests           runs on concrete data, which also show that hypotheses can hold
--
-- How state is modelled. The API server is a parameter: a record Client of its calls, each of which
-- takes the server's state and returns it changed, so that a theorem holds whatever the server answers
-- and whoever else writes. The reconciler's own state is the record State: the gate, the store, the
-- two in-memory maps, and a log of the effects that only leave the program (Events, metrics,
-- notifications, persists with what Persist returned, dispatches), newest first. Reconcile is one
-- function for each stage of its body, every stage calling the next; an early return is a branch that
-- does not. A method under a mutex is one atomic step. Controller.Invariant has the one induction over
-- these stages, from which the theorems on the whole of Reconcile follow; Controller.Failures follows
-- its error paths.
--
-- Numbers. A time.Time is its distance from the zero Time in nanoseconds, without bound; a Duration is
-- an int64, and Sub saturates as in Go. Where the source multiplies or adds int64 values, the model
-- wraps around (Base.Word). A Go float64 is a parameter of the detectors, with its operations.
-- There is fuel in two places: the day count of Maintenance.scan, which is the loop bound of the source,
-- eight days, and the rounds of the loop of humanizeBytes in Notify.Format, 63, where an int64 has at most
-- six (Notify.Format.Units).
--
-- Not modelled. The goroutines of a delivery (Notify
-- sends to one sink after another), the tickers of the sampler and of the expirer (a history of System
-- has their runs in any order, each as one step), the writing of log lines, and generated code:
-- mostly input and output, or not translated yet. The flag package, the environment, the manager,
-- HTTP, JSON, URLs, files, formats, the chart library, the Kubernetes libraries, the template digest
-- and the time zone data are parameters. The reconciler takes the profile capture as one; Startup fills
-- it with Profile's.
pub mod Base
pub mod Strings
pub mod Api
pub mod Config
pub mod Sampling
pub mod Gate
pub mod Restart
pub mod Maintenance
pub mod Datasource
pub mod Controller
pub mod Expirer
pub mod Profile
pub mod System
pub mod Metrics
pub mod Startup
pub mod Notify
pub mod Tests
