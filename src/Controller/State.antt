-- ===== src/Controller/State.antt =====
-- The reconciler's surroundings and state (internal/controller/reconciler.go, Reconciler): what it is
-- configured with, and what it changes. Metrics, Events and notifications are only written, so they
-- are a log, newest first.
use memory_leak_reloader.Base.{ℕ, String, Bool, Option, none, some, List, ◌∷◌}
use memory_leak_reloader.Base.Int.{pos}
use memory_leak_reloader.Base.Map.{Map}
use memory_leak_reloader.Base.Time.{Time, Duration}
use memory_leak_reloader.Api.{MemoryLeakPolicy, MemoryLeakPolicyStatus}
use memory_leak_reloader.Config.{Defaults}
use memory_leak_reloader.Gate.{Gate, inflight_count, release}
use memory_leak_reloader.Maintenance.{Calendar, Window}
use memory_leak_reloader.Notify.{Notifier, Event, Sink}
use memory_leak_reloader.Restart.Objects.{Object}
use memory_leak_reloader.Restart.Cluster.{Error, Result, Client, Library}
use memory_leak_reloader.Restart.Workload.{Kinds}
use memory_leak_reloader.Restart.Store.{persist}
use memory_leak_reloader.Restart.Resolve.{dispatch}
use memory_leak_reloader.Sampling.Buffer.{Store}
use memory_leak_reloader.Sampling.Detect.{Float64}

-- Event reasons.
abbrev pub reason_breach_detected : String
reason_breach_detected = "BreachDetected"

abbrev pub reason_would_restart : String
reason_would_restart = "WouldRestart"

abbrev pub reason_restart_triggered : String
reason_restart_triggered = "RestartTriggered"

abbrev pub reason_restart_deferred : String
reason_restart_deferred = "RestartDeferred"

abbrev pub reason_profile_captured : String
reason_profile_captured = "ProfileCaptured"

abbrev pub reason_circuit_breaker : String
reason_circuit_breaker = "CircuitBreakerTripped"

abbrev pub reason_pod_unmonitorable : String
reason_pod_unmonitorable = "PodUnmonitorable"

abbrev pub reason_invalid_config : String
reason_invalid_config = "InvalidConfig"

pub data Effect : Type 0 where
  -- Recorder.Eventf, by its reason.
  event : String → Effect
  -- State.Persist of a status, with the error that it returned, and Workload.Dispatch.
  persists : MemoryLeakPolicyStatus → Option Error → Effect
  dispatches : String → Effect
  delivers : Event → List Sink → Effect
  -- The metrics RolloutsSkipped, RolloutsTriggered and ProfileCaptures by their label,
  -- ThresholdBreaches, RolloutsDeferred, and the gauge InflightRollouts.
  skips triggers captures : String → Effect
  breaches defers : Effect
  inflight_gauge : ℕ → Effect

pub record CaptureResult : Type 0 where
  pub uri : String
  pub size : ℕ

-- Capturer.Capture at a pod's address, a path and a key: HTTP and the profile sink.
abbrev pub Capturer : Type 0 → Type 0
Capturer W = String → String → String → W → Result CaptureResult × W

pub record Reconciler (L F W : Type 0) : Type 0 where
  pub client : Client W
  pub lib : Library
  pub cal : Calendar L
  pub fl : Float64 F
  pub clock : W → Time  -- Clock.Now
  pub stamp : Time → String  -- the time as captureProfile writes it into a key
  pub defaults : Defaults
  pub kinds : Kinds
  pub windows : List (Window L)
  pub capturer : Option (Capturer W)
  pub profile_enabled : Bool
  pub notifier : Option Notifier
  pub cluster_name : String
  pub requeue_after : Duration

pub record State (W : Type 0) : Type 0 where
  pub world : W
  pub gate : Gate
  pub store : Store
  pub warned : Map String (Unit {0})
  pub last_would_restart : Map String Time
  pub log : List Effect

-- ctrl.Result with its error. A duration of 0 asks for no requeue.
pub record Outcome : Type 0 where
  pub requeue_after : Duration
  pub error : Option Error

abbrev pub done : Outcome
done = record { requeue_after = pos 0; error = none }

abbrev pub failed : Error → Outcome
failed e = record { requeue_after = pos 0; error = some e }

abbrev pub requeue : Duration → Outcome
requeue d = record { requeue_after = d; error = none }

module _ {W : Type 0} where
  abbrev pub note : Effect → State W → State W
  note e s = record s { log = e ∷ s.log }

  abbrev pub at_world : State W → W → State W
  at_world s w = record s { world = w }

  -- Gate.Release, and the gauge after it.
  unfoldable pub release_slot : String → State W → State W
  release_slot key s =
      let g = release s.gate key in
      record s { gate = g; log = inflight_gauge (inflight_count g) ∷ s.log }

  -- skip.
  abbrev pub skip : String → State W → Outcome × State W
  skip reason s = (done, note (skips reason) s)

  -- skipRequeue, with the reconciler's RequeueAfter.
  abbrev pub skip_requeue : Duration → String → State W → Outcome × State W
  skip_requeue after reason s = (requeue after, note (skips reason) s)

-- State.Persist of a policy, and what is left of it and of the error.
unfoldable pub persist_policy :
    {W : Type 0}
    → Client W
    → Library
    → MemoryLeakPolicy
    → State W
    → (Option Error × MemoryLeakPolicy) × State W
persist_policy c lib p s =
    let (r, w) = persist c lib p s.world in
    (r, record s { world = w; log = persists p.status r.0 ∷ s.log })

-- Workload.Dispatch.
unfoldable pub dispatch_restart :
    {W : Type 0} → Client W → Library → String → Object → Time → State W → Option Error × State W
dispatch_restart c lib key o now s =
    let (r, w) = dispatch c lib o now s.world in
    (r, record s { world = w; log = dispatches key ∷ s.log })
