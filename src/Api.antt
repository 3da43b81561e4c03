-- ===== src/Api.antt =====
-- api/v1alpha1/memoryleakpolicy_types.go: the MemoryLeakPolicy resource, its spec and its status.
-- Pointers that may be nil are options; a Go int is an integer.
use memory_leak_reloader.Base.{ℕ, String, Bool, Option, List}
use memory_leak_reloader.Base.Int.{ℤ}
use memory_leak_reloader.Base.Time.{Time, Duration}

abbrev pub restart_history_limit : ℕ
restart_history_limit = 10

-- Restart outcomes.
abbrev pub outcome_in_progress : String
outcome_in_progress = "InProgress"

abbrev pub outcome_settled : String
outcome_settled = "Settled"

abbrev pub outcome_timed_out : String
outcome_timed_out = "TimedOut"

abbrev pub outcome_superseded : String
outcome_superseded = "Superseded"

abbrev pub phase_dispatched : String
phase_dispatched = "Dispatched"

pub record WorkloadRef : Type 0 where
  pub kind : String
  pub name : String

-- What the program reads of a resource.Quantity: Value() and String().
pub record Quantity : Type 0 where
  pub value : ℤ
  pub text : String

pub record DetectionSpec : Type 0 where
  pub mode : String
  pub threshold_percent : ℤ
  pub threshold_absolute : Option Quantity
  pub window : Option Duration
  pub trend_min_growth : Option Quantity

pub record ContainerOverride : Type 0 where
  pub name : String
  pub detection : DetectionSpec

pub record MaintenanceWindow : Type 0 where
  pub days : List String
  pub start : String
  pub end : String
  pub timezone : String

pub record InFlightRollout : Type 0 where
  pub dispatched_at : Time
  pub dispatched_version : String
  pub phase : String

pub record RestartRecord : Type 0 where
  pub triggered_at : Time
  pub completed_at : Option Time
  pub container : String
  pub observed : ℤ
  pub threshold : ℤ
  pub detection_mode : String
  pub version : String
  pub outcome : String

pub record ProfileRef : Type 0 where
  pub url : String
  pub captured_at : Time

pub record NotificationRef : Type 0 where
  pub event : String
  pub notified_at : Time

-- metav1.Condition, as the program fills it in.
pub record Condition : Type 0 where
  pub type : String
  pub status : String
  pub reason : String
  pub message : String
  pub last_transition_time : Time

pub record MemoryLeakPolicySpec : Type 0 where
  pub workload_ref : WorkloadRef
  pub detection : DetectionSpec
  pub cooldown : Option Duration
  pub startup_grace : Option Duration
  pub restart_window : Option Duration
  pub max_restarts_per_window : Option ℤ
  pub dry_run : Option Bool
  pub containers : List String
  pub container_overrides : List ContainerOverride
  pub profile_capture : Option Bool
  pub pprof_path : String
  pub maintenance_windows : List MaintenanceWindow
  pub notify_routes : List String
  pub slack_channel : String

pub record MemoryLeakPolicyStatus : Type 0 where
  pub workload_uid : String
  pub last_restart_at : Option Time
  pub restart_count : ℤ
  pub window_start : Option Time
  pub version : String
  pub in_flight : Option InFlightRollout
  pub breaker_tripped : Bool
  pub dry_run : Bool
  pub next_eligible_restart : Option Time
  pub restarts_remaining : ℤ
  pub last_profile : Option ProfileRef
  pub last_notification : Option NotificationRef
  pub history : List RestartRecord
  pub conditions : List Condition
  pub observed_generation : ℤ

-- Of the object's metadata, what the program reads, and the resource version that the API server
-- compares on an update.
pub record MemoryLeakPolicy : Type 0 where
  pub namespace : String
  pub name : String
  pub resource_version : String
  pub deletion_timestamp : Option Time
  pub finalizers : List String
  pub spec : MemoryLeakPolicySpec
  pub status : MemoryLeakPolicyStatus
