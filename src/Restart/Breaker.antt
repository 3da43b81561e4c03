-- ===== src/Restart/Breaker.antt =====
-- internal/restart/breaker.go: the circuit breaker and the other bookkeeping in a policy's status.
pub mod History
pub mod Budget
pub mod Laws
use memory_leak_reloader.Base.{
  ℕ, ◌-◌, String, Bool, true, false, Option, none, some, List, [], ◌∷◌, ◌++◌, ◌==◌, string_eq,
  if◌then◌else◌, ◌&&◌, not, length, drop, ltb,
}
use memory_leak_reloader.Base.Int.{ℤ, pos, ltb_ℤ, leb_ℤ}
use memory_leak_reloader.Base.Word.{add64, sub64}
use memory_leak_reloader.Base.Text.{concat}
use memory_leak_reloader.Base.Time.{Time, Duration, zero_time, add, since}
use memory_leak_reloader.Api.{
  RestartRecord, InFlightRollout, Condition, MemoryLeakPolicyStatus, restart_history_limit,
  outcome_in_progress, phase_dispatched,
}
use memory_leak_reloader.Restart.Cluster.{Library}

abbrev pub condition_rollout_in_progress : String
condition_rollout_in_progress = "RolloutInProgress"

pub record Cause : Type 0 where
  pub container : String
  pub observed : ℤ
  pub threshold : ℤ
  pub mode : String

pub record Extent : Type 0 where
  pub count : ℤ
  pub start : Time
  pub same : Bool

-- sameWindow, with the window start that is set.
abbrev pub same_since : MemoryLeakPolicyStatus → String → Time → Duration → Time → Extent
same_since st cur now window start =
    if leb_ℤ window (since now start)
    then record { count = st.restart_count; start = start; same = false }
    else if not (st.version == "") && not (st.version == cur)
    then record { count = st.restart_count; start = start; same = false }
    else record { count = st.restart_count; start = start; same = true }

unfoldable pub same_window : MemoryLeakPolicyStatus → String → Time → Duration → Extent
same_window st cur now window = elim st.window_start [
  | none ↦ record { count = st.restart_count; start = zero_time; same = false }
  | some start ↦ same_since st cur now window start
]

unfoldable pub breaker_tripped : MemoryLeakPolicyStatus → String → Time → Duration → ℤ → Bool
breaker_tripped st cur now window max_per_window =
    let extent = same_window st cur now window in
    if leb_ℤ max_per_window (pos 0)
    then false
    else if not extent.same
    then false
    else leb_ℤ max_per_window extent.count

unfoldable pub in_cooldown : MemoryLeakPolicyStatus → Time → Duration → Bool
in_cooldown st now cooldown = elim st.last_restart_at [
  | none ↦ false
  | some t ↦ ltb_ℤ (since now t) cooldown
]

-- The last `restart_history_limit` records.
unfoldable pub bounded_history : List RestartRecord → List RestartRecord
bounded_history h =
    if ltb restart_history_limit (length h) then drop (length h - restart_history_limit) h else h

unfoldable pub set_condition :
    Library
    → MemoryLeakPolicyStatus
    → String
    → String
    → String
    → String
    → Time
    → MemoryLeakPolicyStatus
set_condition lib st type status reason message now = record st {
  conditions = lib.set_status_condition st.conditions (record {
    type = type;
    status = status;
    reason = reason;
    message = message;
    last_transition_time = now;
  });
}

abbrev pub opened : Cause → Time → String → RestartRecord
opened cause now ver = record {
  triggered_at = now;
  completed_at = none;
  container = cause.container;
  observed = cause.observed;
  threshold = cause.threshold;
  detection_mode = cause.mode;
  version = ver;
  outcome = outcome_in_progress;
}

-- ApplyRestart, at the template version `ver` of the workload.
unfoldable pub apply_restart :
    Library → MemoryLeakPolicyStatus → String → Cause → Time → Duration → MemoryLeakPolicyStatus
unfolding bounded_history set_condition
apply_restart lib st ver cause now window =
    let extent = same_window st ver now window in
    set_condition lib
      (record st {
        restart_count = if not extent.same then pos 1 else add64 extent.count (pos 1);
        window_start = if not extent.same then some now else some extent.start;
        last_restart_at = some now;
        version = ver;
        history = bounded_history (st.history ++ opened cause now ver ∷ []);
        in_flight =
            some
              (record { dispatched_at = now; dispatched_version = ver; phase = phase_dispatched });
      })
      condition_rollout_in_progress "True" "Dispatched"
      (concat ("restart dispatched for container " ∷ cause.container ∷ [])) now

abbrev pub close_record : Option Time → RestartRecord → Time → String → RestartRecord
close_record none r now outcome = record r { completed_at = some now; outcome = outcome }
close_record (some t) r now outcome = r

-- The change to the last record, if there is one.
unfoldable pub close_last : List RestartRecord → Time → String → List RestartRecord
close_last [] now outcome = []
close_last (r ∷ []) now outcome = close_record r.completed_at r now outcome ∷ []
close_last (r ∷ q ∷ rs) now outcome = r ∷ close_last (q ∷ rs) now outcome

unfoldable pub complete_in_flight :
    Library → MemoryLeakPolicyStatus → Time → String → MemoryLeakPolicyStatus
unfolding close_last set_condition
complete_in_flight lib st now outcome =
    set_condition lib (record st { history = close_last st.history now outcome; in_flight = none })
      condition_rollout_in_progress "False" outcome (concat ("rollout " ∷ outcome ∷ [])) now

pub record Observed : Type 0 where
  pub tripped : Bool
  pub remaining : ℤ

abbrev pub is_open : Option Time → Time → Duration → Bool
is_open none now window = false
is_open (some start) now window = ltb_ℤ (since now start) window

-- The first two fields that RecomputeObservability sets.
unfoldable pub budget_fields : MemoryLeakPolicyStatus → Time → Duration → ℤ → Observed
budget_fields st now window max_per_window =
    let left = sub64 max_per_window st.restart_count in
    if ltb_ℤ (pos 0) max_per_window
    then if is_open st.window_start now window
      then record {
        tripped = leb_ℤ max_per_window st.restart_count;
        remaining = if ltb_ℤ (pos 0) left then left else pos 0;
      }
      else record { tripped = false; remaining = max_per_window }
    else record { tripped = false; remaining = pos 0 }

abbrev pub next_eligible : Option Time → Option Time → Duration → Option Time
next_eligible none old cooldown = old
next_eligible (some t) old cooldown = some (add t cooldown)

unfoldable pub recompute_observability :
    MemoryLeakPolicyStatus → Time → Duration → Duration → ℤ → MemoryLeakPolicyStatus
unfolding budget_fields
recompute_observability st now cooldown window max_per_window =
    let fields = budget_fields st now window max_per_window in
    record st {
      breaker_tripped = fields.tripped;
      restarts_remaining = fields.remaining;
      next_eligible_restart = next_eligible st.last_restart_at st.next_eligible_restart cooldown;
    }

unfoldable pub adopt_workload : MemoryLeakPolicyStatus → String → MemoryLeakPolicyStatus
adopt_workload st uid =
    let fresh : MemoryLeakPolicyStatus = record st {
      last_restart_at = none;
      restart_count = pos 0;
      window_start = none;
      version = "";
      in_flight = none;
      history = [];
      workload_uid = uid;
    } in
    if not (st.workload_uid == "") && not (st.workload_uid == uid)
    then fresh
    else record st { workload_uid = uid }
