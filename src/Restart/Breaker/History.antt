-- ===== src/Restart/Breaker/History.antt =====
-- The bounded history and the in-flight marker of a policy's status (internal/restart/breaker.go).
use memory_leak_reloader.Base.{
  suc, ◌-◌, ◌≤◌, String, none, some, List, [], ◌∷◌, ◌++◌, ◌≡◌, refl, ap, arith, ◌==◌, string_eq,
  ◌&&◌, not, length, length-append, length-drop, last?, last?-drop, last?-append, Bool-cases, inl,
  inr,
}
use memory_leak_reloader.Base.Int.{ℤ}
use memory_leak_reloader.Base.Time.{Time, Duration}
use memory_leak_reloader.Api.{
  RestartRecord, InFlightRollout, MemoryLeakPolicyStatus, restart_history_limit,
}
use memory_leak_reloader.Restart.Cluster.{Library}
use memory_leak_reloader.Restart.Breaker.{
  Cause, opened, bounded_history, close_last, close_record, set_condition, apply_restart,
  complete_in_flight, recompute_observability, adopt_workload,
}

-- The last record of the history is open, and is the one of the rollout in flight.
pub record IsOpenFor (f : InFlightRollout) (h : List RestartRecord) : Type 0 where
  pub last : RestartRecord
  pub newest : last? h ≡ some last
  pub unfinished : last.completed_at ≡ none
  pub time : last.triggered_at ≡ f.dispatched_at
  pub version : last.version ≡ f.dispatched_version

pub record IsConsistent (st : MemoryLeakPolicyStatus) : Type 0 where
  pub bounded : length st.history ≤ restart_history_limit
  pub tracked : (f : InFlightRollout) → st.in_flight ≡ some f → IsOpenFor f st.history

length-bounded_history :
    (h : List RestartRecord) → length (bounded_history h) ≤ restart_history_limit
unfolding bounded_history
length-bounded_history h = ground (arith, length-drop (length h - restart_history_limit) h)

last?-bounded_history :
    (h : List RestartRecord) (r : RestartRecord) → last? (bounded_history (h ++ r ∷ [])) ≡ some r
unfolding bounded_history
last?-bounded_history h r = ground (
  arith,
  last?-append h r,
  length-append h (r ∷ []),
  last?-drop (length (h ++ r ∷ []) - restart_history_limit) h r,
)

length-close_last :
    (h : List RestartRecord) (now : Time) (o : String) → length (close_last h now o) ≡ length h
unfolding close_last
length-close_last [] now o = refl
length-close_last (r ∷ []) now o = refl
length-close_last (r ∷ q ∷ rs) now o = ap suc (length-close_last (q ∷ rs) now o)

last?-close_last :
    (h : List RestartRecord) (r : RestartRecord) (now : Time) (o : String)
    → last? h ≡ some r
    → last? (close_last h now o) ≡ some (close_record r.completed_at r now o)
unfolding close_last
last?-close_last [] r now o e = cc
last?-close_last (x ∷ []) r now o e = ground arith
last?-close_last (x ∷ y ∷ []) r now o e = ground arith
last?-close_last (x ∷ y ∷ z ∷ zs) r now o e = last?-close_last (y ∷ z ∷ zs) r now o e

last?-close_open :
    (h : List RestartRecord) (r : RestartRecord) (now : Time) (o : String)
    → last? h ≡ some r
    → r.completed_at ≡ none
    → last? (close_last h now o) ≡ some (record r { completed_at = some now; outcome = o })
last?-close_open h r now o e open_yet = ground (arith, last?-close_last h r now o e)

-- Recording a restart leaves a consistent status, whatever it was before: at most ten records, of
-- which the newest is open and is the one in flight.
pub apply_restart-IsConsistent :
    (lib : Library) (st : MemoryLeakPolicyStatus) (ver : String) (c : Cause) (now : Time)
    (window : Duration)
    → IsConsistent (apply_restart lib st ver c now window)
unfolding apply_restart set_condition
apply_restart-IsConsistent lib st ver c now window = record {
  bounded = length-bounded_history (st.history ++ opened c now ver ∷ []);
  tracked = λ f e. record {
    last = opened c now ver;
    newest = last?-bounded_history st.history (opened c now ver);
    unfinished = refl;
    time = ground arith;
    version = ground arith;
  };
}

-- Completing the rollout in flight of a consistent status stamps its own record with the time
-- and the outcome, clears the marker, and keeps the number of records.
pub complete_in_flight_closes :
    (lib : Library) (st : MemoryLeakPolicyStatus) (now : Time) (o : String) (f : InFlightRollout)
    → IsConsistent st
    → st.in_flight ≡ some f
    → let done = complete_in_flight lib st now o in
      (done.in_flight ≡ none)
      × (length done.history ≡ length st.history)
      × ((r : RestartRecord) × (last? done.history ≡ some r)
          × (r.completed_at ≡ some now)
          × (r.outcome ≡ o)
          × (r.triggered_at ≡ f.dispatched_at)
          × (r.version ≡ f.dispatched_version))
unfolding complete_in_flight set_condition
complete_in_flight_closes lib st now o f c e =
    let open_record = c.tracked f e in
    (
      refl,
      length-close_last st.history now o,
      (
        record (open_record.last) { completed_at = some now; outcome = o },
        last?-close_open st.history open_record.last now o open_record.newest
            open_record.unfinished,
        refl,
        refl,
        open_record.time,
        open_record.version,
      ),
    )

pub complete_in_flight-IsConsistent :
    (lib : Library) (st : MemoryLeakPolicyStatus) (now : Time) (o : String)
    → IsConsistent st
    → IsConsistent (complete_in_flight lib st now o)
unfolding complete_in_flight set_condition
complete_in_flight-IsConsistent lib st now o c = record {
  bounded = omega (arith, c.bounded, length-close_last st.history now o);
  tracked = λ f e. cc;
}

pub adopt_workload-IsConsistent :
    (st : MemoryLeakPolicyStatus) (uid : String)
    → IsConsistent st
    → IsConsistent (adopt_workload st uid)
unfolding adopt_workload
adopt_workload-IsConsistent st uid c =
    elim (Bool-cases (not (st.workload_uid == "") && not (st.workload_uid == uid))) [
      | inl changed ↦ rw changed (record { bounded = omega arith; tracked = λ f e. cc })
      | inr same ↦ rw same (record { bounded = c.bounded; tracked = c.tracked })
    ]

pub recompute_observability-IsConsistent :
    (st : MemoryLeakPolicyStatus) (now : Time) (cooldown window : Duration) (max_per_window : ℤ)
    → IsConsistent st
    → IsConsistent (recompute_observability st now cooldown window max_per_window)
unfolding recompute_observability
recompute_observability-IsConsistent st now cooldown window max_per_window c = record {
  bounded = c.bounded;
  tracked = c.tracked;
}

-- A change of a status.
pub data Change : Type 0 where
  restarts : String → Cause → Time → Duration → Change
  completes : Time → String → Change
  adopts : String → Change
  recomputes : Time → Duration → Duration → ℤ → Change

pub change : Library → MemoryLeakPolicyStatus → Change → MemoryLeakPolicyStatus
change lib st (restarts ver c now window) = apply_restart lib st ver c now window
change lib st (completes now o) = complete_in_flight lib st now o
change lib st (adopts uid) = adopt_workload st uid
change lib st (recomputes now cooldown window m) = recompute_observability st now cooldown window m

pub changes : Library → MemoryLeakPolicyStatus → List Change → MemoryLeakPolicyStatus
unfolding change
changes lib st [] = st
changes lib st (c ∷ cs) = changes lib (change lib st c) cs

change-IsConsistent :
    (lib : Library) (st : MemoryLeakPolicyStatus) (c : Change)
    → IsConsistent st
    → IsConsistent (change lib st c)
unfolding change
change-IsConsistent lib st (restarts ver c now window) h =
    apply_restart-IsConsistent lib st ver c now window
change-IsConsistent lib st (completes now o) h = complete_in_flight-IsConsistent lib st now o h
change-IsConsistent lib st (adopts uid) h = adopt_workload-IsConsistent st uid h
change-IsConsistent lib st (recomputes now cooldown window m) h =
    recompute_observability-IsConsistent st now cooldown window m h

-- From a consistent status, through any sequence of recorded restarts, completions, adoptions of
-- a workload and refreshes: the history holds at most ten records, and a rollout in flight is
-- the newest record, still open.
pub changes-IsConsistent :
    (lib : Library) (st : MemoryLeakPolicyStatus) (cs : List Change)
    → IsConsistent st
    → IsConsistent (changes lib st cs)
unfolding changes
changes-IsConsistent lib st [] h = h
changes-IsConsistent lib st (c ∷ cs) h =
    changes-IsConsistent lib (change lib st c) cs (change-IsConsistent lib st c h)
