-- ===== src/Restart/Breaker/Laws.antt =====
-- When the breaker and the cooldown hold a restart back (internal/restart/breaker.go).
use memory_leak_reloader.Base.{
  String, true, false, none, some, [], ◌≡◌, ◌≢◌, ◌↔◌, ◌⊎◌, inl, inr, refl, arith, string_eq,
  Option-cases,
}
use memory_leak_reloader.Base.Int.{ℤ, pos, ◌≤ℤ◌, ◌<ℤ◌, ltb_ℤ}
use memory_leak_reloader.Base.Time.{Time, Duration, since}
use memory_leak_reloader.Api.{MemoryLeakPolicyStatus}
use memory_leak_reloader.Restart.Cluster.{Library}
use memory_leak_reloader.Restart.Breaker.{
  Cause, same_window, breaker_tripped, in_cooldown, apply_restart, set_condition, adopt_workload,
  budget_fields, recompute_observability,
}

-- What it takes to trip the breaker.
pub record IsTripped (st : MemoryLeakPolicyStatus) (cur : String) (now : Time) (window : Duration)
    (m : ℤ) : Type 0 where
  pub enabled : pos 0 <ℤ m
  pub start : Time
  pub opened : st.window_start ≡ some start
  pub fresh : since now start <ℤ window
  pub version : (st.version ≡ "") ⊎ (st.version ≡ cur)
  pub spent : m ≤ℤ st.restart_count

-- The breaker holds a restart back exactly if it is enabled, its window is open and still runs, the
-- template version is the one of the window (or none was stored), and the budget is spent.
pub breaker_tripped_iff :
    (st : MemoryLeakPolicyStatus) (cur : String) (now : Time) (window : Duration) (m : ℤ)
    → (breaker_tripped st cur now window m ≡ true) ↔ IsTripped st cur now window m
unfolding breaker_tripped same_window
breaker_tripped_iff st cur now window m = (
  λ h. elim (Option-cases st.window_start) [
    | inl closed ↦ absurd (ground arith)
    | inr (start, e) ↦ record {
      enabled = ground arith;
      start = start;
      opened = e;
      fresh = ground arith;
      version = ground (arith, string_eq.beq_iff st.version "", string_eq.beq_iff st.version cur);
      spent = ground arith;
    }
  ],
  λ t. ground (
    arith,
    t.opened,
    t.version,
    string_eq.beq_iff st.version "",
    string_eq.beq_iff st.version cur,
  ),
)

-- From a restart on, a workload is in cooldown exactly until the cooldown has passed.
pub in_cooldown-apply_restart :
    (lib : Library) (st : MemoryLeakPolicyStatus) (ver : String) (c : Cause) (at now : Time)
    (window cooldown : Duration)
    → in_cooldown (apply_restart lib st ver c at window) now cooldown
      ≡ ltb_ℤ (since now at) cooldown
unfolding in_cooldown apply_restart set_condition
in_cooldown-apply_restart lib st ver c at now window cooldown = refl

-- A workload that was deleted and recreated under its name, so that a UID is stored and another
-- one is live, starts afresh: no rollout is in flight, the history is empty, and neither the
-- breaker nor the cooldown holds its first restart back.
pub adopt_workload_fresh :
    (st : MemoryLeakPolicyStatus) (uid cur : String) (now : Time) (window cooldown : Duration)
    (m : ℤ)
    → st.workload_uid ≢ ""
    → st.workload_uid ≢ uid
    → let st' = adopt_workload st uid in
      (breaker_tripped st' cur now window m ≡ false)
      × (in_cooldown st' now cooldown ≡ false)
      × (st'.in_flight ≡ none)
      × (st'.history ≡ [])
unfolding adopt_workload breaker_tripped same_window in_cooldown
adopt_workload_fresh st uid cur now window cooldown m h k =
    let some_uid = string_eq.beq_iff st.workload_uid "" in
    let other_uid = string_eq.beq_iff st.workload_uid uid in
    (
      ground (arith, some_uid, other_uid),
      ground (arith, some_uid, other_uid),
      ground (arith, some_uid, other_uid),
      ground (arith, some_uid, other_uid),
    )

-- While no version is stored, or the live one: the breaker state that a refresh prints is the
-- one that decides, tripped exactly if the breaker would hold a restart back at that time.
pub recompute_observability-breaker :
    (st : MemoryLeakPolicyStatus) (cur : String) (now : Time) (cooldown window : Duration) (m : ℤ)
    → (st.version ≡ "") ⊎ (st.version ≡ cur)
    → (recompute_observability st now cooldown window m).breaker_tripped
      ≡ breaker_tripped st cur now window m
unfolding recompute_observability budget_fields breaker_tripped same_window
recompute_observability-breaker st cur now cooldown window m h =
    ground (arith, string_eq.beq_iff st.version "", string_eq.beq_iff st.version cur)
