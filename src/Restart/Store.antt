-- ===== src/Restart/Store.antt =====
-- internal/restart/store.go: writing a policy's status, and the sweep over the rollouts in flight.
pub mod Laws
use memory_leak_reloader.Base.{
  String, Bool, true, false, Option, none, some, List, [], ◌∷◌, ◌==◌, string_eq, if◌then◌else◌,
  ◌&&◌, not,
}
use memory_leak_reloader.Base.Int.{leb_ℤ}
use memory_leak_reloader.Base.Time.{Time, Duration, since}
use memory_leak_reloader.Api.{
  MemoryLeakPolicy, InFlightRollout, outcome_superseded, outcome_timed_out,
}
use memory_leak_reloader.Restart.Objects.{NamespacedName, Object}
use memory_leak_reloader.Restart.Cluster.{
  Error, is_not_found, is_conflict, Result, ok, err, Client, Library,
}
use memory_leak_reloader.Restart.Workload.{Workload, uid, template_version, workload_key}
use memory_leak_reloader.Restart.Resolve.{get_workload}
use memory_leak_reloader.Restart.Breaker.{complete_in_flight}

pub record Closing : Type 0 where
  pub outcome : String
  pub release : Bool

abbrev pub keep : Closing
keep = record { outcome = ""; release = false }

abbrev pub close : String → Closing
close outcome = record { outcome = outcome; release = true }

unfoldable pub timed_out : InFlightRollout → Time → Duration → Closing
timed_out f now timeout =
    if leb_ℤ timeout (since now f.dispatched_at) then close outcome_timed_out else keep

-- The error, and the policy as the caller holds it afterwards: with the server's answer written into
-- it, unless the write failed or went through the fresh copy.
abbrev pub Persisted : Type 0
Persisted = Option Error × MemoryLeakPolicy

abbrev pub persist_end :
    {W : Type 0} → MemoryLeakPolicy → Result MemoryLeakPolicy × W → Persisted × W
persist_end p (ok fresh, w) = ((none, p), w)
persist_end p (err e, w) = ((some e, p), w)

module _ {W : Type 0} (c : Client W) (lib : Library) where
  abbrev pub retry : MemoryLeakPolicy → Result MemoryLeakPolicy × W → Persisted × W
  retry p (err e, w) = ((some e, p), w)
  retry p (ok fresh, w) = persist_end p (c.update_status (record fresh { status = p.status }) w)

  abbrev pub after_update : MemoryLeakPolicy → Result MemoryLeakPolicy × W → Persisted × W
  after_update p (ok p', w) = ((none, p'), w)
  after_update p (err e, w) =
      if not (is_conflict e)
      then ((some e, p), w)
      else retry p (c.get_policy (record { namespace = p.namespace; name = p.name }) w)

  -- Persist.
  unfoldable pub persist : MemoryLeakPolicy → W → Persisted × W
  persist p w = after_update p (c.update_status p w)

  -- classifyInFlight, from the answer for the live workload.
  abbrev pub classify :
      MemoryLeakPolicy → InFlightRollout → Time → Duration → Result Workload → Closing
  classify p f now timeout (err e) =
      if is_not_found e then close outcome_superseded else timed_out f now timeout
  classify p f now timeout (ok wl) =
      let live = template_version lib wl.object in
      if not (uid wl.object == p.status.workload_uid)
      then close outcome_superseded
      else if not (f.dispatched_version == "")
          && not (live == "")
          && not (live == f.dispatched_version)
      then close outcome_superseded
      else timed_out f now timeout

  unfoldable pub classify_in_flight :
      MemoryLeakPolicy → InFlightRollout → Time → Duration → W → Closing × W
  classify_in_flight p f now timeout w =
      let ref = p.spec.workload_ref in
      let (r, w') = get_workload c lib ref.kind p.namespace ref.name w in
      (classify p f now timeout r, w')

  abbrev pub Swept : Type 0
  Swept = List String × Option Error

  -- One policy of the sweep: the key that it releases, if any, and the error that ends the sweep.
  abbrev pub finish : MemoryLeakPolicy → Persisted × W → (Option String × Option Error) × W
  finish p ((e, p'), w) =
      ((some (workload_key p.spec.workload_ref.kind p.namespace p.spec.workload_ref.name), e), w)

  abbrev pub settle : MemoryLeakPolicy → Time → Closing × W → (Option String × Option Error) × W
  settle p now (closing, w) =
      if not closing.release
      then ((none, none), w)
      else finish p
          (persist (record p { status = complete_in_flight lib p.status now closing.outcome }) w)

  unfoldable pub sweep_one :
      MemoryLeakPolicy → Time → Duration → W → (Option String × Option Error) × W
  sweep_one p now timeout w = elim p.status.in_flight [
    | none ↦ ((none, none), w)
    | some f ↦ settle p now (classify_in_flight p f now timeout w)
  ]

  abbrev pub add_key : Option String → Swept → Swept
  add_key none s = s
  add_key (some k) (ks, e) = (k ∷ ks, e)

  abbrev pub sweep_on : (Option String × Option Error) × W → Swept × W → Swept × W
  sweep_on ((k, none), w) (rest, w') = (add_key k rest, w')
  sweep_on ((k, some x), w) rest = (add_key k ([], some x), w)

  -- The loop of SweepInFlight. An error ends it, with the keys so far.
  unfoldable pub sweep : List MemoryLeakPolicy → Time → Duration → W → Swept × W
  sweep [] now timeout w = (([], none), w)
  sweep (p ∷ ps) now timeout w =
      let one = sweep_one p now timeout w in sweep_on one (sweep ps now timeout one.1)

  abbrev pub sweep_listed : Result (List MemoryLeakPolicy) × W → Time → Duration → Swept × W
  sweep_listed (err e, w) now timeout = (([], some e), w)
  sweep_listed (ok ps, w) now timeout = sweep ps now timeout w

  -- SweepInFlight; the empty namespace lists all.
  unfoldable pub sweep_in_flight : Time → Duration → W → Swept × W
  sweep_in_flight now timeout w = sweep_listed (c.list_policies "" w) now timeout
