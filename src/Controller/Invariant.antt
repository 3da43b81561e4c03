-- ===== src/Controller/Invariant.antt =====
-- What every reconciliation keeps: a property of the state that each elementary change of one
-- keeps, kept by every stage of Reconcile (internal/controller/reconciler.go).
pub mod Notifying
pub mod Stages
pub mod Scanning
pub mod Reconciles
pub mod Gates
pub mod Log
use memory_leak_reloader.Base.{Bool, true, false, String, ◌≡◌, Option, none, some}
use memory_leak_reloader.Base.Map.{Map}
use memory_leak_reloader.Base.Time.{Time}
use memory_leak_reloader.Api.{MemoryLeakPolicy}
use memory_leak_reloader.Config.{PodConfig, resolve_policy}
use memory_leak_reloader.Gate.{Gate, try_acquire, inflight_count}
use memory_leak_reloader.Restart.Objects.{NamespacedName}
use memory_leak_reloader.Restart.Cluster.{Client, Library, Result, ok}
use memory_leak_reloader.Controller.State.{
  Effect, event, persists, dispatches, delivers, skips, triggers, captures, breaches, defers,
  inflight_gauge, Reconciler, State, note, at_world, release_slot, persist_policy,
}
use memory_leak_reloader.Controller.Restarting.{Case, enforce_stage}
use memory_leak_reloader.Controller.Reconcile.{policy_finalizer, key_of}

-- Every effect but the dispatch of a restart.
abbrev pub is_plain : Effect → Bool
is_plain (dispatches k) = false
is_plain (event k) = true
is_plain (persists st e) = true
is_plain (delivers e ss) = true
is_plain (skips k) = true
is_plain (triggers k) = true
is_plain (captures k) = true
is_plain breaches = true
is_plain defers = true
is_plain (inflight_gauge n) = true

module _ {L F W : Type 0} (r : Reconciler L F W) where
  -- A property that the changes of a reconciliation of one workload under one configuration keep.
  pub record Invariant (key : String) (cfg : PodConfig) (P : State W → Type 0) : Type 0 where
    pub noted : (e : Effect) (s : State W) → is_plain e ≡ true → P s → P (note e s)
    pub moved : (w : W) (s : State W) → P s → P (at_world s w)
    pub warned : (m : Map String (Unit {0})) (s : State W) → P s → P (record s { warned = m })
    pub throttled :
        (m : Map String Time) (s : State W) → P s → P (record s { last_would_restart = m })
    pub released : (s : State W) → P s → P (release_slot key s)
    pub acquired :
        (t : Time) (s : State W) → P s → P (record s { gate = (try_acquire s.gate key t).1 })
    pub enforced :
        (c : Case) (s : State W)
        → c.key ≡ key
        → c.cfg ≡ cfg
        → cfg.dry_run ≡ false
        → P s
        → P (enforce_stage r c s).1

  -- The policies that a reconciliation acts on: the one that it reads, and that as AddFinalizer
  -- leaves it.
  pub data Reads (req : NamespacedName) (s : State W) (q : MemoryLeakPolicy) : Type 0 where
    read : (r.client.get_policy req s.world).0 ≡ ok q → Reads req s q
    finalized :
        (p : MemoryLeakPolicy)
        → (r.client.get_policy req s.world).0 ≡ ok p
        → (r.lib.add_finalizer p policy_finalizer).1 ≡ q
        → Reads req s q
