-- ===== src/Expirer/Laws.antt =====
-- What a tick of the expirer does to the gate (cmd/expirer.go).
use memory_leak_reloader.Base.{
  String, Bool, true, false, Option, none, some, List, [], ◌∷◌, ◌≡◌, refl, ◌∙◌, arith, ◌==◌,
  string_eq, if◌then◌else◌, beq_refl, Bool-cases, inl, inr,
}
use memory_leak_reloader.Base.Int.{◌≤ℤ◌}
use memory_leak_reloader.Base.Map.{lookup, lookup-delete}
use memory_leak_reloader.Base.Time.{Time, since}
use memory_leak_reloader.Gate.{Gate, release, holds, expire_older_than}
use memory_leak_reloader.Gate.Laws.{
  IsValid, younger, release-IsValid, holds-release, lookup-expire_older_than,
  expire_older_than-IsValid,
}
use mathlib.Core.List.{Memᴰ}
use memory_leak_reloader.Api.{MemoryLeakPolicy, InFlightRollout}
use memory_leak_reloader.Restart.Cluster.{Error, Client, Library, ok}
use memory_leak_reloader.Restart.Workload.{workload_key}
use memory_leak_reloader.Restart.Store.{sweep, sweep_in_flight}
use memory_leak_reloader.Restart.Store.Laws.{Has, sweep_frees_aged}
use memory_leak_reloader.Controller.State.{State}
use memory_leak_reloader.Controller.Invariant.Log.{IsRecorded}
use memory_leak_reloader.Expirer.{
  Expirer, release_all, gauge_if, release_expired, release_swept, sweep_stage, tick,
}

release_all-IsValid : (ks : List String) (g : Gate) → IsValid g → IsValid (release_all ks g)
unfolding release_all
release_all-IsValid [] g v = v
release_all-IsValid (k ∷ ks) g v = release_all-IsValid ks (release g k) (release-IsValid g k v)

abbrev pub is_in : String → List String → Bool
is_in k [] = false
is_in k (j ∷ js) = let rest = is_in k js in if j == k then true else rest

-- The releases give back the slots of the keys, and leave the others.
pub lookup-release_all :
    (ks : List String) (g : Gate) (k : String)
    → lookup k (release_all ks g).inflight ≡ (if is_in k ks then none else lookup k g.inflight)
unfolding release_all release
lookup-release_all [] g k = refl
lookup-release_all (j ∷ js) g k =
    lookup-release_all js (release g j) k ∙ ground (arith, lookup-delete j k g.inflight)

module _ {W : Type 0} where
  gate-gauge_if : (ks : List String) (s : State W) → (gauge_if ks s).gate ≡ s.gate
  gate-gauge_if [] s = refl
  gate-gauge_if (k ∷ ks) s = refl

  world-gauge_if : (ks : List String) (s : State W) → (gauge_if ks s).world ≡ s.world
  world-gauge_if [] s = refl
  world-gauge_if (k ∷ ks) s = refl

  gate-release_expired :
      (e : Expirer) (now : Time) (s : State W)
      → (release_expired e now s).gate ≡ (expire_older_than s.gate now e.timeout).0
  unfolding release_expired
  gate-release_expired e now s = gate-gauge_if _ _

  world-release_expired :
      (e : Expirer) (now : Time) (s : State W) → (release_expired e now s).world ≡ s.world
  unfolding release_expired
  world-release_expired e now s = world-gauge_if _ _

  -- The keys that the sweep of a tick names.
  abbrev pub swept_keys : Client W → Library → Expirer → Time → W → List String
  swept_keys c lib e now w = if e.has_state then (sweep_in_flight c lib now e.timeout w).0.0 else []

  gate-sweep_stage :
      (c : Client W) (lib : Library) (e : Expirer) (now : Time) (s : State W)
      → (sweep_stage c lib e now s).gate ≡ release_all (swept_keys c lib e now s.world) s.gate
  unfolding sweep_stage release_all
  gate-sweep_stage c lib e now s = elim (Bool-cases e.has_state) [
    | inl on ↦ rw on (gate-gauge_if _ _)
    | inr off ↦ rw off refl
  ]

  gate-tick :
      (c : Client W) (lib : Library) (e : Expirer) (now : Time) (s : State W)
      → (tick c lib e now s).gate
        ≡ release_all (swept_keys c lib e now s.world) (expire_older_than s.gate now e.timeout).0
  unfolding tick
  gate-tick c lib e now s =
      rw
        (
          gate-sweep_stage c lib e now (release_expired e now s),
          gate-release_expired e now s,
          world-release_expired e now s,
        )
        refl

  -- A tick keeps a valid gate valid.
  pub tick-IsValid :
      (c : Client W) (lib : Library) (e : Expirer) (now : Time) (s : State W)
      → IsValid s.gate
      → IsValid (tick c lib e now s).gate
  tick-IsValid c lib e now s v =
      rw (gate-tick c lib e now s)
        (release_all-IsValid _ _ (expire_older_than-IsValid s.gate now e.timeout v))

  -- A tick of the expirer on a valid gate takes exactly the slots that are at least the timeout old
  -- and those of the workloads that the sweep names, even where the sweep ends in an error; each
  -- other slot stays with its time.
  pub lookup-tick :
      (c : Client W) (lib : Library) (e : Expirer) (now : Time) (s : State W) (k : String)
      → IsValid s.gate
      → lookup k (tick c lib e now s).gate.inflight ≡ (
          if is_in k (swept_keys c lib e now s.world)
          then none
          else younger now e.timeout (lookup k s.gate.inflight))
  lookup-tick c lib e now s k v = rw (gate-tick c lib e now s) (
      lookup-release_all (swept_keys c lib e now s.world) _ k
      ∙ rw (lookup-expire_older_than s.gate now e.timeout k v) refl)

holds-release_all :
    (ks : List String) (g : Gate) (k : String)
    → holds (release_all ks g) k ≡ (if is_in k ks then false else holds g k)
unfolding release_all
holds-release_all [] g k = refl
holds-release_all (j ∷ js) g k =
    holds-release_all js (release g j) k ∙ ground (arith, holds-release g j k)

module _ {W : Type 0} (c : Client W) (lib : Library) where
  is_in-of_Has : (k : String) (ks : List String) → Has c lib k ks → is_in k ks ≡ true
  is_in-of_Has k [] h = absurd h
  is_in-of_Has k (j ∷ js) (inl e) = rw (e, beq_refl k) refl
  is_in-of_Has k (j ∷ js) (inr h) = elim (Bool-cases (j == k)) [
    | inl same ↦ rw same refl
    | inr other ↦ rw other (is_in-of_Has k js h)
  ]

  gauge_if-IsRecorded :
      (ks : List String) (s : State W) → IsRecorded s.log → IsRecorded (gauge_if ks s).log
  unfolding IsRecorded
  gauge_if-IsRecorded [] s h = h
  gauge_if-IsRecorded (k ∷ ks) s h = h

  release_expired-IsRecorded :
      (e : Expirer) (now : Time) (s : State W)
      → IsRecorded s.log
      → IsRecorded (release_expired e now s).log
  unfolding release_expired
  release_expired-IsRecorded e now s h =
      let (g, released) = expire_older_than s.gate now e.timeout in
      gauge_if-IsRecorded released (record s { gate = g }) h

  release_swept-IsRecorded :
      (r : (List String × Option Error) × W) (s : State W)
      → IsRecorded s.log
      → IsRecorded (release_swept r s).log
  release_swept-IsRecorded ((keys, e), w) s h =
      gauge_if-IsRecorded keys (record s { world = w; gate = release_all keys s.gate }) h

  pub tick-IsRecorded :
      (e : Expirer) (now : Time) (s : State W)
      → IsRecorded s.log
      → IsRecorded (tick c lib e now s).log
  unfolding tick sweep_stage
  tick-IsRecorded e now s h =
      let h' = release_expired-IsRecorded e now s h in
      elim (Bool-cases e.has_state) [
        | inl on ↦ rw on (
            release_swept-IsRecorded
              (sweep_in_flight c lib now e.timeout (release_expired e now s).world)
              (release_expired e now s) h')
        | inr off ↦ rw off h'
      ]

  holds-tick :
      (e : Expirer) (now : Time) (s : State W) (k : String)
      → Has c lib k (swept_keys c lib e now s.world)
      → holds (tick c lib e now s).gate k ≡ false
  holds-tick e now s k h =
      rw
        (
          gate-tick c lib e now s,
          holds-release_all (swept_keys c lib e now s.world) _ k,
          is_in-of_Has k _ h,
        )
        refl

  -- Where the sweep is on, lists the policies and ends without an error, a tick leaves no slot to the
  -- workload of a listed policy whose rollout in flight is as old as the timeout.
  pub tick_frees_aged :
      (e : Expirer) (now : Time) (s : State W) (ps : List MemoryLeakPolicy) (w : W)
      (p : MemoryLeakPolicy) (f : InFlightRollout)
      → e.has_state ≡ true
      → c.list_policies "" s.world ≡ (ok ps, w)
      → (sweep c lib ps now e.timeout w).0.1 ≡ none
      → Memᴰ p ps
      → p.status.in_flight ≡ some f
      → e.timeout ≤ℤ since now f.dispatched_at
      → holds
          (tick c lib e now s).gate
          (workload_key p.spec.workload_ref.kind p.namespace p.spec.workload_ref.name)
        ≡ false
  unfolding sweep_in_flight
  tick_frees_aged e now s ps w p f on listed fine m i a =
      holds-tick e now s _
        (rw (on, listed) (sweep_frees_aged c lib ps now e.timeout w p f fine m i a))
