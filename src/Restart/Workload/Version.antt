-- ===== src/Restart/Workload/Version.antt =====
-- The template version and the controller's own restart (internal/restart/breaker.go, restart.go).
use memory_leak_reloader.Base.{String, [], ◌∷◌, ◌≡◌, refl, ap, arith, string_eq}
use memory_leak_reloader.Base.Map.{Map, insert, delete}
use memory_leak_reloader.Restart.Objects.{
  PodTemplate, Rollout, Object, deployment, stateful_set, rollout,
}
use memory_leak_reloader.Restart.Cluster.{Result, ok, err, Library}
use memory_leak_reloader.Restart.Workload.{
  template_version, fingerprint_template, set_template_restarted_at, annotation_restarted_at,
}
use memory_leak_reloader.Restart.Resolve.{stamped, after_stamp}

delete-insert : (k v : String) (m : Map String String) → delete k (insert k v m) ≡ delete k m
unfolding delete insert
delete-insert k v [] = ground (arith, string_eq.beq_iff k k)
delete-insert k v ((j, w) ∷ m) =
    ground (arith, string_eq.beq_iff k k, string_eq.beq_iff j k, delete-insert k v m)

fingerprint_stamp :
    (lib : Library) (t : PodTemplate) (stamp : String)
    → fingerprint_template lib (set_template_restarted_at t stamp) ≡ fingerprint_template lib t
unfolding fingerprint_template set_template_restarted_at
fingerprint_stamp lib t stamp =
    ap (λ a. lib.template_digest (record t { annotations = a }))
      (delete-insert annotation_restarted_at stamp t.annotations)

-- Writing spec.restartAt leaves the status of an unstructured Rollout alone.
abbrev pub KeepsStatus : Library → Type 0
KeepsStatus lib =
    (r r' : Rollout) (stamp : String)
    → lib.set_restart_at r stamp ≡ ok r'
    → r'.current_pod_hash ≡ r.current_pod_hash

abbrev KeptBy : Rollout → Result Rollout → Type 0
KeptBy r (ok r') = r'.current_pod_hash ≡ r.current_pod_hash
KeptBy r (err e) = Unit

rollout_version :
    (lib : Library) (r : Rollout) (o' : Object) (x : Result Rollout)
    → KeptBy r x
    → after_stamp x ≡ ok o'
    → template_version lib o' ≡ r.current_pod_hash
unfolding template_version
rollout_version lib r o' (ok r') k h = ground arith
rollout_version lib r o' (err e) k h = cc

module _ (lib : Library) (keeps : KeepsStatus lib) where
  keeps_at :
      (r : Rollout) (stamp : String) (x : Result Rollout)
      → lib.set_restart_at r stamp ≡ x
      → KeptBy r x
  keeps_at r stamp (ok r') e = keeps r r' stamp e
  keeps_at r stamp (err x) e = tt

  -- When writing spec.restartAt leaves a Rollout's status alone: the controller's own restart
  -- trigger does not move the template version, for any kind of workload, so a version that
  -- differs from the dispatched one is somebody else's rollout.
  pub template_version-stamped :
      (o o' : Object) (stamp : String)
      → stamped lib o stamp ≡ ok o'
      → template_version lib o' ≡ template_version lib o
  unfolding template_version stamped
  template_version-stamped (deployment d) o' stamp h =
      ground (arith, fingerprint_stamp lib d.template stamp)
  template_version-stamped (stateful_set s) o' stamp h =
      ground (arith, fingerprint_stamp lib s.template stamp)
  template_version-stamped (rollout r) o' stamp h =
      rollout_version lib r o' (lib.set_restart_at r stamp) (keeps_at r stamp _ refl) h
