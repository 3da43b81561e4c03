-- ===== src/Restart/Resolve.antt =====
-- The functions of internal/restart/restart.go that call the API server.
use memory_leak_reloader.Base.{
  String, Option, none, some, ◌==◌, string_eq, if◌then◌else◌, ◌&&◌, not,
}
use memory_leak_reloader.Base.Time.{Time}
use memory_leak_reloader.Restart.Objects.{
  NamespacedName, Rollout, ReplicaSet, Pod, Object, deployment, stateful_set, rollout,
}
use memory_leak_reloader.Restart.Cluster.{Error, no_owner, Result, ok, err, Client, Library}
use memory_leak_reloader.Restart.Workload.{
  Kinds, Workload, kind_deployment, kind_stateful_set, kind_rollout, set_template_restarted_at,
}

-- `if err != nil { return nil, err }` behind a call.
abbrev pub and_then {ℓ} :
    {W : Type 0} {A B : Type ℓ} → Result A × W → (A → W → Result B × W) → Result B × W
and_then (ok a, w) f = f a w
and_then (err e, w) f = (err e, w)

abbrev pub after_stamp : Result Rollout → Result Object
after_stamp (ok r) = ok (rollout r)
after_stamp (err e) = err e

-- The object with the restart trigger stamped, which Dispatch sends as a patch.
unfoldable pub stamped : Library → Object → String → Result Object
unfolding set_template_restarted_at
stamped lib (deployment d) stamp =
    ok (deployment (record d { template = set_template_restarted_at d.template stamp }))
stamped lib (stateful_set s) stamp =
    ok (stateful_set (record s { template = set_template_restarted_at s.template stamp }))
stamped lib (rollout r) stamp = after_stamp (lib.set_restart_at r stamp)

module _ {W : Type 0} (c : Client W) (lib : Library) where
  abbrev pub found :
      Option Pod → Option ReplicaSet → NamespacedName → Object → W → Result Workload × W
  found pod rs ref o w = (ok (record { ref = ref; object = o; rs = rs; pod = pod }), w)

  -- GetWorkload.
  unfoldable pub get_workload : String → String → String → W → Result Workload × W
  get_workload kind namespace name w =
      let ref : NamespacedName = record { namespace = namespace; name = name } in
      if kind == kind_deployment
      then and_then (c.get_deployment ref w) (λ d. found none none ref (deployment d))
      else if kind == kind_stateful_set
      then and_then (c.get_stateful_set ref w) (λ s. found none none ref (stateful_set s))
      else if kind == kind_rollout
      then and_then (c.get_rollout ref w) (λ r. found none none ref (rollout r))
      else (err no_owner, w)

  -- The owner of the pod's ReplicaSet.
  unfoldable pub resolve_replica_set : Kinds → Pod → ReplicaSet → W → Result Workload × W
  resolve_replica_set kinds pod rs w = elim (lib.controller_of rs.owners) [
    | none ↦ (err no_owner, w)
    | some owner ↦
        let ref : NamespacedName = record { namespace = pod.namespace; name = owner.name } in
        if (owner.kind == "Deployment") && kinds.deployments
        then and_then (c.get_deployment ref w)
            (λ d. found (some pod) (some rs) d.ref (deployment d))
        else if (owner.kind == "Rollout") && kinds.rollouts
        then and_then (c.get_rollout ref w) (λ r. found (some pod) (some rs) ref (rollout r))
        else (err no_owner, w)
  ]

  -- ResolveOwner.
  unfoldable pub resolve_owner : Kinds → Pod → W → Result Workload × W
  unfolding resolve_replica_set
  resolve_owner kinds pod w = elim (lib.controller_of pod.owners) [
    | none ↦ (err no_owner, w)
    | some owner ↦
        let ref : NamespacedName = record { namespace = pod.namespace; name = owner.name } in
        if owner.kind == "StatefulSet"
        then if not kinds.stateful_sets
          then (err no_owner, w)
          else and_then (c.get_stateful_set ref w)
              (λ s. found (some pod) none s.ref (stateful_set s))
        else if owner.kind == "ReplicaSet"
        then and_then (c.get_replica_set ref w) (resolve_replica_set kinds pod)
        else (err no_owner, w)
  ]

  -- Dispatch.
  unfoldable pub dispatch : Object → Time → W → Option Error × W
  unfolding stamped
  dispatch o now w = elim (stamped lib o (lib.rfc3339 now)) [
    | err e ↦ (some e, w)
    | ok o' ↦ c.patch o o' w
  ]
