-- ===== src/Restart/Workload.antt =====
-- internal/restart/restart.go, and the methods of Workload in breaker.go and store.go. A Workload
-- always holds the object of its Kind, so the object stands for both, and the last lines of the
-- switches on the Kind, for a Kind that is none of the three, are met in `get_workload` alone.
pub mod Version
pub mod Keys
use memory_leak_reloader.Base.{
  String, Bool, true, false, Option, none, some, List, [], ◌∷◌, ◌==◌, string_eq, if◌then◌else◌,
  ◌&&◌, ◌||◌, not,
}
use memory_leak_reloader.Base.Int.{ℤ, pos, int_eq, ltb_ℤ, pos_part, neg_part}
use memory_leak_reloader.Base.Map.{Map, lookup, insert, delete}
use memory_leak_reloader.Base.Text.{concat}
use memory_leak_reloader.Base.Time.{Time}
use memory_leak_reloader.Restart.Objects.{
  NamespacedName, OwnerReference, PodTemplate, Deployment, StatefulSet, Rollout, ReplicaSet, Pod,
  Object, deployment, stateful_set, rollout,
}
use memory_leak_reloader.Restart.Cluster.{
  Error, no_owner, not_auto_restartable, other, Result, ok, err, Client, Library,
}

abbrev pub kind_deployment : String
kind_deployment = "Deployment"

abbrev pub kind_stateful_set : String
kind_stateful_set = "StatefulSet"

abbrev pub kind_rollout : String
kind_rollout = "Rollout"

abbrev pub annotation_restarted_at : String
annotation_restarted_at = "kubectl.kubernetes.io/restartedAt"

abbrev pub annotation_deployment_revision : String
annotation_deployment_revision = "deployment.kubernetes.io/revision"

abbrev pub label_controller_rev_hash : String
label_controller_rev_hash = "controller-revision-hash"

abbrev pub label_rollout_pod_template_hash : String
label_rollout_pod_template_hash = "rollouts-pod-template-hash"

pub record Kinds : Type 0 where
  pub deployments : Bool
  pub stateful_sets : Bool
  pub rollouts : Bool

pub record Workload : Type 0 where
  pub ref : NamespacedName
  pub object : Object
  pub rs : Option ReplicaSet
  pub pod : Option Pod

abbrev pub kind_of : Object → String
kind_of (deployment d) = kind_deployment
kind_of (stateful_set s) = kind_stateful_set
kind_of (rollout r) = kind_rollout

-- WorkloadKey, and Workload.Key.
unfoldable pub workload_key : String → String → String → String
workload_key kind namespace name = concat (kind ∷ "/" ∷ namespace ∷ "/" ∷ name ∷ [])

unfoldable pub key : Workload → String
unfolding workload_key
key w = workload_key (kind_of w.object) w.ref.namespace w.ref.name

unfoldable pub uid : Object → String
uid (deployment d) = d.uid
uid (stateful_set s) = s.uid
uid (rollout r) = r.uid

-- A missing key of a Go map reads as the empty text.
abbrev pub text_or_empty : Option String → String
text_or_empty none = ""
text_or_empty (some s) = s

unfoldable pub value_of : String → Map String String → String
unfolding lookup
value_of k m = text_or_empty (lookup k m)

unfoldable pub fingerprint_template : Library → PodTemplate → String
unfolding delete
fingerprint_template lib t =
    lib.template_digest (record t { annotations = delete annotation_restarted_at t.annotations })

unfoldable pub template_version : Library → Object → String
unfolding fingerprint_template
template_version lib (deployment d) = fingerprint_template lib d.template
template_version lib (stateful_set s) = fingerprint_template lib s.template
template_version lib (rollout r) = r.current_pod_hash

abbrev pub or_one : Option ℤ → ℤ
or_one none = pos 1
or_one (some n) = n

unfoldable pub deployment_settled : Deployment → Bool
deployment_settled d =
    let desired = or_one d.replicas in
    if ltb_ℤ d.observed_generation d.generation
    then false
    else (d.updated_replicas == desired)
      && (d.status_replicas == desired)
      && (d.available_replicas == desired)
      && (d.unavailable_replicas == pos 0)

unfoldable pub stateful_set_settled : StatefulSet → Bool
stateful_set_settled s =
    let desired = or_one s.replicas in
    if ltb_ℤ s.observed_generation s.generation
    then false
    else if not (s.current_revision == s.update_revision)
    then false
    else (s.updated_replicas == desired)
      && (s.status_replicas == desired)
      && (s.ready_replicas == desired)

unfoldable pub rollout_settled : Rollout → Bool
rollout_settled r =
    if not (r.observed_generation == pos 0) && ltb_ℤ r.observed_generation r.generation
    then false
    else r.phase == "Healthy"

unfoldable pub is_settled : Object → Result Bool
unfolding deployment_settled stateful_set_settled rollout_settled
is_settled (deployment d) = ok (deployment_settled d)
is_settled (stateful_set s) =
    if s.update_strategy == "OnDelete"
    then err not_auto_restartable
    else ok (stateful_set_settled s)
is_settled (rollout r) = ok (rollout_settled r)

-- IsCurrentRevision. For a Deployment the ReplicaSet may be nil; for the other two the pod and the
-- ReplicaSet are read unchecked, and ResolveOwner has set them: an absent one reads as no revision.
unfoldable pub deployment_current : Deployment → Option ReplicaSet → Bool
unfolding value_of
deployment_current d none = false
deployment_current d (some rs) =
    not (value_of annotation_deployment_revision rs.annotations == "")
    && (value_of annotation_deployment_revision rs.annotations
        == value_of annotation_deployment_revision d.annotations)

unfoldable pub stateful_set_current : StatefulSet → Option Pod → Bool
unfolding value_of
stateful_set_current s none = false
stateful_set_current s (some pod) =
    not (value_of label_controller_rev_hash pod.labels == "")
    && (value_of label_controller_rev_hash pod.labels == s.update_revision)

unfoldable pub rollout_current : Rollout → Option ReplicaSet → Bool
unfolding value_of
rollout_current r none = false
rollout_current r (some rs) =
    let hash = value_of label_rollout_pod_template_hash rs.labels in
    not (hash == "") && ((hash == r.current_pod_hash) || (hash == r.stable_rs))

abbrev pub current_of : Object → Option ReplicaSet → Option Pod → Bool
current_of (deployment d) rs pod = deployment_current d rs
current_of (stateful_set s) rs pod = stateful_set_current s pod
current_of (rollout r) rs pod = rollout_current r rs

unfoldable pub is_current_revision : Workload → Bool
unfolding deployment_current stateful_set_current rollout_current
is_current_revision w = current_of w.object w.rs w.pod

-- setTemplateRestartedAt; a nil map is an empty one.
unfoldable pub set_template_restarted_at : PodTemplate → String → PodTemplate
unfolding insert
set_template_restarted_at t stamp = record t {
  annotations = insert annotation_restarted_at stamp t.annotations;
}

unfoldable pub pod_selector : Library → Object → Result String
pod_selector lib (deployment d) = lib.label_selector_as_selector d.selector
pod_selector lib (stateful_set s) = lib.label_selector_as_selector s.selector
pod_selector lib (rollout r) = elim r.selector [
  | none ↦ err (other "spec.selector not found")
  | some raw ↦ elim (lib.label_selector_from_unstructured raw) [
    | err e ↦ err (other "parse selector")
    | ok ls ↦ lib.label_selector_as_selector ls
  ]
]
