-- ===== src/Restart/Cluster.antt =====
-- What the program uses and does not implement: the API server behind controller-runtime's client,
-- and functions of the Kubernetes libraries. They are parameters of the model. The server's state is
-- of a type `W`; each call may find it changed by others, so each returns the state after it.
use memory_leak_reloader.Base.{String, Bool, true, false, Option, List}
use memory_leak_reloader.Base.Time.{Time}
use memory_leak_reloader.Api.{MemoryLeakPolicy, Condition}
use memory_leak_reloader.Restart.Objects.{
  NamespacedName, OwnerReference, PodTemplate, Deployment, StatefulSet, Rollout, ReplicaSet, Pod,
  Object,
}

pub data Error : Type 0 where
  not_found conflict no_owner not_auto_restartable : Error
  other : String → Error
  wrapped : String → Error → Error

-- apierrors.IsNotFound and IsConflict, which look through what wraps an error.
unfoldable pub is_not_found : Error → Bool
is_not_found not_found = true
is_not_found conflict = false
is_not_found no_owner = false
is_not_found not_auto_restartable = false
is_not_found (other m) = false
is_not_found (wrapped m e) = is_not_found e

unfoldable pub is_conflict : Error → Bool
is_conflict not_found = false
is_conflict conflict = true
is_conflict no_owner = false
is_conflict not_auto_restartable = false
is_conflict (other m) = false
is_conflict (wrapped m e) = is_conflict e

-- errors.Is with ErrNoOwner and with ErrNotAutoRestartable.
unfoldable pub is_no_owner : Error → Bool
is_no_owner not_found = false
is_no_owner conflict = false
is_no_owner no_owner = true
is_no_owner not_auto_restartable = false
is_no_owner (other m) = false
is_no_owner (wrapped m e) = is_no_owner e

unfoldable pub is_not_auto_restartable : Error → Bool
is_not_auto_restartable not_found = false
is_not_auto_restartable conflict = false
is_not_auto_restartable no_owner = false
is_not_auto_restartable not_auto_restartable = true
is_not_auto_restartable (other m) = false
is_not_auto_restartable (wrapped m e) = is_not_auto_restartable e

pub data Result {ℓ} (A : Type ℓ) : Type ℓ where
  ok : A → Result A
  err : Error → Result A

-- client.Client. An update writes the server's answer into the object that it is given.
pub record Client (W : Type 0) : Type 0 where
  pub get_policy : NamespacedName → W → Result MemoryLeakPolicy × W
  pub list_policies : String → W → Result (List MemoryLeakPolicy) × W
  pub update_policy : MemoryLeakPolicy → W → Result MemoryLeakPolicy × W
  pub update_status : MemoryLeakPolicy → W → Result MemoryLeakPolicy × W
  pub get_deployment : NamespacedName → W → Result Deployment × W
  pub get_stateful_set : NamespacedName → W → Result StatefulSet × W
  pub get_rollout : NamespacedName → W → Result Rollout × W
  pub get_replica_set : NamespacedName → W → Result ReplicaSet × W
  pub list_pods : String → String → W → Result (List Pod) × W
  -- Patch with the difference of two objects.
  pub patch : Object → Object → W → Option Error × W

-- metav1, meta, controllerutil, unstructured, runtime; and json.Marshal with sha256 and hex, of
-- which the program only compares results.
pub record Library : Type 0 where
  pub controller_of : List OwnerReference → Option OwnerReference
  pub set_status_condition : List Condition → Condition → List Condition
  pub contains_finalizer : MemoryLeakPolicy → String → Bool
  pub add_finalizer : MemoryLeakPolicy → String → Bool × MemoryLeakPolicy
  pub remove_finalizer : MemoryLeakPolicy → String → MemoryLeakPolicy
  pub label_selector_as_selector : String → Result String
  pub label_selector_from_unstructured : String → Result String
  pub set_restart_at : Rollout → String → Result Rollout
  pub template_digest : PodTemplate → String
  pub rfc3339 : Time → String
