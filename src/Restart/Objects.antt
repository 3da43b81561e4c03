-- ===== src/Restart/Objects.antt =====
-- The Kubernetes objects, as far as the program reads them. The pod template keeps its annotations
-- apart from the rest, which the program never takes apart. A Rollout is an unstructured object, of
-- which the program reads single fields; a field that is absent or of another type reads as "" or 0.
use memory_leak_reloader.Base.{String, Bool, Option, List}
use memory_leak_reloader.Base.Int.{ℤ}
use memory_leak_reloader.Base.Map.{Map}
use memory_leak_reloader.Base.Time.{Time}

pub record NamespacedName : Type 0 where
  pub namespace : String
  pub name : String

pub record OwnerReference : Type 0 where
  pub kind : String
  pub name : String
  pub controller : Option Bool

pub record PodTemplate : Type 0 where
  pub annotations : Map String String
  pub rest : String

pub record Deployment : Type 0 where
  pub ref : NamespacedName
  pub uid : String
  pub annotations : Map String String
  pub generation : ℤ
  pub replicas : Option ℤ
  pub selector : String
  pub template : PodTemplate
  pub observed_generation : ℤ
  pub status_replicas : ℤ
  pub updated_replicas : ℤ
  pub available_replicas : ℤ
  pub unavailable_replicas : ℤ

pub record StatefulSet : Type 0 where
  pub ref : NamespacedName
  pub uid : String
  pub generation : ℤ
  pub replicas : Option ℤ
  pub selector : String
  pub template : PodTemplate
  pub update_strategy : String
  pub observed_generation : ℤ
  pub current_revision : String
  pub update_revision : String
  pub status_replicas : ℤ
  pub updated_replicas : ℤ
  pub ready_replicas : ℤ

pub record Rollout : Type 0 where
  pub ref : NamespacedName
  pub uid : String
  pub generation : ℤ
  pub observed_generation : ℤ
  pub phase : String
  pub current_pod_hash : String
  pub stable_rs : String
  pub selector : Option String
  pub restart_at : String

pub record ReplicaSet : Type 0 where
  pub annotations : Map String String
  pub labels : Map String String
  pub owners : List OwnerReference

pub record Container : Type 0 where
  pub name : String
  pub memory_limit : Option ℤ
  pub restart_policy : Option String

pub record ContainerStatus : Type 0 where
  pub name : String
  pub restart_count : ℤ

pub record PodCondition : Type 0 where
  pub type : String
  pub status : String

pub record Pod : Type 0 where
  pub namespace : String
  pub name : String
  pub uid : String
  pub annotations : Map String String
  pub labels : Map String String
  pub owners : List OwnerReference
  pub creation_timestamp : Time
  pub containers : List Container
  pub init_containers : List Container
  pub start_time : Option Time
  pub pod_ip : String
  pub conditions : List PodCondition
  pub container_statuses : List ContainerStatus
  pub init_container_statuses : List ContainerStatus

-- A workload's object; which it is says the Kind.
pub data Object : Type 0 where
  deployment : Deployment → Object
  stateful_set : StatefulSet → Object
  rollout : Rollout → Object
