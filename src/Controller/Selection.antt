-- ===== src/Controller/Selection.antt =====
-- internal/controller/selection.go: which containers of a pod are monitored.
pub mod Laws
use Prim.Native.String.{compare}
use text.Mathlib.Text.{is_lt}
use memory_leak_reloader.Base.{
  ℕ, suc, String, Bool, true, false, Option, none, some, List, [], ◌∷◌, ◌++◌, ◌==◌, string_eq,
  if◌then◌else◌, ◌&&◌, not, filterb, head?,
}
use memory_leak_reloader.Base.Int.{ℤ, pos, int_eq, ltb_ℤ, leb_ℤ}
use memory_leak_reloader.Base.Map.{Map, lookup, insert}
use memory_leak_reloader.Config.{Detection, PodConfig, for_container, containers_all}
use memory_leak_reloader.Restart.Objects.{Pod, Container}
use memory_leak_reloader.Restart.Workload.{value_of}

abbrev pub annotation_default_container : String
annotation_default_container = "kubectl.kubernetes.io/default-container"

pub record Target : Type 0 where
  pub name : String
  pub limit_bytes : ℤ
  pub det : Detection

pub record Candidate : Type 0 where
  pub name : String
  pub limit : ℤ

abbrev pub limit_value : Option ℤ → ℤ
limit_value none = pos 0
limit_value (some q) = q

-- memLimit.
unfoldable pub mem_limit : Container → ℤ
mem_limit c = limit_value c.memory_limit

abbrev pub is_always : Option String → Bool
is_always none = false
is_always (some p) = p == "Always"

-- The two loops of candidates.
unfoldable pub regular : List Container → List Candidate
unfolding mem_limit
regular [] = []
regular (c ∷ cs) = record { name = c.name; limit = mem_limit c } ∷ regular cs

unfoldable pub sidecars : List Container → List Candidate
unfolding mem_limit
sidecars [] = []
sidecars (c ∷ cs) =
    let rest = sidecars cs in
    if is_always c.restart_policy
    then record { name = c.name; limit = mem_limit c } ∷ rest
    else rest

unfoldable pub candidates : Pod → List Candidate
unfolding regular sidecars
candidates pod = regular pod.containers ++ sidecars pod.init_containers

unfoldable pub by_name : List Candidate → Map String Candidate → Map String Candidate
unfolding insert
by_name [] m = m
by_name (c ∷ cs) m = by_name cs (insert c.name c m)

abbrev pub add_found : Option Candidate → List Candidate → List Candidate
add_found none cs = cs
add_found (some c) cs = c ∷ cs

unfoldable pub named : Map String Candidate → List String → List Candidate
unfolding lookup
named m [] = []
named m (n ∷ ns) = add_found (lookup n m) (named m ns)

-- The order of sort.Slice: the larger limit first, then by name.
unfoldable pub less : Candidate → Candidate → Bool
less a b = if not (a.limit == b.limit) then ltb_ℤ b.limit a.limit else is_lt (compare a.name b.name)

unfoldable pub sort_insert : Candidate → List Candidate → List Candidate
unfolding less
sort_insert c [] = c ∷ []
sort_insert c (d ∷ ds) = let rest = sort_insert c ds in if less d c then d ∷ rest else c ∷ d ∷ ds

unfoldable pub sort : List Candidate → List Candidate
unfolding sort_insert
sort [] = []
sort (c ∷ cs) = sort_insert c (sort cs)

-- The first candidate of a name.
unfoldable pub find_named : String → List Candidate → Option Candidate
find_named n [] = none
find_named n (c ∷ cs) = if c.name == n then some c else find_named n cs

abbrev pub with_limit : List Candidate → List Candidate
with_limit = filterb (λ c. ltb_ℤ (pos 0) c.limit)

abbrev pub first_of_two : Option Candidate → Option Candidate → Option Candidate
first_of_two none d = d
first_of_two (some c) d = some c

-- defaultContainer.
unfoldable pub default_container : Pod → List Candidate → Option Candidate
default_container pod cands =
    let name = value_of annotation_default_container pod.annotations in
    let largest = head? (sort (with_limit cands)) in
    if not (name == "") then first_of_two (find_named name cands) largest else largest

-- The switch on the requested monitor set.
unfoldable pub selected : Pod → List String → List Candidate
unfolding candidates default_container by_name named
selected pod [] = add_found (default_container pod (candidates pod)) []
selected pod (n ∷ []) =
    if n == containers_all then candidates pod else named (by_name (candidates pod) []) (n ∷ [])
selected pod (n ∷ m ∷ ns) = named (by_name (candidates pod) []) (n ∷ m ∷ ns)

abbrev pub is_monitorable : ℤ → Detection → Bool
is_monitorable limit det = elim det.threshold_absolute [
  | none ↦ ltb_ℤ (pos 0) limit
  | some q ↦ true
]

-- The loop over the selected containers: the targets, and the number dropped.
unfoldable pub keep_monitorable : PodConfig → List Candidate → List Target × ℕ
unfolding for_container
keep_monitorable cfg [] = ([], 0)
keep_monitorable cfg (c ∷ cs) =
    let (targets, dropped) = keep_monitorable cfg cs in
    let det = for_container cfg c.name in
    if is_monitorable c.limit det
    then (record { name = c.name; limit_bytes = c.limit; det = det } ∷ targets, dropped)
    else (targets, suc dropped)

unfoldable pub select_targets : Pod → PodConfig → List Target × ℕ
unfolding keep_monitorable selected
select_targets pod cfg = keep_monitorable cfg (selected pod cfg.containers)
