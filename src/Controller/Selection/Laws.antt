-- ===== src/Controller/Selection/Laws.antt =====
-- What the selection of containers guarantees (internal/controller/selection.go).
use memory_leak_reloader.Base.{
  ℕ, suc, true, false, none, some, List, [], ◌∷◌, ◌≡◌, ◌⊎◌, inl, inr, arith, string_eq, All, head?,
  Bool-cases, Option-cases,
}
use memory_leak_reloader.Base.Int.{ℤ, pos, int_eq, ◌≤ℤ◌, ◌<ℤ◌, ltb_ℤ}
use memory_leak_reloader.Api.{Quantity}
use memory_leak_reloader.Config.{PodConfig, for_container}
use memory_leak_reloader.Restart.Objects.{Pod}
use memory_leak_reloader.Controller.Selection.{
  Target, Candidate, is_monitorable, keep_monitorable, selected, select_targets, less, sort_insert,
  sort, with_limit, default_container, annotation_default_container,
}
use memory_leak_reloader.Restart.Workload.{value_of}

-- A container can be monitored with a positive memory limit, or with an absolute threshold.
abbrev pub CanMonitor : PodConfig → Candidate → Type 0
CanMonitor cfg c =
    (pos 0 <ℤ c.limit) ⊎ ((q : Quantity) × ((for_container cfg c.name).threshold_absolute ≡ some q))

-- The selected containers, told apart into targets and a number of dropped ones.
pub data Splits (cfg : PodConfig) : List Candidate → List Target → ℕ → Type 0 where
  finished : Splits cfg [] [] 0
  kept :
      (c : Candidate) (cs : List Candidate) (ts : List Target) (n : ℕ)
      → CanMonitor cfg c
      → Splits cfg cs ts n
      → Splits cfg
          (c ∷ cs)
          (record { name = c.name; limit_bytes = c.limit; det = for_container cfg c.name } ∷ ts)
          n
  dropped :
      (c : Candidate) (cs : List Candidate) (ts : List Target) (n : ℕ)
      → (CanMonitor cfg c → ⊥)
      → Splits cfg cs ts n
      → Splits cfg (c ∷ cs) ts (suc n)

is_monitorable-CanMonitor :
    (cfg : PodConfig) (c : Candidate)
    → is_monitorable c.limit (for_container cfg c.name) ≡ true
    → CanMonitor cfg c
is_monitorable-CanMonitor cfg c h =
    elim (Option-cases (for_container cfg c.name).threshold_absolute) [
      | inl unset ↦ let k = rw unset at h in inl (ground (arith, k))
      | inr (q, e) ↦ inr (q, e)
    ]

unmonitorable :
    (cfg : PodConfig) (c : Candidate)
    → is_monitorable c.limit (for_container cfg c.name) ≡ false
    → CanMonitor cfg c
    → ⊥
unmonitorable cfg c h (inr (q, e)) = absurd (cc (rw e at h))
unmonitorable cfg c h (inl positive) =
    elim (Option-cases (for_container cfg c.name).threshold_absolute) [
      | inl unset ↦ let k = rw unset at h in ground (arith, k)
      | inr (q, e) ↦ absurd (cc (rw e at h))
    ]

keep_monitorable-Splits :
    (cfg : PodConfig) (cs : List Candidate)
    → Splits cfg cs (keep_monitorable cfg cs).0 (keep_monitorable cfg cs).1
unfolding keep_monitorable
keep_monitorable-Splits cfg [] = finished
keep_monitorable-Splits cfg (c ∷ cs) =
    let rest = keep_monitorable-Splits cfg cs in
    elim (Bool-cases (is_monitorable c.limit (for_container cfg c.name))) [
      | inl good ↦ rw good (kept c cs _ _ (is_monitorable-CanMonitor cfg c good) rest)
      | inr bad ↦ rw bad (dropped c cs _ _ (unmonitorable cfg c bad) rest)
    ]

-- Each selected container that has a positive memory limit or whose own configuration has an absolute
-- threshold is a target, in the order of the selection, with its name, its limit and its own
-- configuration; each other selected container is dropped and counted; and there is no other target.
pub select_targets-Splits :
    (pod : Pod) (cfg : PodConfig)
    → Splits cfg (selected pod cfg.containers) (select_targets pod cfg).0 (select_targets pod cfg).1
unfolding select_targets
select_targets-Splits pod cfg = keep_monitorable-Splits cfg (selected pod cfg.containers)

abbrev pub AtMost : ℤ → Candidate → Type 0
AtMost n c = c.limit ≤ℤ n

head?-sort_insert :
    (c : Candidate) (ds : List Candidate) (x : Candidate)
    → head? (sort_insert c ds) ≡ some x
    → (c.limit ≤ℤ x.limit)
      × ((e : Candidate) → head? ds ≡ some e → e.limit ≤ℤ x.limit)
      × ((x ≡ c) ⊎ (head? ds ≡ some x))
unfolding sort_insert less
head?-sort_insert c [] x h = (ground arith, λ e k. absurd (cc k), ground arith)
head?-sort_insert c (d ∷ ds) x h = (ground arith, λ e k. ground arith, ground arith)

sort_insert-ne-nil : (c : Candidate) (ds : List Candidate) → head? (sort_insert c ds) ≡ none → ⊥
unfolding sort_insert
sort_insert-ne-nil c [] h = cc
sort_insert-ne-nil c (d ∷ ds) h = ground arith

All-AtMost-mono : (n m : ℤ) (cs : List Candidate) → n ≤ℤ m → All (AtMost n) cs → All (AtMost m) cs
All-AtMost-mono n m [] h a = tt
All-AtMost-mono n m (c ∷ cs) h a = (omega arith, All-AtMost-mono n m cs h a.1)

All-sort_none {κ} :
    (P : Candidate → Type κ) (cs : List Candidate) → head? (sort cs) ≡ none → All P cs
unfolding sort
All-sort_none P [] h = tt
All-sort_none P (c ∷ cs) h = absurd (sort_insert-ne-nil c (sort cs) h)

head?-sort-AtMost :
    (cs : List Candidate) (x : Candidate) → head? (sort cs) ≡ some x → All (AtMost x.limit) cs
unfolding sort
head?-sort-AtMost [] x h = tt
head?-sort-AtMost (c ∷ cs) x h =
    let first = head?-sort_insert c (sort cs) x h in
    (
      first.0,
      elim (Option-cases (head? (sort cs))) [
        | inl nothing ↦ All-sort_none (AtMost x.limit) cs nothing
        | inr (e, k) ↦ All-AtMost-mono e.limit x.limit cs (first.1 e k) (head?-sort-AtMost cs e k)
      ],
    )

head?-sort-All {κ} :
    (P : Candidate → Type κ) (cs : List Candidate) (x : Candidate)
    → All P cs
    → head? (sort cs) ≡ some x
    → P x
unfolding sort
head?-sort-All P [] x a h = absurd (cc h)
head?-sort-All P (c ∷ cs) x a h = elim (head?-sort_insert c (sort cs) x h).2 [
  | inl e ↦ rw e a.0
  | inr k ↦ head?-sort-All P cs x a.1 k
]

abbrev HasLimit : Candidate → Type 0
HasLimit c = pos 0 <ℤ c.limit

All-with_limit : (cs : List Candidate) → All HasLimit (with_limit cs)
All-with_limit [] = tt
All-with_limit (c ∷ cs) = elim (Bool-cases (ltb_ℤ (pos 0) c.limit)) [
  | inl good ↦ rw good (ground arith, All-with_limit cs)
  | inr bad ↦ rw bad (All-with_limit cs)
]

All-of_with_limit :
    (n : ℤ) (cs : List Candidate) → pos 0 <ℤ n → All (AtMost n) (with_limit cs) → All (AtMost n) cs
All-of_with_limit n [] h a = tt
All-of_with_limit n (c ∷ cs) h a = elim (Bool-cases (ltb_ℤ (pos 0) c.limit)) [
  | inl good ↦ let b = rw good at a in (b.0, All-of_with_limit n cs h b.1)
  | inr bad ↦ (ground arith, All-of_with_limit n cs h (rw bad at a))
]

-- In a pod that names no default container, the container that is watched by default has a memory
-- limit, and no candidate has a larger one.
pub default_container_largest :
    (pod : Pod) (cands : List Candidate) (d : Candidate)
    → value_of annotation_default_container pod.annotations ≡ ""
    → default_container pod cands ≡ some d
    → (pos 0 <ℤ d.limit) × All (AtMost d.limit) cands
unfolding default_container
default_container_largest pod cands d unnamed h =
    let largest : head? (sort (with_limit cands)) ≡ some d =
      ground
        (arith, string_eq.beq_iff (value_of annotation_default_container pod.annotations) "") in
    let positive = head?-sort-All HasLimit (with_limit cands) d (All-with_limit cands) largest in
    (
      positive,
      All-of_with_limit d.limit cands positive (head?-sort-AtMost (with_limit cands) d largest),
    )
