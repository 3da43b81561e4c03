-- ===== src/Datasource/Scope.antt =====
-- The data sources respect the controller's scope (internal/datasource).
use memory_leak_reloader.Base.{
  String, Bool, true, false, none, Option, some, List, [], ◌∷◌, ◌≡◌, ◌≢◌, ◌⊎◌, inl, inr, refl, All,
  All-append, if_both, Bool-cases, ◌==◌, string_eq, not, eq_of_beq, subst, sym,
}
use memory_leak_reloader.Base.Int.{ℤ}
use memory_leak_reloader.Restart.Cluster.{Result, ok, err}
use memory_leak_reloader.Datasource.{
  Usage, PodMetrics, ContainerUsage, PromResult, PromResponse, DatadogSeries, DatadogResponse, Web,
  is_in, is_wanted,
}
use memory_leak_reloader.Datasource.Prometheus
use memory_leak_reloader.Datasource.Datadog
use memory_leak_reloader.Datasource.Source.{
  Source, metrics_server, prometheus, datadog, container_usages, pod_usages, add_usages, or_all,
  list_on, list_namespaces, list_usage,
}

abbrev pub Listed : String → List String → Type 0
Listed ns [] = ⊥
Listed ns (m ∷ ms) = (m ≡ ns) ⊎ Listed ns ms

-- A usage in one of the namespaces; no namespace stands for all.
abbrev pub InScope : List String → Usage → Type 0
InScope [] u = Unit
InScope (m ∷ ms) u = Listed u.namespace (m ∷ ms)

abbrev pub AllInScope : List String → Result (List Usage) → Type 0
AllInScope ns (err e) = Unit
AllInScope ns (ok us) = All (InScope ns) us

Listed-of_is_in : (ns : String) (ms : List String) → is_in ns ms ≡ true → Listed ns ms
Listed-of_is_in ns [] h = absurd (cc h)
Listed-of_is_in ns (m ∷ ms) h = elim (Bool-cases (m == ns)) [
  | inl same ↦ inl (eq_of_beq m ns same)
  | inr other ↦ inr (Listed-of_is_in ns ms (rw other at h))
]

InScope-of_is_wanted :
    (want : List String) (u : Usage) → is_wanted want u.namespace ≡ true → InScope want u
unfolding is_wanted
InScope-of_is_wanted [] u h = tt
InScope-of_is_wanted (m ∷ ms) u h = Listed-of_is_in u.namespace (m ∷ ms) h

wanted_of : (b : Bool) → not b ≡ false → b ≡ true
wanted_of true h = refl
wanted_of false h = cc h

module _ {W F : Type 0} (web : Web W F) where
  add_prom :
      (want : List String) (ns pod container : String) (v : Result ℤ) (out : List Usage)
      → is_wanted want ns ≡ true
      → All (InScope want) out
      → All (InScope want) (Prometheus.add_usage web ns pod container v out)
  add_prom want ns pod container (err e) out h a = a
  add_prom want ns pod container (ok val) out h a = (InScope-of_is_wanted want _ h, a)

  prom_usages :
      (want : List String) (rs : List PromResult)
      → All (InScope want) (Prometheus.usages web want rs)
  unfolding Prometheus.usages
  prom_usages want [] = tt
  prom_usages want (r ∷ rs) =
      let rest = prom_usages want rs in
      let out = Prometheus.usages web want rs in
      let ns = Prometheus.label "namespace" r in
      let used =
        Prometheus.add_usage web ns (Prometheus.label "pod" r) (Prometheus.label "container" r)
          (Prometheus.sample_value web r.value) out in
      if_both (All (InScope want)) (Prometheus.is_skipped web r) out
        (Prometheus.add_wanted web want r out) (λ e. rest)
        (λ e.
          if_both (All (InScope want)) (not (is_wanted want ns)) out used (λ e'. rest)
            (λ e'.
              add_prom want ns _ _ (Prometheus.sample_value web r.value) out (wanted_of _ e') rest))

  prom_listed :
      (want : List String) (r : Result PromResponse)
      → AllInScope want (Prometheus.listed web want r)
  prom_listed want (err e) = tt
  prom_listed want (ok r) = prom_usages want r.result

  add_datadog :
      (want : List String) (t : Datadog.Tags) (v : Option F) (out : List Usage)
      → is_wanted want t.namespace ≡ true
      → All (InScope want) out
      → All (InScope want) (Datadog.add_usage web t v out)
  add_datadog want t none out h a = a
  add_datadog want t (some val) out h a = (InScope-of_is_wanted want _ h, a)

  datadog_usages :
      (want : List String) (ss : List (DatadogSeries F))
      → All (InScope want) (Datadog.usages web want ss)
  unfolding Datadog.usages
  datadog_usages want [] = tt
  datadog_usages want (s ∷ ss) =
      let rest = datadog_usages want ss in
      let t = Datadog.tags_from_set s.tag_set in
      if_both (All (InScope want)) _ _ _ (λ e. rest)
        (λ e.
          if_both (All (InScope want)) (not (is_wanted want t.namespace)) _ _ (λ e'. rest)
            (λ e'. add_datadog want t (Datadog.last_point s.point_list) _ (wanted_of _ e') rest))

  datadog_listed :
      (want : List String) (r : Result (DatadogResponse F))
      → AllInScope want (Datadog.listed web want r)
  datadog_listed want (err e) = tt
  datadog_listed want (ok r) = datadog_usages want r.series

-- A listing of the metrics API in a namespace has the pods of that namespace.
abbrev pub ListsNamespace : {W F : Type 0} → Web W F → Type 0
ListsNamespace {W} web =
    (ns : String) (w : W) (pms : List PodMetrics)
    → ns ≢ ""
    → (web.list_pod_metrics ns none w).0 ≡ ok pms
    → All (λ (pm : PodMetrics). pm.namespace ≡ ns) pms

abbrev pub IsNamed : String → Type 0
IsNamed ns = ns ≢ ""

module _ {W F : Type 0} (web : Web W F) (scoped : ListsNamespace web) where
  container_usages-InScope :
      (want : List String) (pm : PodMetrics) (cs : List ContainerUsage)
      → ((u : Usage) → u.namespace ≡ pm.namespace → InScope want u)
      → All (InScope want) (container_usages pm cs)
  unfolding container_usages
  container_usages-InScope want pm [] h = tt
  container_usages-InScope want pm (c ∷ cs) h = (h _ refl, container_usages-InScope want pm cs h)

  pod_usages-InScope :
      (want : List String) (ns : String) (pms : List PodMetrics)
      → ((u : Usage) → u.namespace ≡ ns → InScope want u)
      → All (λ (pm : PodMetrics). pm.namespace ≡ ns) pms
      → All (InScope want) (pod_usages pms)
  unfolding pod_usages
  pod_usages-InScope want ns [] h a = tt
  pod_usages-InScope want ns (pm ∷ pms) h a =
      All-append (InScope want) (container_usages pm pm.containers) (pod_usages pms)
        (container_usages-InScope want pm pm.containers (λ u e. h u (cc (e, a.0))))
        (pod_usages-InScope want ns pms h a.1)

  add_usages-InScope :
      (want : List String) (us : List Usage) (a : Result (List Usage) × W)
      → All (InScope want) us
      → AllInScope want a.0
      → AllInScope want (add_usages us a).0
  add_usages-InScope want us (err e, w) h a = tt
  add_usages-InScope want us (ok out, w) h a = All-append (InScope want) us out h a

  list_on-InScope :
      (want : List String) (ns : String) (a : Result (List PodMetrics) × W)
      (next : W → Result (List Usage) × W)
      → ((pms : List PodMetrics) → a.0 ≡ ok pms → All (InScope want) (pod_usages pms))
      → ((w : W) → AllInScope want (next w).0)
      → AllInScope want (list_on web ns a next).0
  list_on-InScope want ns (err e, w) next h k = tt
  list_on-InScope want ns (ok pms, w) next h k =
      add_usages-InScope want (pod_usages pms) (next w) (h pms refl) (k w)

  Within : List String → List String → Type 0
  Within nss want = All (λ n. (n ≢ "") × ((u : Usage) → u.namespace ≡ n → InScope want u)) nss

  list_namespaces-InScope :
      (want nss : List String) (w : W)
      → Within nss want
      → AllInScope want (list_namespaces web nss w).0
  unfolding list_namespaces Within
  list_namespaces-InScope want [] w h = tt
  list_namespaces-InScope want (ns ∷ nss) w h =
      list_on-InScope want ns (web.list_pod_metrics ns none w) (λ w'. list_namespaces web nss w')
        (λ pms e. pod_usages-InScope want ns pms h.0.1 (scoped ns w pms h.0.0 e))
        (λ w'. list_namespaces-InScope want nss w' h.1)

  any_usage : (us : List Usage) → All (InScope []) us
  any_usage [] = tt
  any_usage (u ∷ us) = (tt, any_usage us)

  any_result : (r : Result (List Usage)) → AllInScope [] r
  any_result (err e) = tt
  any_result (ok us) = any_usage us

  Within-of_Listed :
      (want nss : List String)
      → All IsNamed nss
      → ((n : String) → Listed n nss → Listed n want)
      → want ≢ []
      → Within nss want
  unfolding Within
  Within-of_Listed want [] h k e = tt
  Within-of_Listed [] (n ∷ nss) h k e = absurd (e refl)
  Within-of_Listed (m ∷ ms) (n ∷ nss) h k e = (
    (h.0, λ u q. subst (λ x. Listed x (m ∷ ms)) (sym q) (k n (inl refl))),
    Within-of_Listed (m ∷ ms) nss h.1 (λ x l. k x (inr l)) e,
  )

  metrics-InScope :
      (namespaces : List String) (w : W)
      → All IsNamed namespaces
      → AllInScope namespaces (list_namespaces web (or_all namespaces) w).0
  metrics-InScope [] w h = any_result _
  metrics-InScope (n ∷ ns) w h =
      list_namespaces-InScope (n ∷ ns) (n ∷ ns) w
        (Within-of_Listed (n ∷ ns) (n ∷ ns) h (λ x l. l) (λ e. absurd (cc e)))

  -- For named namespaces, and where a listing of the metrics API in a namespace has the pods of that
  -- namespace alone: whichever source is configured and whatever it answers, each usage that it
  -- returns lies in one of the namespaces asked for; with none asked for, any may.
  pub list_usage-InScope :
      (src : Source) (namespaces : List String) (w : W)
      → All IsNamed namespaces
      → AllInScope namespaces (list_usage web src namespaces w).0
  unfolding list_usage Prometheus.list_usage Datadog.list_usage
  list_usage-InScope (metrics_server scope) namespaces w h = metrics-InScope namespaces w h
  list_usage-InScope (prometheus o) namespaces w h =
      prom_listed web namespaces (Prometheus.query web o w).0
  list_usage-InScope (datadog o) namespaces w h =
      datadog_listed web namespaces (Datadog.query_range web o w).0
