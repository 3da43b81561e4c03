-- ===== src/Datasource/Source.antt =====
-- internal/datasource/datasource.go and metricsserver.go: the choice of a source.
use memory_leak_reloader.Base.{
  String, Bool, Option, none, some, List, [], ◌∷◌, ◌++◌, ◌==◌, string_eq, if◌then◌else◌, ◌||◌,
}
use memory_leak_reloader.Base.Text.{concat}
use memory_leak_reloader.Restart.Cluster.{Error, other, wrapped, Result, ok, err}
use memory_leak_reloader.Datasource.{Usage, ContainerUsage, PodMetrics, Web}
use memory_leak_reloader.Datasource.Prometheus
use memory_leak_reloader.Datasource.Datadog

abbrev pub type_metrics_server : String
type_metrics_server = "metrics-server"

abbrev pub type_prometheus : String
type_prometheus = "prometheus"

abbrev pub type_datadog : String
type_datadog = "datadog"

pub record Options : Type 0 where
  pub type : String
  pub namespaces : List String
  pub prometheus : Prometheus.Options
  pub datadog : Datadog.Options

-- A Source is one of the three; that of the metrics server has the controller's scope.
pub data Source : Type 0 where
  metrics_server : List String → Source
  prometheus : Prometheus.Options → Source
  datadog : Datadog.Options → Source

abbrev pub map_ok : {A B : Type 0} → (A → B) → Result A → Result B
map_ok f (ok a) = ok (f a)
map_ok f (err e) = err e

-- New; the flag says whether there is a metrics client.
unfoldable pub new : Options → Bool → Result Source
unfolding Prometheus.new_source Datadog.new_source
new o has_client =
    if (o.type == type_metrics_server) || (o.type == "")
    then if has_client
      then ok (metrics_server o.namespaces)
      else err (other "metrics-server source requires a metrics client")
    else if o.type == type_prometheus
    then map_ok prometheus (Prometheus.new_source o.prometheus)
    else if o.type == type_datadog
    then map_ok datadog (Datadog.new_source o.datadog)
    else err (other (concat ("unknown datasource type " ∷ o.type ∷ [])))

abbrev pub name : Source → String
name (metrics_server ns) = type_metrics_server
name (prometheus o) = type_prometheus
name (datadog o) = type_datadog

unfoldable pub container_usages : PodMetrics → List ContainerUsage → List Usage
container_usages pm [] = []
container_usages pm (c ∷ cs) =
    record { namespace = pm.namespace; pod = pm.name; container = c.name; working_set = c.memory }
    ∷ container_usages pm cs

unfoldable pub pod_usages : List PodMetrics → List Usage
unfolding container_usages
pod_usages [] = []
pod_usages (pm ∷ pms) = container_usages pm pm.containers ++ pod_usages pms

-- No namespace stands for all.
abbrev pub or_all : List String → List String
or_all [] = "" ∷ []
or_all (n ∷ ns) = n ∷ ns

abbrev pub first_or_all : List String → String
first_or_all [] = ""
first_or_all (n ∷ ns) = n

abbrev pub add_usages :
    {W : Type 0} → List Usage → Result (List Usage) × W → Result (List Usage) × W
add_usages us (err e, w) = (err e, w)
add_usages us (ok out, w) = (ok (us ++ out), w)

module _ {W F : Type 0} (web : Web W F) where
  abbrev pub list_on :
      String
      → Result (List PodMetrics) × W
      → (W → Result (List Usage) × W)
      → Result (List Usage) × W
  list_on ns (err e, w) next = (err (wrapped (concat ("list pod metrics in " ∷ ns ∷ [])) e), w)
  list_on ns (ok pms, w) next = add_usages (pod_usages pms) (next w)

  -- The loop of ListUsage over the namespaces; an error ends it.
  unfoldable pub list_namespaces : List String → W → Result (List Usage) × W
  list_namespaces [] w = (ok [], w)
  list_namespaces (ns ∷ nss) w =
      list_on ns (web.list_pod_metrics ns none w) (λ w'. list_namespaces nss w')

  unfoldable pub list_usage : Source → List String → W → Result (List Usage) × W
  list_usage (metrics_server scope) namespaces w = list_namespaces (or_all namespaces) w
  list_usage (prometheus o) namespaces w = Prometheus.list_usage web o namespaces w
  list_usage (datadog o) namespaces w = Datadog.list_usage web o namespaces w

  abbrev pub probed : Result (List PodMetrics) × W → Option Error × W
  probed (ok pms, w) = (none, w)
  probed (err e, w) = (
    some (
        wrapped
          "metrics-server probe failed (is metrics-server installed and RBAC granted on metrics.k8s.io?)"
          e),
    w,
  )

  unfoldable pub probe : Source → W → Option Error × W
  probe (metrics_server scope) w = probed (web.list_pod_metrics (first_or_all scope) (some 1) w)
  probe (prometheus o) w = Prometheus.probe web o w
  probe (datadog o) w = Datadog.probe web o w
