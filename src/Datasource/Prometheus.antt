-- ===== src/Datasource/Prometheus.antt =====
-- internal/datasource/prometheus.go.
use memory_leak_reloader.Base.{
  String, Bool, Option, none, some, List, [], ◌∷◌, ◌==◌, string_eq, if◌then◌else◌, ◌||◌, not,
}
use memory_leak_reloader.Base.Int.{ℤ}
use memory_leak_reloader.Base.Map.{Map, lookup}
use memory_leak_reloader.Base.Text.{concat}
use memory_leak_reloader.Strings.{is_blank, trim_suffix}
use memory_leak_reloader.Restart.Cluster.{Error, other, wrapped, Result, ok, err}
use memory_leak_reloader.Datasource.{Usage, PromResult, PromResponse, Web, get_json, is_wanted}

pub record Options : Type 0 where
  pub url : String
  pub query : String
  pub bearer_token : String

abbrev pub default_query : String
default_query = "container_memory_working_set_bytes"

-- newPrometheusSource, but for the HTTP client.
unfoldable pub new_source : Options → Result Options
unfolding is_blank
new_source o =
    if is_blank o.url
    then err (other "prometheus source requires a URL")
    else ok (if is_blank o.query then record o { query = default_query } else o)

-- A label that the metric lacks reads as "".
abbrev pub or_empty : Option String → String
or_empty none = ""
or_empty (some s) = s

unfoldable pub label : String → PromResult → String
label name r = or_empty (lookup name r.metric)

module _ {W F : Type 0} (web : Web W F) where
  abbrev pub succeeded : Result PromResponse → Result PromResponse
  succeeded (err e) = err e
  succeeded (ok r) =
      if not (r.status == "success")
      then err (other (concat ("prometheus query error: " ∷ r.error ∷ [])))
      else ok r

  abbrev pub headers : Options → Map String String
  headers o =
      if not (o.bearer_token == "")
      then ("Authorization", concat ("Bearer " ∷ o.bearer_token ∷ [])) ∷ []
      else []

  abbrev pub query_at : Options → Result String → W → Result PromResponse × W
  query_at o (err e) w = (err e, w)
  query_at o (ok url) w =
      let (r, w') = get_json web web.decode_prom url (headers o) w in (succeeded r, w')

  -- query.
  unfoldable pub query : Options → W → Result PromResponse × W
  query o w =
      query_at o
        (web.with_query (concat (trim_suffix b'/' o.url ∷ "/api/v1/query" ∷ []))
          (("query", o.query) ∷ []))
        w

  -- promSampleValue.
  abbrev pub parsed : Result F → Result ℤ
  parsed (err e) = err e
  parsed (ok f) = ok (web.to_int64 f)

  abbrev pub unquoted : Result String → Result ℤ
  unquoted (err e) = err e
  unquoted (ok s) = parsed (web.parse_float s)

  unfoldable pub sample_value : String → Result ℤ
  sample_value raw = unquoted (web.decode_text raw)

  abbrev pub add_usage : String → String → String → Result ℤ → List Usage → List Usage
  add_usage ns pod container (err e) out = out
  add_usage ns pod container (ok val) out =
      record { namespace = ns; pod = pod; container = container; working_set = val } ∷ out

  -- A container's result, in a wanted namespace.
  abbrev pub add_wanted : List String → PromResult → List Usage → List Usage
  add_wanted want r out =
      let ns = label "namespace" r in
      if not (is_wanted want ns)
      then out
      else add_usage ns (label "pod" r) (label "container" r) (sample_value r.value) out

  abbrev pub is_skipped : PromResult → Bool
  is_skipped r =
      let container = label "container" r in
      (container == "") || (container == "POD") || (label "pod" r == "")

  -- The loop of ListUsage over the results.
  unfoldable pub usages : List String → List PromResult → List Usage
  unfolding label is_wanted
  usages want [] = []
  usages want (r ∷ rs) =
      let rest = usages want rs in if is_skipped r then rest else add_wanted want r rest

  abbrev pub listed : List String → Result PromResponse → Result (List Usage)
  listed want (err e) = err e
  listed want (ok r) = ok (usages want r.result)

  unfoldable pub list_usage : Options → List String → W → Result (List Usage) × W
  list_usage o want w = let (r, w') = query o w in (listed want r, w')

  abbrev pub probed : Options → Result PromResponse → Option Error
  probed o (ok r) = none
  probed o (err e) = some (wrapped (concat ("prometheus probe failed for " ∷ o.url ∷ [])) e)

  unfoldable pub probe : Options → W → Option Error × W
  probe o w = let (r, w') = query o w in (probed o r, w')
