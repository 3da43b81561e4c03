-- ===== src/Datasource.antt =====
-- internal/datasource: where the memory use of the containers comes from. HTTP, JSON, URLs and the
-- metrics API are no part of the program: a Web has what it calls of them. `F` is Go's float64. An
-- error's text is given without the quotes that %q puts around a value.
pub mod Prometheus
pub mod Datadog
pub mod Source
pub mod Scope
use memory_leak_reloader.Base.{
  ℕ, String, Bool, true, false, Option, none, some, List, [], ◌∷◌, ◌==◌, string_eq, if◌then◌else◌,
  not,
}
use memory_leak_reloader.Base.Int.{ℤ, pos, int_eq}
use memory_leak_reloader.Base.Map.{Map}
use memory_leak_reloader.Base.Text.{concat}
use memory_leak_reloader.Base.Time.{Time}
use memory_leak_reloader.Restart.Cluster.{Error, other, wrapped, Result, ok, err}

pub record Usage : Type 0 where
  pub namespace : String
  pub pod : String
  pub container : String
  pub working_set : ℤ

pub record Response : Type 0 where
  pub status_code : ℤ
  pub body : String

-- promResponse; of a sample's value the program reads the second part, a raw JSON text.
pub record PromResult : Type 0 where
  pub metric : Map String String
  pub value : String

pub record PromResponse : Type 0 where
  pub status : String
  pub result : List PromResult
  pub error : String

-- ddResponse.
pub record DatadogSeries (F : Type 0) : Type 0 where
  pub tag_set : List String
  pub point_list : List (List F)

pub record DatadogResponse (F : Type 0) : Type 0 where
  pub status : String
  pub error : String
  pub series : List (DatadogSeries F)

pub record ContainerUsage : Type 0 where
  pub name : String
  pub memory : ℤ

pub record PodMetrics : Type 0 where
  pub namespace : String
  pub name : String
  pub containers : List ContainerUsage

pub record Web (W F : Type 0) : Type 0 where
  pub get : String → Map String String → W → Result Response × W  -- an HTTP GET with headers
  pub with_query : String → Map String String → Result String  -- a URL with query parameters
  pub decode_prom : String → Result PromResponse
  pub decode_datadog : String → Result (DatadogResponse F)
  pub decode_text : String → Result String  -- a JSON string
  pub parse_float : String → Result F
  pub to_int64 : F → ℤ
  pub now : W → Time
  pub unix : Time → String  -- Unix seconds, in decimal
  pub decimal : ℤ → String
  -- PodMetricses(ns).List, with a limit or without one.
  pub list_pod_metrics : String → Option ℕ → W → Result (List PodMetrics) × W

module _ {W F : Type 0} (web : Web W F) where
  abbrev pub decoded : {A : Type 0} → Result A → Result A
  decoded (ok a) = ok a
  decoded (err e) = err (wrapped "decode response" e)

  abbrev pub read_body : {A : Type 0} → (String → Result A) → String → Result Response → Result A
  read_body decode url (err e) = err e
  read_body decode url (ok r) =
      if not (r.status_code == pos 200)
      then err (other (concat ("GET " ∷ url ∷ " returned HTTP " ∷ web.decimal r.status_code ∷ [])))
      else decoded (decode r.body)

  -- getJSON.
  unfoldable pub get_json :
      {A : Type 0} → (String → Result A) → String → Map String String → W → Result A × W
  get_json decode url headers w =
      let (r, w') = web.get url headers w in (read_body decode url r, w')

-- namespaceSet, and its use: no set stands for all namespaces.
abbrev pub is_in : String → List String → Bool
is_in ns [] = false
is_in ns (m ∷ ms) = let rest = is_in ns ms in if m == ns then true else rest

unfoldable pub is_wanted : List String → String → Bool
is_wanted [] ns = true
is_wanted (m ∷ ms) ns = is_in ns (m ∷ ms)
