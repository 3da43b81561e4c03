-- ===== src/Profile.antt =====
-- internal/profile: the capture of a profile and the sinks that store it. HTTP, the file system, the AWS
-- client, base64 and the formatting of numbers are parameters. An error result carries no size.
pub mod Capture
use memory_leak_reloader.Base.{
  ℕ, zero, suc, ◌*◌, String, Bool, true, false, Option, none, some, List, [], ◌∷◌, ◌==◌, string_eq,
  if◌then◌else◌, ◌||◌, not, leb, ltb, length,
}
use memory_leak_reloader.Base.Int.{ℤ, pos, int_eq}
use memory_leak_reloader.Base.Text.{concat}
use memory_leak_reloader.Base.Time.{Duration, second}
use memory_leak_reloader.Strings.{trim_one}
use memory_leak_reloader.Restart.Cluster.{Error, other, wrapped, Result, ok, err}
use memory_leak_reloader.Controller.State.{CaptureResult}

abbrev pub Bytes : Type 0
Bytes = List ℕ

-- A response: the bytes that its body gives, and the error that ends it, if it is not the end.
pub record Response : Type 0 where
  pub status_code : ℤ
  pub body : Bytes
  pub failure : Option Error

pub record Outside (U W : Type 0) : Type 0 where
  pub decimal : ℤ → String  -- %d
  pub get : Duration → String → W → Result Response × W  -- a GET under a timeout, its errors as Capture words them
  pub base64 : Bytes → String
  pub join : String → String → String  -- filepath.Join of a directory and a key
  pub dir : String → String  -- filepath.Dir
  pub mkdir_all : String → W → Option Error × W
  pub write_file : String → Bytes → W → Option Error × W
  pub load_config : String → W → Result U × W  -- the S3 client of a region
  pub put_object : U → String → String → Bytes → W → Option Error × W

pub data Sink (U : Type 0) : Type 0 where
  log_sink : Sink U
  volume_sink : String → Sink U  -- Dir
  object_store_sink : Option U → String → String → Sink U  -- Uploader, Bucket, Prefix

abbrev pub sink_name : {U : Type 0} → Sink U → String
sink_name log_sink = "log"
sink_name (volume_sink d) = "volume"
sink_name (object_store_sink u bucket prefix) = "objectstore"

pub record ObjectStoreConfig : Type 0 where
  pub provider : String
  pub bucket : String
  pub prefix : String
  pub region : String

pub record SinkConfig : Type 0 where
  pub type : String
  pub volume_dir : String
  pub object_store : ObjectStoreConfig

pub record Capturer (U : Type 0) : Type 0 where
  pub port : ℤ
  pub timeout : Duration
  pub sink : Sink U

unfoldable pub new_capturer : {U : Type 0} → Sink U → ℤ → Duration → Capturer U
new_capturer sink port timeout = record {
  port = if port == pos 0 then pos 6060 else port;
  timeout = if timeout == pos 0 then pos (10 * second) else timeout;
  sink = sink;
}

-- io.LimitReader and io.ReadAll: what comes after the limit is not read, errors included.
abbrev pub first_bytes : ℕ → Bytes → Bytes
first_bytes zero bs = []
first_bytes (suc n) [] = []
first_bytes (suc n) (b ∷ bs) = b ∷ first_bytes n bs

abbrev pub read_all : ℕ → Bytes → Option Error → Result Bytes
read_all limit bs none = ok (first_bytes limit bs)
read_all limit bs (some e) =
    if leb limit (length bs) then ok (first_bytes limit bs) else err (wrapped "read pprof body" e)

abbrev pub max_profile : ℕ
max_profile = 33554432

abbrev pub object_key : String → String → String
object_key prefix key =
    if trim_one b'/' prefix == "" then key else concat (trim_one b'/' prefix ∷ "/" ∷ key ∷ [])

module _ {U W : Type 0} (out : Outside U W) where
  abbrev pub written : String → Option Error × W → Result String × W
  written uri (none, w) = (ok uri, w)
  written uri (some e, w) = (err e, w)

  abbrev pub write_under : String → Bytes → Option Error × W → Result String × W
  write_under path data' (some e, w) = (err e, w)
  write_under path data' (none, w) =
      written (concat ("file://" ∷ path ∷ [])) (out.write_file path data' w)

  abbrev pub upload : Option U → String → String → Bytes → W → Result String × W
  upload none bucket full data' w = (err (other "object store uploader not configured"), w)
  upload (some u) bucket full data' w =
      written (concat ("s3" ∷ "://" ∷ bucket ∷ "/" ∷ full ∷ []))
        (out.put_object u bucket full data' w)

  -- Put.
  unfoldable pub put : Sink U → String → Bytes → W → Result String × W
  put log_sink key data' w =
      (ok (concat ("data:application/octet-stream;base64," ∷ out.base64 data' ∷ [])), w)
  put (volume_sink d) key data' w =
      let path = out.join d key in write_under path data' (out.mkdir_all (out.dir path) w)
  put (object_store_sink u bucket prefix) key data' w =
      upload u bucket (object_key prefix key) data' w

  abbrev pub stored : Sink U → Bytes → Result String × W → Result CaptureResult × W
  stored sink data' (err e, w) =
      (err (wrapped (concat ("write profile to " ∷ sink_name sink ∷ [])) e), w)
  stored sink data' (ok uri, w) = (ok (record { uri = uri; size = length data' }), w)

  abbrev pub put_read : Sink U → String → Result Bytes → W → Result CaptureResult × W
  put_read sink key (err e) w = (err e, w)
  put_read sink key (ok data') w = stored sink data' (put sink key data' w)

  abbrev pub on_response : Sink U → String → String → Result Response × W → Result CaptureResult × W
  on_response sink url key (err e, w) = (err e, w)
  on_response sink url key (ok r, w) =
      if not (r.status_code == pos 200)
      then (
        err (other (concat ("pprof " ∷ url ∷ " returned HTTP " ∷ out.decimal r.status_code ∷ []))),
        w,
      )
      else put_read sink key (read_all max_profile r.body r.failure) w

  abbrev pub pprof_url : Capturer U → String → String → String
  pprof_url c ip path = concat ("http://" ∷ ip ∷ ":" ∷ out.decimal c.port ∷ path ∷ [])

  unfoldable pub capture : Capturer U → String → String → String → W → Result CaptureResult × W
  unfolding put
  capture c ip path key w =
      let url = pprof_url c ip path in
      if ip == ""
      then (err (other "pod has no IP yet"), w)
      else on_response c.sink url key (out.get c.timeout url w)

  abbrev pub s3_sink : ObjectStoreConfig → Result U × W → Result (Sink U) × W
  s3_sink cfg (err e, w) = (err (wrapped "load AWS config" e), w)
  s3_sink cfg (ok u, w) = (ok (object_store_sink (some u) cfg.bucket cfg.prefix), w)

  abbrev pub object_store : ObjectStoreConfig → W → Result (Sink U) × W
  object_store cfg w =
      if cfg.bucket == ""
      then (err (other "objectstore sink requires a bucket"), w)
      else if (cfg.provider == "s3") || (cfg.provider == "")
      then s3_sink cfg (out.load_config cfg.region w)
      else if (cfg.provider == "gcs") || (cfg.provider == "azblob")
      then (err (other "object store provider not yet implemented"), w)
      else (err (other "unknown object store provider"), w)

  -- NewSink; an error's text is cut short.
  unfoldable pub new_sink : SinkConfig → W → Result (Sink U) × W
  new_sink cfg w =
      if cfg.type == "log"
      then (ok log_sink, w)
      else if cfg.type == "volume"
      then (if cfg.volume_dir == ""
          then (err (other "volume sink requires a mount path"), w)
          else (ok (volume_sink cfg.volume_dir), w))
      else if (cfg.type == "objectstore") || (cfg.type == "")
      then object_store cfg.object_store w
      else (err (other "unknown profile sink type"), w)
