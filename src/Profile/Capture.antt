-- ===== src/Profile/Capture.antt =====
-- What a capture that succeeds has stored (internal/profile/capture.go).
use memory_leak_reloader.Base.{
  ℕ, zero, suc, ◌≤◌, String, Option, none, some, [], ◌∷◌, ◌≡◌, refl, subst, arith, ◌==◌, string_eq,
  length, Bool-cases, inl, inr, leb,
}
use memory_leak_reloader.Base.Int.{pos, int_eq}
use memory_leak_reloader.Restart.Cluster.{Error, Result, ok, err}
use memory_leak_reloader.Controller.State.{CaptureResult}
use memory_leak_reloader.Profile.{
  Bytes, Response, Outside, Capturer, first_bytes, read_all, max_profile, put, stored, put_read,
  on_response, pprof_url, capture,
}

length-first_bytes : (n : ℕ) (bs : Bytes) → length (first_bytes n bs) ≤ n
length-first_bytes zero bs = omega arith
length-first_bytes (suc n) [] = omega arith
length-first_bytes (suc n) (b ∷ bs) = omega (arith, length-first_bytes n bs)

length-read : (n : ℕ) (bs d : Bytes) → first_bytes n bs ≡ d → length d ≤ n
length-read n bs d e = subst (λ x. length x ≤ n) e (length-first_bytes n bs)

length-read_all :
    (n : ℕ) (bs : Bytes) (f : Option Error) (d : Bytes) → read_all n bs f ≡ ok d → length d ≤ n
length-read_all n bs none d h = length-read n bs d (cc h)
length-read_all n bs (some e) d h = elim (Bool-cases (leb n (length bs))) [
  | inl cut ↦ length-read n bs d (cc (rw cut at h))
  | inr short ↦ absurd (cc (rw short at h))
]

module _ {U W : Type 0} (out : Outside U W) (c : Capturer U) where
  -- What stands behind a result: a response of 200, and what of its body was put into the sink.
  pub record Captured (ip path key : String) (w : W) (r : CaptureResult) : Type 0 where
    pub response : Response
    pub answered : W
    pub blob : Bytes
    pub after : W
    pub fetched : out.get c.timeout (pprof_url out c ip path) w ≡ (ok response, answered)
    pub status : response.status_code ≡ pos 200
    pub read : read_all max_profile response.body response.failure ≡ ok blob
    pub kept : put out c.sink key blob answered ≡ (ok r.uri, after)
    pub size : r.size ≡ length blob
    pub bounded : r.size ≤ max_profile

  put-Captured :
      (ip path key : String) (w : W) (r : CaptureResult) (q : Response) (w1 : W) (d : Bytes)
      → out.get c.timeout (pprof_url out c ip path) w ≡ (ok q, w1)
      → q.status_code ≡ pos 200
      → read_all max_profile q.body q.failure ≡ ok d
      → (stored out c.sink d (put out c.sink key d w1)).0 ≡ ok r
      → Captured ip path key w r
  put-Captured ip path key w r q w1 d got fine read h =
      answered (put out c.sink key d w1).0 (put out c.sink key d w1).1 refl h
    where
      answered :
          (p : Result String) (w2 : W)
          → put out c.sink key d w1 ≡ (p, w2)
          → (stored out c.sink d (p, w2)).0 ≡ ok r
          → Captured ip path key w r
      answered (err e) w2 kept h' = absurd (cc h')
      answered (ok uri) w2 kept h' =
          let same : record { uri = uri; size = length d } ≡ r = cc h' in
          subst (Captured ip path key w) same (record {
            response = q;
            answered = w1;
            blob = d;
            after = w2;
            fetched = got;
            status = fine;
            read = read;
            kept = kept;
            size = refl;
            bounded = length-read_all max_profile q.body q.failure d read;
          })

  read-Captured :
      (ip path key : String) (w : W) (r : CaptureResult) (q : Response) (w1 : W) (d : Result Bytes)
      → out.get c.timeout (pprof_url out c ip path) w ≡ (ok q, w1)
      → q.status_code ≡ pos 200
      → read_all max_profile q.body q.failure ≡ d
      → (put_read out c.sink key d w1).0 ≡ ok r
      → Captured ip path key w r
  read-Captured ip path key w r q w1 (err e) got fine read h = absurd (cc h)
  read-Captured ip path key w r q w1 (ok d) got fine read h =
      put-Captured ip path key w r q w1 d got fine read h

  response-Captured :
      (ip path key : String) (w : W) (r : CaptureResult) (q : Result Response) (w1 : W)
      → out.get c.timeout (pprof_url out c ip path) w ≡ (q, w1)
      → (on_response out c.sink (pprof_url out c ip path) key (q, w1)).0 ≡ ok r
      → Captured ip path key w r
  response-Captured ip path key w r (err e) w1 got h = absurd (cc h)
  response-Captured ip path key w r (ok q) w1 got h = elim (Bool-cases (q.status_code == pos 200)) [
    | inl fine ↦
        read-Captured ip path key w r q w1 _ got ((int_eq.beq_iff q.status_code (pos 200)).0 fine)
          refl (rw fine at h)
    | inr bad ↦ absurd (cc (rw bad at h))
  ]

  -- A capture that succeeds has fetched the profile with status 200 and stored what it read of it in
  -- the sink, which gave the URI of the result; its size is that of the stored blob, at most 32 MiB.
  pub capture-Captured :
      (ip path key : String) (w : W) (r : CaptureResult)
      → (capture out c ip path key w).0 ≡ ok r
      → Captured ip path key w r
  unfolding capture
  capture-Captured ip path key w r h = elim (Bool-cases (ip == "")) [
    | inl none_yet ↦ absurd (cc (rw none_yet at h))
    | inr placed ↦ response-Captured ip path key w r _ _ refl (rw placed at h)
  ]
