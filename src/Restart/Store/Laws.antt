-- ===== src/Restart/Store/Laws.antt =====
-- What the sweep and the status writes guarantee (internal/restart/store.go).
use memory_leak_reloader.Base.{
  String, true, Option, none, some, List, [], ◌∷◌, ◌≡◌, ◌≢◌, ◌⊎◌, inl, inr, refl, sym, ◌∙◌, ap,
  apart_of_beq, arith, ◌==◌, string_eq, Bool-cases, All,
}
use mathlib.Core.List.{Memᴰ}
use memory_leak_reloader.Base.Int.{◌≤ℤ◌, ◌<ℤ◌}
use memory_leak_reloader.Base.Time.{Time, Duration, since}
use memory_leak_reloader.Api.{MemoryLeakPolicy, InFlightRollout, outcome_superseded}
use memory_leak_reloader.Restart.Cluster.{
  Error, is_not_found, is_conflict, Result, ok, err, Client, Library,
}
use memory_leak_reloader.Restart.Workload.{Workload, uid, template_version, workload_key}
use memory_leak_reloader.Restart.Store.{
  Closing, close, keep, timed_out, persist_end, retry, after_update, persist, classify,
  classify_in_flight, settle, sweep_one, add_key, sweep, sweep_on,
}

module _ {W : Type 0} (c : Client W) (lib : Library) where
  -- Why a rollout in flight is not the controller's any more.
  pub data IsSuperseded (p : MemoryLeakPolicy) (f : InFlightRollout) (r : Result Workload)
      : Type 0 where
    gone : (e : Error) → r ≡ err e → is_not_found e ≡ true → IsSuperseded p f r
    recreated :
        (wl : Workload) → r ≡ ok wl → uid wl.object ≢ p.status.workload_uid → IsSuperseded p f r
    diverged :
        (wl : Workload)
        → r ≡ ok wl
        → f.dispatched_version ≢ ""
        → template_version lib wl.object ≢ ""
        → template_version lib wl.object ≢ f.dispatched_version
        → IsSuperseded p f r

  -- A sweep lets a rollout in flight go once it is as old as the timeout, whatever the API server
  -- answers for its workload.
  pub classify_aged :
      (p : MemoryLeakPolicy) (f : InFlightRollout) (now : Time) (timeout : Duration)
      (r : Result Workload)
      → timeout ≤ℤ since now f.dispatched_at
      → (classify c lib p f now timeout r).release ≡ true
  unfolding timed_out
  classify_aged p f now timeout (err e) h = ground arith
  classify_aged p f now timeout (ok wl) h = ground arith

  of_superseded :
      (p : MemoryLeakPolicy) (f : InFlightRollout) (now : Time) (timeout : Duration)
      (r : Result Workload)
      → IsSuperseded p f r
      → classify c lib p f now timeout r ≡ close outcome_superseded
  of_superseded p f now timeout r (gone e h k) = rw (h, k)
  of_superseded p f now timeout r (recreated wl e h) =
      rw e (ground (arith, string_eq.beq_iff (uid wl.object) p.status.workload_uid))
  of_superseded p f now timeout r (diverged wl e h k l) = rw e (
      ground (
        arith,
        string_eq.beq_iff f.dispatched_version "",
        string_eq.beq_iff (template_version lib wl.object) "",
        string_eq.beq_iff (template_version lib wl.object) f.dispatched_version,
      ))

  young_kept :
      (f : InFlightRollout) (now : Time) (timeout : Duration)
      → since now f.dispatched_at <ℤ timeout
      → timed_out f now timeout ≡ keep
  unfolding timed_out
  young_kept f now timeout h = ground arith

  -- What the sweep makes of a rollout before its timeout: it is closed, with the outcome Superseded,
  -- or kept as it is.
  abbrev pub Verdict : MemoryLeakPolicy → InFlightRollout → Result Workload → Closing → Type 0
  Verdict p f r x =
      (IsSuperseded p f r × (x ≡ close outcome_superseded))
      ⊎ ((IsSuperseded p f r → ⊥) × (x ≡ keep))

  Verdict-superseded :
      (p : MemoryLeakPolicy) (f : InFlightRollout) (now : Time) (timeout : Duration)
      (r : Result Workload)
      → IsSuperseded p f r
      → Verdict p f r (classify c lib p f now timeout r)
  Verdict-superseded p f now timeout r s = inl (s, of_superseded p f now timeout r s)

  Verdict-kept :
      (p : MemoryLeakPolicy) (f : InFlightRollout) (now : Time) (timeout : Duration)
      (r : Result Workload)
      → classify c lib p f now timeout r ≡ keep
      → Verdict p f r (classify c lib p f now timeout r)
  Verdict-kept p f now timeout r k =
      let closed = λ (s : IsSuperseded p f r). sym (of_superseded p f now timeout r s) ∙ k in
      inr (λ s. absurd (cc (ap (λ (x : Closing). x.release) (closed s))), k)

  -- Before the timeout, the sweep closes a rollout in flight, with the outcome Superseded, if its
  -- workload is gone, was recreated under another UID, or has a template version other than the
  -- dispatched one, both known; in every other case, any other error of the API server included, it
  -- keeps it.
  pub classify_young :
      (p : MemoryLeakPolicy) (f : InFlightRollout) (now : Time) (timeout : Duration)
      (r : Result Workload)
      → since now f.dispatched_at <ℤ timeout
      → Verdict p f r (classify c lib p f now timeout r)
  classify_young p f now timeout (err e) h = elim (Bool-cases (is_not_found e)) [
    | inl missing ↦ Verdict-superseded p f now timeout (err e) (gone e refl missing)
    | inr other ↦ Verdict-kept p f now timeout (err e) (rw other (young_kept f now timeout h))
  ]
  classify_young p f now timeout (ok wl) h =
      let v = template_version lib wl.object in
      elim (Bool-cases (uid wl.object == p.status.workload_uid)) [
        | inr moved ↦
            Verdict-superseded p f now timeout (ok wl)
              (recreated wl refl (apart_of_beq (uid wl.object) p.status.workload_uid moved))
        | inl same ↦ elim (Bool-cases (f.dispatched_version == "")) [
          | inl unknown ↦
              Verdict-kept p f now timeout (ok wl) (rw (same, unknown) (young_kept f now timeout h))
          | inr known ↦ elim (Bool-cases (v == "")) [
            | inl unread ↦
                Verdict-kept p f now timeout (ok wl)
                  (rw (same, known, unread) (young_kept f now timeout h))
            | inr read ↦ elim (Bool-cases (v == f.dispatched_version)) [
              | inl ours ↦
                  Verdict-kept p f now timeout (ok wl)
                    (rw (same, known, read, ours) (young_kept f now timeout h))
              | inr theirs ↦ Verdict-superseded p f now timeout (ok wl) (
                  diverged wl refl (apart_of_beq f.dispatched_version "" known)
                    (apart_of_beq v "" read) (apart_of_beq v f.dispatched_version theirs))
            ]
          ]
        ]
      ]

  -- An update of the status that the server accepted: of the policy itself, or, after a conflict, of
  -- the policy that was read again, with the status of the first one.
  pub data Accepted (p : MemoryLeakPolicy) (w : W) : Type 0 where
    at_once : (q : MemoryLeakPolicy) (w' : W) → c.update_status p w ≡ (ok q, w') → Accepted p w
    retried :
        (e : Error) (fresh q : MemoryLeakPolicy) (w1 w2 w3 : W)
        → c.update_status p w ≡ (err e, w1)
        → is_conflict e ≡ true
        → c.get_policy (record { namespace = p.namespace; name = p.name }) w1 ≡ (ok fresh, w2)
        → c.update_status (record fresh { status = p.status }) w2 ≡ (ok q, w3)
        → Accepted p w

  -- Whatever came of the retry, it went through the copy that was read.
  retry-Accepted :
      (p : MemoryLeakPolicy) (w w1 : W) (e : Error) (r : Result MemoryLeakPolicy × W)
      → c.update_status p w ≡ (err e, w1)
      → is_conflict e ≡ true
      → c.get_policy (record { namespace = p.namespace; name = p.name }) w1 ≡ r
      → (retry c lib p r).0.0 ≡ none
      → Accepted p w
  retry-Accepted p w w1 e (err x, w2) first stale read h = absurd (cc h)
  retry-Accepted p w w1 e (ok fresh, w2) first stale read h =
      go (c.update_status (record fresh { status = p.status }) w2) refl h
    where
      go :
          (r : Result MemoryLeakPolicy × W)
          → c.update_status (record fresh { status = p.status }) w2 ≡ r
          → (persist_end p r).0.0 ≡ none
          → Accepted p w
      go (ok q, w3) second k = retried e fresh q w1 w2 w3 first stale read second
      go (err x, w3) second k = absurd (cc k)

  after_Accepted :
      (p : MemoryLeakPolicy) (w : W) (r : Result MemoryLeakPolicy × W)
      → c.update_status p w ≡ r
      → (after_update c lib p r).0.0 ≡ none
      → Accepted p w
  after_Accepted p w (ok q, w') e h = at_once q w' e
  after_Accepted p w (err x, w') e h = elim (Bool-cases (is_conflict x)) [
    | inl stale ↦ retry-Accepted p w w' x _ e stale refl (rw stale at h)
    | inr other ↦ absurd (cc (rw other at h))
  ]

  -- When Persist reports no error, the API server has accepted an update that carries the policy's
  -- status: of the policy itself on the first try; or, when that was answered by a conflict, of the
  -- policy that was read again after it, with this status put in.
  pub persist-Accepted :
      (p : MemoryLeakPolicy) (w : W) → (persist c lib p w).0.0 ≡ none → Accepted p w
  unfolding persist
  persist-Accepted p w h = after_Accepted p w _ refl h

  abbrev pub Has : String → List String → Type 0
  Has k [] = ⊥
  Has k (x ∷ xs) = (x ≡ k) ⊎ Has k xs

  abbrev pub key_of : MemoryLeakPolicy → String
  key_of p = workload_key p.spec.workload_ref.kind p.namespace p.spec.workload_ref.name

  -- A policy whose rollout in flight is as old as the timeout has its key among these.
  abbrev pub FreedIfAged : Time → Duration → List String → MemoryLeakPolicy → Type 0
  FreedIfAged now timeout keys p =
      (f : InFlightRollout)
      → p.status.in_flight ≡ some f
      → timeout ≤ℤ since now f.dispatched_at
      → Has (key_of p) keys

  settle_aged :
      (p : MemoryLeakPolicy) (now : Time) (closing : Closing) (w : W)
      → closing.release ≡ true
      → (settle c lib p now (closing, w)).0.0 ≡ some (key_of p)
  settle_aged p now closing w h = ground arith

  sweep_one_aged :
      (p : MemoryLeakPolicy) (now : Time) (timeout : Duration) (w : W) (f : InFlightRollout)
      → p.status.in_flight ≡ some f
      → timeout ≤ℤ since now f.dispatched_at
      → (sweep_one c lib p now timeout w).0.0 ≡ some (key_of p)
  unfolding sweep_one classify_in_flight
  sweep_one_aged p now timeout w f e h =
      rw (e, sweep_one) (settle_aged p now _ _ (classify_aged p f now timeout _ h))

  Has-add_key :
      (k : String) (o : Option String) (s : List String × Option Error)
      → Has k s.0
      → Has k (add_key c lib o s).0
  Has-add_key k none s h = h
  Has-add_key k (some x) s h = inr h

  All-FreedIfAged :
      (now : Time) (timeout : Duration) (o : Option String) (s : List String × Option Error)
      (ps : List MemoryLeakPolicy)
      → All (FreedIfAged now timeout s.0) ps
      → All (FreedIfAged now timeout (add_key c lib o s).0) ps
  All-FreedIfAged now timeout o s [] h = tt
  All-FreedIfAged now timeout o s (p ∷ ps) h =
      (λ f e a. Has-add_key (key_of p) o s (h.0 f e a), All-FreedIfAged now timeout o s ps h.1)

  head_freed :
      (k : String) (o : Option String) (s : List String × Option Error)
      → o ≡ some k
      → Has k (add_key c lib o s).0
  head_freed k o s e = rw e (inl refl)

  error_of : (o : Option String) (s : List String × Option Error) → (add_key c lib o s).1 ≡ s.1
  error_of none s = refl
  error_of (some x) s = refl

  on_freed :
      (p : MemoryLeakPolicy) (ps : List MemoryLeakPolicy) (now : Time) (timeout : Duration)
      (one : (Option String × Option Error) × W) (rest : (List String × Option Error) × W)
      → ((f : InFlightRollout)
          → p.status.in_flight ≡ some f
          → timeout ≤ℤ since now f.dispatched_at
          → one.0.0 ≡ some (key_of p))
      → (rest.0.1 ≡ none → All (FreedIfAged now timeout rest.0.0) ps)
      → (sweep_on c lib one rest).0.1 ≡ none
      → All (FreedIfAged now timeout (sweep_on c lib one rest).0.0) (p ∷ ps)
  on_freed p ps now timeout ((k, none), w) (s, w') first later h = (
    λ f e a. head_freed (key_of p) k s (first f e a),
    All-FreedIfAged now timeout k s ps (later (rw (error_of k s) at h)),
  )
  on_freed p ps now timeout ((k, some x), w) rest first later h =
      cc (rw (error_of k ([], some x)) at h)

  sweep_all :
      (ps : List MemoryLeakPolicy) (now : Time) (timeout : Duration) (w : W)
      → (sweep c lib ps now timeout w).0.1 ≡ none
      → All (FreedIfAged now timeout (sweep c lib ps now timeout w).0.0) ps
  unfolding sweep
  sweep_all [] now timeout w h = tt
  sweep_all (p ∷ ps) now timeout w h =
      let one = sweep_one c lib p now timeout w in
      on_freed p ps now timeout one (sweep c lib ps now timeout one.1)
        (λ f e a. sweep_one_aged p now timeout w f e a) (sweep_all ps now timeout one.1) h

  FreedIfAged-of_member :
      (now : Time) (timeout : Duration) (keys : List String) (ps : List MemoryLeakPolicy)
      (p : MemoryLeakPolicy)
      → All (FreedIfAged now timeout keys) ps
      → Memᴰ p ps
      → FreedIfAged now timeout keys p
  FreedIfAged-of_member now timeout keys [] p a m = elim m [ ]
  FreedIfAged-of_member now timeout keys (q ∷ ps) p a (Memᴰ.head e) = rw e (a.0)
  FreedIfAged-of_member now timeout keys (q ∷ ps) p a (Memᴰ.tail m) =
      FreedIfAged-of_member now timeout keys ps p a.1 m

  -- A sweep that ends without an error names every listed workload whose rollout in flight is as old
  -- as the timeout: its slot is released, so a stuck rollout cannot hold capacity for ever.
  pub sweep_frees_aged :
      (ps : List MemoryLeakPolicy) (now : Time) (timeout : Duration) (w : W) (p : MemoryLeakPolicy)
      (f : InFlightRollout)
      → (sweep c lib ps now timeout w).0.1 ≡ none
      → Memᴰ p ps
      → p.status.in_flight ≡ some f
      → timeout ≤ℤ since now f.dispatched_at
      → Has (key_of p) (sweep c lib ps now timeout w).0.0
  sweep_frees_aged ps now timeout w p f h m e a =
      FreedIfAged-of_member now timeout _ ps p (sweep_all ps now timeout w h) m f e a
