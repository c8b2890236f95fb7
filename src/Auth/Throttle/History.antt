-- ===== src/Auth/Throttle/History.antt =====
-- The throttles over a whole life of the process (backend/app/auth/throttle.py): the calls that the
-- sign-in, share and single sign-on routes make, in any order and at any times.
use cabinet_numismatics.Prelude.{ℕ, ◌≤◌, String, ◌≡◌, Option, List, [], ◌∷◌, arith, length}
use cabinet_numismatics.Auth.Throttle.Buckets.{Kind, Key, erase, length-erase-le}
use cabinet_numismatics.Auth.Throttle.State.{
  Throttle, Address, Moment, max_keys, bucket_map, key_of,
}
use cabinet_numismatics.Auth.Throttle.Ops.{
  attempt, check_global, clear, wait, check_from, check, fail, succeed, share_failure, oidc_failure,
}
use cabinet_numismatics.Auth.Throttle.Bounds.{
  IsBounded, empty-IsBounded, start-IsBounded, live-IsBounded, attempt-IsBounded,
  check_global-IsBounded, count-IsBounded, bucket_failure-IsBounded, set_map-IsBounded,
}

pub data Call : Type 0 where
  on_attempt : List Key → Moment → Call
  on_check_global : Moment → Call
  on_wait : Kind → String → Moment → Call
  on_check : List (Kind × String × Moment) → Call
  on_fail : Kind → String → ℕ → Call
  on_succeed : Kind → String → Call
  on_share_failure : String → ℕ → Call
  on_oidc_failure : String → ℕ → Call
  on_clear : Call

module _ (ip_address : String → Option Address) where
  unfoldable pub step : Throttle → Call → Throttle
  step s (Call.on_attempt ks m) = (attempt ks m s).0
  step s (Call.on_check_global m) = (check_global m s).0
  step s (Call.on_wait kind value m) = (wait ip_address kind value m s).0
  step s (Call.on_check buckets) = (check ip_address buckets s).0
  step s (Call.on_fail kind value t) = fail ip_address kind value t s
  step s (Call.on_succeed kind value) = succeed ip_address kind value s
  step s (Call.on_share_failure address t) = (share_failure ip_address address t s).0
  step s (Call.on_oidc_failure address t) = (oidc_failure ip_address address t s).0
  step s Call.on_clear = clear s

  unfoldable pub run : List Call → Throttle → Throttle
  run [] s = s
  run (c ∷ cs) s = run cs (step s c)

  wait-IsBounded :
      (kind : Kind) (value : String) (m : Moment) {s : Throttle}
      → IsBounded s
      → IsBounded (wait ip_address kind value m s).0
  unfolding wait
  wait-IsBounded kind value m h = live-IsBounded _ m.at (start-IsBounded m.flag h)

  check_from-IsBounded :
      (buckets : List (Kind × String × Moment)) (longest : ℕ) {s : Throttle}
      → IsBounded s
      → IsBounded (check_from ip_address buckets longest s).0
  unfolding check_from
  check_from-IsBounded [] longest h = h
  check_from-IsBounded ((kind, value, m) ∷ rest) longest {s} h =
      check_from-IsBounded rest _ (wait-IsBounded kind value m h)

  bucket_map-le : (k : Kind) {s : Throttle} → IsBounded s → length (bucket_map k s) ≤ max_keys
  unfolding bucket_map
  bucket_map-le k h = ground arith

  kind-key_of : (kind : Kind) (value : String) → (key_of ip_address kind value).kind ≡ kind
  unfolding key_of
  kind-key_of kind value = ground arith

  succeed-IsBounded :
      (kind : Kind) (value : String) {s : Throttle}
      → IsBounded s
      → IsBounded (succeed ip_address kind value s)
  unfolding succeed
  succeed-IsBounded kind value {s} h =
      let k = key_of ip_address kind value in
      set_map-IsBounded k.kind (erase k (bucket_map k.kind s))
        (omega (arith, length-erase-le k (bucket_map k.kind s), bucket_map-le k.kind h)) h

  step-IsBounded : (c : Call) {s : Throttle} → IsBounded s → IsBounded (step s c)
  unfolding step
  step-IsBounded (Call.on_attempt ks m) h = attempt-IsBounded ks m h
  step-IsBounded (Call.on_check_global m) h = check_global-IsBounded m h
  step-IsBounded (Call.on_wait kind value m) h = wait-IsBounded kind value m h
  step-IsBounded (Call.on_check buckets) h = unfold check in check_from-IsBounded buckets 0 h
  step-IsBounded (Call.on_fail kind value t) h = unfold fail in count-IsBounded _ t h
  step-IsBounded (Call.on_succeed kind value) h = succeed-IsBounded kind value h
  step-IsBounded (Call.on_share_failure address t) h =
      unfold share_failure key_of in bucket_failure-IsBounded _ t (omega arith) h
  step-IsBounded (Call.on_oidc_failure address t) h =
      unfold oidc_failure key_of in bucket_failure-IsBounded _ t (omega arith) h
  step-IsBounded Call.on_clear h = unfold clear in empty-IsBounded

  -- From bounded throttles every series of calls leads to bounded throttles: at most `max_keys`
  -- buckets in each map, 60 counted checks, and 300 counted failures of each other kind.
  pub run-IsBounded : (cs : List Call) (s : Throttle) → IsBounded s → IsBounded (run cs s)
  unfolding run
  run-IsBounded [] s h = h
  run-IsBounded (c ∷ cs) s h = run-IsBounded cs (step s c) (step-IsBounded c h)
