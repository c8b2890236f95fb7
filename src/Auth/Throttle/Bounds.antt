-- ===== src/Auth/Throttle/Bounds.antt =====
-- The sizes of the maps and queues of the throttles, operation by operation
-- (backend/app/auth/throttle.py).
use cabinet_numismatics.Prelude.{ℕ, ◌≤◌, ◌<◌, List, [], ◌∷◌, ◌++◌, arith, length, length-append}
use cabinet_numismatics.Auth.Throttle.Buckets.{
  Kind, share, oidc, Key, Buckets, push, length-erase-le, length-evict,
}
use cabinet_numismatics.Auth.Throttle.State.{
  Throttle, empty, Moment, Flag, max_keys, bucket_map, set_map, live, bump, apply_reset_flag,
  global_per_minute, share_global_per_minute, oidc_global_per_minute,
}
use cabinet_numismatics.Auth.Throttle.Queue.{length-pop_old, until_oldest-pos}
use cabinet_numismatics.Auth.Throttle.Ops.{
  longest_wait, count_each, count_all, attempt, pop_old, check_global, count, recent_failures,
  set_failures, bucket_failure,
}

pub record IsBounded (s : Throttle) : Type 0 where
  pub entries_le : length s.entries ≤ max_keys
  pub checks_le : length s.checks ≤ global_per_minute
  pub shares_le : length s.shares ≤ max_keys
  pub share_failures_le : length s.share_failures ≤ share_global_per_minute
  pub oidc_entries_le : length s.oidc_entries ≤ max_keys
  pub oidc_failures_le : length s.oidc_failures ≤ oidc_global_per_minute

pub empty-IsBounded : IsBounded empty
empty-IsBounded = omega arith

pub live-IsBounded : (k : Key) (t : ℕ) {s : Throttle} → IsBounded s → IsBounded (live k t s).0
unfolding live set_map bucket_map
live-IsBounded k t {s} h = ground (
  arith,
  length-erase-le k s.entries,
  length-erase-le k s.shares,
  length-erase-le k s.oidc_entries,
)

pub start-IsBounded : (f : Flag) {s : Throttle} → IsBounded s → IsBounded (apply_reset_flag f s)
unfolding apply_reset_flag
start-IsBounded f h = ground arith

longest_wait-IsBounded :
    (ks : List Key) (t acc : ℕ) (s : Throttle) → IsBounded s → IsBounded (longest_wait ks t acc s).0
unfolding longest_wait
longest_wait-IsBounded [] t acc s h = h
longest_wait-IsBounded (k ∷ ks) t acc s h =
    longest_wait-IsBounded ks t _ (live k t s).0 (live-IsBounded k t h)

pub check_global-IsBounded :
    (m : Moment) {s : Throttle} → IsBounded s → IsBounded (check_global m s).0
unfolding check_global
check_global-IsBounded m {s} h =
    let s' = apply_reset_flag m.flag s in
    let b = start-IsBounded m.flag h in
    let kept = pop_old m.at s'.checks in
    ground (arith, b, length-pop_old m.at s'.checks, length-append kept (m.at ∷ []))

-- Every part but the sign-in map is bounded; the map is cut to size when the attempt is counted.
record IsBoundedApart (s : Throttle) : Type 0 where
  checks_le : length s.checks ≤ global_per_minute
  shares_le : length s.shares ≤ max_keys
  share_failures_le : length s.share_failures ≤ share_global_per_minute
  oidc_entries_le : length s.oidc_entries ≤ max_keys
  oidc_failures_le : length s.oidc_failures ≤ oidc_global_per_minute

live-IsBoundedApart :
    (k : Key) (t : ℕ) {s : Throttle} → IsBoundedApart s → IsBoundedApart (live k t s).0
unfolding live set_map bucket_map
live-IsBoundedApart k t {s} h =
    ground (arith, length-erase-le k s.shares, length-erase-le k s.oidc_entries)

count_each-IsBoundedApart :
    (ks : List Key) (t : ℕ) (s : Throttle) → IsBoundedApart s → IsBoundedApart (count_each ks t s)
unfolding count_each
count_each-IsBoundedApart [] t s h = h
count_each-IsBoundedApart (k ∷ ks) t s h =
    let (s', entry) = live k t s in
    let h' : IsBoundedApart s' = live-IsBoundedApart k t h in
    count_each-IsBoundedApart ks t (record s' { entries = push k (bump entry t) s'.entries })
      (assumption h')

count_all-IsBounded :
    (ks : List Key) (t : ℕ) (s : Throttle) → IsBounded s → IsBounded (count_all ks t s)
unfolding count_all
count_all-IsBounded ks t s h =
    let apart = count_each-IsBoundedApart ks t s (assumption h) in
    let s' = count_each ks t s in omega (arith, apart, length-evict max_keys s'.entries)

pub attempt-IsBounded :
    (ks : List Key) (m : Moment) {s : Throttle} → IsBounded s → IsBounded (attempt ks m s).0
unfolding attempt
attempt-IsBounded ks m {s} h =
    let checked =
      longest_wait-IsBounded ks m.at 0 (apply_reset_flag m.flag s) (start-IsBounded m.flag h) in
    let s' = (longest_wait ks m.at 0 (apply_reset_flag m.flag s)).0 in
    ground (arith, checked, count_all-IsBounded ks m.at s' checked)

pub set_map-IsBounded :
    (k : Kind) (m : Buckets) {s : Throttle}
    → length m ≤ max_keys
    → IsBounded s
    → IsBounded (set_map k m s)
unfolding set_map
set_map-IsBounded k m le h = ground arith

pub count-IsBounded : (k : Key) (t : ℕ) {s : Throttle} → IsBounded s → IsBounded (count k t s)
unfolding count
count-IsBounded k t {s} h =
    set_map-IsBounded k.kind _ (length-evict max_keys _) (live-IsBounded k t h)

-- The limit on the failures of the last minute that `_APART` keeps for a kind.
abbrev pub failure_limit : Kind → ℕ
failure_limit share = share_global_per_minute
failure_limit oidc = oidc_global_per_minute
failure_limit _ = 0

set_failures-IsBounded :
    (k : Kind) (l : List ℕ) {s : Throttle}
    → length l ≤ failure_limit k
    → IsBounded s
    → IsBounded (set_failures k l s)
unfolding set_failures
set_failures-IsBounded k l le h = ground arith

recent_failures-le :
    (k : Kind) {s : Throttle} → IsBounded s → length (recent_failures k s) ≤ failure_limit k
unfolding recent_failures
recent_failures-le k h = ground arith

pub bucket_failure-IsBounded :
    (k : Key) (t : ℕ) {s : Throttle}
    → 0 < failure_limit k.kind
    → IsBounded s
    → IsBounded (bucket_failure k (failure_limit k.kind) t s).0
unfolding bucket_failure
bucket_failure-IsBounded k t {s} some_limit h =
    let s1 = (live k t s).0 in
    let h1 = live-IsBounded k t h in
    let kept = pop_old t (recent_failures k.kind s1) in
    let small = length-pop_old t (recent_failures k.kind s1) in
    let fits = recent_failures-le k.kind h1 in
    let h2 = set_failures-IsBounded k.kind kept (omega (arith, small, fits)) h1 in
    let s2 = set_failures k.kind kept s1 in
    let counted = count-IsBounded k t h2 in
    ground (
      arith,
      h2,
      set_failures-IsBounded k.kind (kept ++ t ∷ []) {s = count k t s2},
      length-append kept (t ∷ []),
      until_oldest-pos t (recent_failures k.kind s1),
      counted,
    )
