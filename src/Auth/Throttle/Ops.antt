-- ===== src/Auth/Throttle/Ops.antt =====
-- The functions of backend/app/auth/throttle.py. Each gives the state after it and what the caller
-- gets, also when it raises `Throttled`.
use cabinet_numismatics.Prelude.{
  ℕ, ◌+◌, ◌-◌, max, String, Option, none, List, [], ◌∷◌, ◌++◌, ltb, leb, if◌then◌else◌, length,
}
use cabinet_numismatics.Auth.Throttle.Buckets.{Kind, share, oidc, Key, erase, push, evict}
use cabinet_numismatics.Auth.Throttle.State.{
  Throttle, Verdict, allowed, throttled, Address, Moment, max_keys, minute, global_per_minute,
  share_global_per_minute, oidc_global_per_minute, bucket_map, set_map, live, waiting, bump,
  apply_reset_flag, key_of,
}

-- `max((wait(kind, value) ...), default=0.0)` over the buckets of `attempt`
unfoldable pub longest_wait : List Key → ℕ → ℕ → Throttle → Throttle × ℕ
longest_wait [] t acc s = (s, acc)
longest_wait (k ∷ ks) t acc s =
    let (s', entry) = live k t s in longest_wait ks t (max acc (waiting k.kind entry t)) s'

-- The second loop of `attempt`, which writes to `_entries`.
unfoldable pub count_each : List Key → ℕ → Throttle → Throttle
count_each [] t s = s
count_each (k ∷ ks) t s =
    let (s', entry) = live k t s in
    count_each ks t (record s' { entries = push k (bump entry t) s'.entries })

unfoldable pub count_all : List Key → ℕ → Throttle → Throttle
count_all ks t s = let s' = count_each ks t s in record s' { entries = evict max_keys s'.entries }

unfoldable pub attempt : List Key → Moment → Throttle → Throttle × Verdict
attempt ks m s =
    let (s', longest) = longest_wait ks m.at 0 (apply_reset_flag m.flag s) in
    if ltb 0 longest then (s', throttled longest) else (count_all ks m.at s', allowed)

-- `while times and t - times[0] >= 60: times.popleft()`
unfoldable pub pop_old : ℕ → List ℕ → List ℕ
pop_old t [] = []
pop_old t (x ∷ xs) = let rest = pop_old t xs in if leb (x + minute) t then rest else x ∷ xs

-- `times[0] + 60 - t`, where there is one; the loop above leaves it above 0
unfoldable pub until_oldest : ℕ → List ℕ → ℕ
until_oldest t [] = 0
until_oldest t (x ∷ xs) = (x + minute) - t

unfoldable pub check_global : Moment → Throttle → Throttle × Verdict
check_global m s =
    let s' = apply_reset_flag m.flag s in
    let kept = pop_old m.at s'.checks in
    if leb global_per_minute (length kept)
    then (record s' { checks = kept }, throttled (until_oldest m.at kept))
    else (record s' { checks = kept ++ m.at ∷ [] }, allowed)

-- `_count`
unfoldable pub count : Key → ℕ → Throttle → Throttle
count k t s =
    let (s', entry) = live k t s in
    set_map k.kind (evict max_keys (push k (bump entry t) (bucket_map k.kind s'))) s'

-- The failures of the last minute that `_APART` keeps for a kind.
unfoldable pub recent_failures : Kind → Throttle → List ℕ
recent_failures share s = s.share_failures
recent_failures oidc s = s.oidc_failures
recent_failures _ s = []

unfoldable pub set_failures : Kind → List ℕ → Throttle → Throttle
set_failures share l s = record s { share_failures = l }
set_failures oidc l s = record s { oidc_failures = l }
set_failures _ l s = s

-- `_address_failure` for the kinds `share` and `oidc`, with the key already made.
unfoldable pub bucket_failure : Key → ℕ → ℕ → Throttle → Throttle × ℕ
bucket_failure k limit t s =
    let (s1, entry) = live k t s in
    let kept = pop_old t (recent_failures k.kind s1) in
    let s2 = set_failures k.kind kept s1 in
    let wait = waiting k.kind entry t in
    let longest = if leb limit (length kept) then max wait (until_oldest t kept) else wait in
    if ltb 0 longest
    then (s2, longest)
    else (set_failures k.kind (kept ++ t ∷ []) (count k t s2), 0)

unfoldable pub clear : Throttle → Throttle
clear s = record {
  entries = [];
  checks = [];
  flag_seen = none;
  shares = [];
  share_failures = [];
  oidc_entries = [];
  oidc_failures = [];
}

unfoldable pub size : Throttle → ℕ
size s = length s.entries

unfoldable pub share_size : Throttle → ℕ
share_size s = length s.shares

unfoldable pub oidc_size : Throttle → ℕ
oidc_size s = length s.oidc_entries

-- `ip_address` is Python's parser of addresses.
module _ (ip_address : String → Option Address) where
  unfoldable pub wait : Kind → String → Moment → Throttle → Throttle × ℕ
  wait kind value m s =
      let (s', entry) = live (key_of ip_address kind value) m.at (apply_reset_flag m.flag s) in
      (s', waiting kind entry m.at)

  -- Each `wait` reads the flag and the clock anew.
  unfoldable pub check_from : List (Kind × String × Moment) → ℕ → Throttle → Throttle × Verdict
  check_from [] longest s = (s, if ltb 0 longest then throttled longest else allowed)
  check_from ((kind, value, m) ∷ rest) longest s =
      let (s', w) = wait kind value m s in check_from rest (max longest w) s'

  unfoldable pub check : List (Kind × String × Moment) → Throttle → Throttle × Verdict
  check buckets s = check_from buckets 0 s

  unfoldable pub fail : Kind → String → ℕ → Throttle → Throttle
  fail kind value t s = count (key_of ip_address kind value) t s

  unfoldable pub succeed : Kind → String → Throttle → Throttle
  succeed kind value s =
      let k = key_of ip_address kind value in set_map k.kind (erase k (bucket_map k.kind s)) s

  unfoldable pub share_failure : String → ℕ → Throttle → Throttle × ℕ
  share_failure address t s =
      bucket_failure (key_of ip_address share address) share_global_per_minute t s

  unfoldable pub oidc_failure : String → ℕ → Throttle → Throttle × ℕ
  oidc_failure address t s =
      bucket_failure (key_of ip_address oidc address) oidc_global_per_minute t s
