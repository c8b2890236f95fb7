-- ===== src/Auth/Throttle/Burst.antt =====
-- A burst of sign-in attempts on one name (backend/app/auth/throttle.py).
use cabinet_numismatics.Prelude.{
  ℕ, ◌+◌, ◌-◌, ◌*◌, ◌^◌, ◌≤◌, ◌<◌, min, String, ◌≡◌, refl, sym, ◌∙◌, ap, Option, none, some, List,
  [], ◌∷◌, arith,
}
use cabinet_numismatics.Auth.Throttle.Buckets.{Key, Entry, user}
use cabinet_numismatics.Auth.Throttle.State.{
  Throttle, Flag, allowed, throttled, Moment, second, window, cap, live, bump, waiting, set_map,
  bucket_map, apply_reset_flag,
}
use cabinet_numismatics.Auth.Throttle.Ops.{longest_wait, count_each, count_all, attempt}
use cabinet_numismatics.Auth.Throttle.Curve.{waiting_lem}
use cabinet_numismatics.Auth.Throttle.Views.{view}
use cabinet_numismatics.Auth.Throttle.Attempts.{start, attempt_blocked, attempt_refused, Among}
use cabinet_numismatics.Auth.Throttle.Counting.{
  user_key, sign_in_keys, state-attempt, attempt_counts,
}

abbrev pub failures_of : Option Entry → ℕ
failures_of none = 0
failures_of (some e) = e.failures

flag_seen-live : (k : Key) (t : ℕ) (s : Throttle) → (live k t s).0.flag_seen ≡ s.flag_seen
unfolding live set_map
flag_seen-live k t s = ground arith

flag_seen-longest_wait :
    (ks : List Key) (t acc : ℕ) (s : Throttle) → (longest_wait ks t acc s).0.flag_seen ≡ s.flag_seen
unfolding longest_wait
flag_seen-longest_wait [] t acc s = refl
flag_seen-longest_wait (k ∷ ks) t acc s =
    flag_seen-longest_wait ks t _ (live k t s).0 ∙ flag_seen-live k t s

flag_seen-count_each :
    (ks : List Key) (t : ℕ) (s : Throttle) → (count_each ks t s).flag_seen ≡ s.flag_seen
unfolding count_each
flag_seen-count_each [] t s = refl
flag_seen-count_each (k ∷ ks) t s = flag_seen-count_each ks t _ ∙ flag_seen-live k t s

flag_seen-start : (m : Moment) (s : Throttle) → (start m s).flag_seen ≡ some m.flag
unfolding apply_reset_flag
flag_seen-start m s = ground arith

flag_seen-attempt :
    (ks : List Key) (m : Moment) (s : Throttle)
    → (attempt ks m s).1 ≡ allowed
    → (attempt ks m s).0.flag_seen ≡ some m.flag
flag_seen-attempt ks m s h = rw (state-attempt ks m s h) (
    unfold count_all in
    flag_seen-count_each ks m.at (longest_wait ks m.at 0 (start m s)).0
    ∙ flag_seen-longest_wait ks m.at 0 (start m s)
    ∙ flag_seen-start m s)

flag_seen-refused :
    (ks : List Key) (m : Moment) (s : Throttle) (w : ℕ)
    → (attempt ks m s).1 ≡ throttled w
    → (attempt ks m s).0.flag_seen ≡ some m.flag
unfolding attempt
flag_seen-refused ks m s w h =
    ground (arith, flag_seen-longest_wait ks m.at 0 (start m s), flag_seen-start m s)

-- A flag that was seen before resets nothing.
view-start :
    (k : Key) (t : ℕ) (m : Moment) (s : Throttle)
    → s.flag_seen ≡ some m.flag
    → view k t (start m s) ≡ view k t s
unfolding view apply_reset_flag bucket_map
view-start k t m s h = ground arith

view-later :
    (k : Key) (e : Entry) (t u : ℕ) (s : Throttle)
    → view k t s ≡ some e
    → u < e.last + window
    → view k u s ≡ some e
unfolding view
view-later k e t u s h lt = ground arith

abbrev pub user_pause : ℕ → ℕ
user_pause failures = min cap (2 ^ (failures - 5) * second)

last-bump : (o : Option Entry) (t : ℕ) → (bump o t).last ≡ t
unfolding bump
last-bump o t = ground arith

waiting-bump :
    (o : Option Entry) (t u : ℕ)
    → 4 ≤ failures_of o
    → waiting user (some (bump o t)) u ≡ t + user_pause (failures_of o + 1) - u
unfolding bump
waiting-bump o t u h = rw waiting_lem (ground arith)

-- Every attempt names the bucket, finds the reset flag as it was, and comes before the time `until`.
abbrev pub AllOn : Key → Flag → ℕ → List (List Key × Moment) → Type 0
AllOn k flag until [] = Unit
AllOn k flag until ((ks, m) ∷ rs) =
    Among k ks × (m.flag ≡ flag) × (m.at < until) × AllOn k flag until rs

-- Of attempts one after another, each is refused and is told to wait at least until that time.
abbrev pub AllRefused : ℕ → List (List Key × Moment) → Throttle → Type 0
AllRefused until [] s = Unit
AllRefused until ((ks, m) ∷ rs) s =
    ((w : ℕ) × ((attempt ks m s).1 ≡ throttled w) × (until ≤ m.at + w))
    × AllRefused until rs (attempt ks m s).0

-- One attempt on a name whose bucket holds a failure at the time `t`, the fifth or a later one: it is
-- refused, and the bucket and the flag stay.
bucket_blocks :
    (name : String) (o : Option Entry) (t u : ℕ) (ks : List Key) (m : Moment) (s : Throttle)
    → 4 ≤ failures_of o
    → s.flag_seen ≡ some m.flag
    → view (user_key name) u s ≡ some (bump o t)
    → Among (user_key name) ks
    → m.at < t + user_pause (failures_of o + 1)
    → ((w : ℕ) × ((attempt ks m s).1 ≡ throttled w)
        × (t + user_pause (failures_of o + 1) ≤ m.at + w))
      × ((attempt ks m s).0.flag_seen ≡ some m.flag)
      × (view (user_key name) m.at (attempt ks m s).0 ≡ some (bump o t))
bucket_blocks name o t u ks m s four seen counted among before =
    let k = user_key name in
    let now : view k m.at s ≡ some (bump o t) =
      view-later k (bump o t) u m.at s counted (omega (arith, last-bump o t)) in
    let shown = view-start k m.at m s seen ∙ now in
    let pause = ap (λ v. waiting user v m.at) shown ∙ waiting-bump o t m.at four in
    let (w, refused, le) = attempt_blocked ks k m s among (omega (arith, pause)) in
    (
      (w, refused, omega (arith, pause, le)),
      flag_seen-refused ks m s w refused,
      (attempt_refused ks m s w refused).1 k m.at (omega arith) ∙ shown,
    )

all_blocked :
    (name : String) (o : Option Entry) (t u : ℕ) (flag : Flag) (rs : List (List Key × Moment))
    (s : Throttle)
    → 4 ≤ failures_of o
    → s.flag_seen ≡ some flag
    → view (user_key name) u s ≡ some (bump o t)
    → AllOn (user_key name) flag (t + user_pause (failures_of o + 1)) rs
    → AllRefused (t + user_pause (failures_of o + 1)) rs s
all_blocked name o t u flag [] s four seen counted on = tt
all_blocked name o t u flag ((ks, m) ∷ rs) s four seen counted (among, same, before, on) =
    let (refused, still, left) =
      bucket_blocks name o t u ks m s four (seen ∙ ap some (sym same)) counted among before in
    (
      refused,
      all_blocked name o t m.at flag rs (attempt ks m s).0 four (still ∙ ap some same) left on,
    )

-- Once an allowed attempt is the fifth failure of a name or a later one, every attempt of a series
-- that follows, each on that name and from whatever address, is refused before the pause is over:
-- 2^(n-5) seconds after the n-th failure, a minute at most; and the wait that each is told lasts
-- until then. Nothing but these attempts is called in between, and the reset flag is as it was.
pub attempt_burst :
    (name address : String) (m : Moment) (rs : List (List Key × Moment)) (s : Throttle)
    → (attempt (sign_in_keys name address) m s).1 ≡ allowed
    → 4 ≤ failures_of (view (user_key name) m.at (start m s))
    → AllOn
        (user_key name)
        m.flag
        (m.at + user_pause (failures_of (view (user_key name) m.at (start m s)) + 1))
        rs
    → AllRefused
        (m.at + user_pause (failures_of (view (user_key name) m.at (start m s)) + 1))
        rs
        (attempt (sign_in_keys name address) m s).0
attempt_burst name address m rs s h four on =
    all_blocked name (view (user_key name) m.at (start m s)) m.at m.at m.flag rs
      (attempt (sign_in_keys name address) m s).0 four
      (flag_seen-attempt (sign_in_keys name address) m s h) (attempt_counts name address m s h).0 on
