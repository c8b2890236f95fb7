-- ===== src/Auth/Throttle/Views.antt =====
-- What a bucket shows at a time: its entry, unless it has expired. Expired entries are dropped when
-- a call meets them, which no view shows.
use cabinet_numismatics.Prelude.{ℕ, ◌+◌, ◌≤◌, ◌≡◌, Option, none, some, arith, leb, if◌then◌else◌}
use cabinet_numismatics.Auth.Throttle.Buckets.{Key, Entry, key_eq_iff, get, get-erase}
use cabinet_numismatics.Auth.Throttle.State.{Throttle, window, bucket_map, set_map, live}

abbrev pub fresh : ℕ → Option Entry → Option Entry
fresh t none = none
fresh t (some e) = if leb (e.last + window) t then none else some e

unfoldable pub view : Key → ℕ → Throttle → Option Entry
unfolding bucket_map
view k t s = fresh t (get k (bucket_map k.kind s))

-- `_live` returns the view.
pub live-eq-view : (k : Key) (t : ℕ) (s : Throttle) → (live k t s).1 ≡ view k t s
unfolding live view
live-eq-view k t s = ground arith

-- Dropping an expired entry changes no view, then or later.
pub view-live : (k j : Key) (t u : ℕ) (s : Throttle) → t ≤ u → view k u (live j t s).0 ≡ view k u s
unfolding view live bucket_map set_map
view-live k j t u s h = ground (
  arith,
  get-erase k j s.entries,
  get-erase k j s.shares,
  get-erase k j s.oidc_entries,
  key_eq_iff j k,
)
