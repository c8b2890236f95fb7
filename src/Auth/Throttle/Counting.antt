-- ===== src/Auth/Throttle/Counting.antt =====
-- What an allowed sign-in attempt adds to its two buckets (backend/app/auth/throttle.py).
use cabinet_numismatics.Prelude.{
  ℕ, String, ◌≡◌, refl, ◌∙◌, ap, Option, some, List, [], ◌∷◌, arith, false,
}
use cabinet_numismatics.Auth.Throttle.Buckets.{
  user, addr, Key, Entry, key_eq, get, push, evict, get-evict-push, get-push_ne,
  get-evict-push_previous, push-erase,
}
use cabinet_numismatics.Auth.Throttle.State.{
  Throttle, allowed, Moment, live, bump, bucket_map, set_map, max_keys,
}
use cabinet_numismatics.Auth.Throttle.Ops.{longest_wait, count_each, count_all, attempt}
use cabinet_numismatics.Auth.Throttle.Views.{fresh, view, live-eq-view}
use cabinet_numismatics.Auth.Throttle.Attempts.{start, view-longest_wait}

abbrev pub user_key : String → Key
user_key name = record { kind = user; value = name }

abbrev pub addr_key : String → Key
addr_key address = record { kind = addr; value = address }

-- The buckets of a sign-in, in the order of the call.
abbrev pub sign_in_keys : String → String → List Key
sign_in_keys name address = user_key name ∷ addr_key address ∷ []

push-live_user :
    (v : String) (e : Entry) (t : ℕ) (s : Throttle)
    → push (user_key v) e (live (user_key v) t s).0.entries ≡ push (user_key v) e s.entries
unfolding live set_map bucket_map
push-live_user v e t s = ground (arith, push-erase (user_key v) e s.entries)

push-live_addr :
    (v : String) (e : Entry) (t : ℕ) (s : Throttle)
    → push (addr_key v) e (live (addr_key v) t s).0.entries ≡ push (addr_key v) e s.entries
unfolding live set_map bucket_map
push-live_addr v e t s = ground (arith, push-erase (addr_key v) e s.entries)

view-write_user :
    (v a : String) (e : Entry) (t : ℕ) (r s : Throttle)
    → r.entries ≡ push (user_key v) e s.entries
    → view (addr_key a) t r ≡ view (addr_key a) t s
unfolding view key_eq
view-write_user v a e t r s h =
    let ne : key_eq (user_key v) (addr_key a) ≡ false = refl in
    rw h (ground (arith, get-push_ne (addr_key a) (user_key v) e s.entries ne))

entries-count_all :
    (name address : String) (t : ℕ) (s : Throttle)
    → (count_all (sign_in_keys name address) t s).entries
      ≡ evict max_keys (
          push
            (addr_key address)
            (bump (view (addr_key address) t s) t)
            (push (user_key name) (bump (view (user_key name) t s) t) s.entries))
unfolding count_all count_each
entries-count_all name address t s =
    let u = user_key name in
    let a = addr_key address in
    let s1 = (live u t s).0 in
    let e = bump (live u t s).1 t in
    let r : Throttle = record s1 { entries = push u e s1.entries } in
    let d = bump (live a t r).1 t in
    cc (
      push-live_addr address d t r,
      live-eq-view a t r,
      view-write_user name address e t r s (push-live_user name e t s),
      push-live_user name e t s,
      live-eq-view u t s,
    )

fresh-bump : (o : Option Entry) (t : ℕ) → fresh t (some (bump o t)) ≡ some (bump o t)
unfolding bump
fresh-bump o t = ground arith

view-count_all :
    (name address : String) (t : ℕ) (s : Throttle)
    → (view (user_key name) t (count_all (sign_in_keys name address) t s)
        ≡ some (bump (view (user_key name) t s) t))
      × (view (addr_key address) t (count_all (sign_in_keys name address) t s)
          ≡ some (bump (view (addr_key address) t s) t))
view-count_all name address t s =
    let u = user_key name in
    let a = addr_key address in
    let e = bump (view u t s) t in
    let d = bump (view a t s) t in
    let after = count_all (sign_in_keys name address) t s in
    let ne : key_eq u a ≡ false = unfold key_eq in refl in
    (
      unfold view in
          ap (λ m. fresh t (get u m)) (entries-count_all name address t s)
          ∙ ap (fresh t) (get-evict-push_previous max_keys u a e d s.entries (omega arith) ne)
          ∙ fresh-bump (view u t s) t,
      unfold view in
          ap (λ m. fresh t (get a m)) (entries-count_all name address t s)
          ∙ ap (fresh t) (get-evict-push max_keys a d (push u e s.entries) (omega arith))
          ∙ fresh-bump (view a t s) t,
    )

pub state-attempt :
    (ks : List Key) (m : Moment) (s : Throttle)
    → (attempt ks m s).1 ≡ allowed
    → (attempt ks m s).0 ≡ count_all ks m.at (longest_wait ks m.at 0 (start m s)).0
unfolding attempt
state-attempt ks m s h = ground arith

-- An allowed sign-in attempt counts one failure in each of its buckets, at the time of the attempt,
-- however full the map is.
pub attempt_counts :
    (name address : String) (m : Moment) (s : Throttle)
    → (attempt (sign_in_keys name address) m s).1 ≡ allowed
    → let s' = (attempt (sign_in_keys name address) m s).0 in
      (view (user_key name) m.at s' ≡ some (bump (view (user_key name) m.at (start m s)) m.at))
      × (view (addr_key address) m.at s'
          ≡ some (bump (view (addr_key address) m.at (start m s)) m.at))
attempt_counts name address m s h =
    let ks = sign_in_keys name address in
    let checked = (longest_wait ks m.at 0 (start m s)).0 in
    let counted = view-count_all name address m.at checked in
    let kept = λ (k : Key). view-longest_wait ks k m.at m.at 0 (start m s) (omega arith) in
    (
      rw (state-attempt ks m s h) (counted.0 ∙ ap (λ o. some (bump o m.at)) (kept (user_key name))),
      rw (state-attempt ks m s h)
          (counted.1 ∙ ap (λ o. some (bump o m.at)) (kept (addr_key address))),
    )
