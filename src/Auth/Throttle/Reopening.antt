-- ===== src/Auth/Throttle/Reopening.antt =====
-- A refused attempt waits in vain only so long (backend/app/auth/throttle.py).
use cabinet_numismatics.Prelude.{
  ℕ, ◌+◌, ◌-◌, ◌≤◌, max, ◌≡◌, refl, sym, ap, ◌∙◌, Option, none, some, List, [], ◌∷◌, arith,
}
use cabinet_numismatics.Auth.Throttle.Buckets.{
  Kind, user, addr, share, oidc, setup, Key, Entry, Buckets, get,
}
use cabinet_numismatics.Auth.Throttle.State.{
  Throttle, Flag, Moment, allowed, throttled, live, waiting, apply_reset_flag, set_map, bucket_map,
}
use cabinet_numismatics.Auth.Throttle.Ops.{longest_wait, attempt}
use cabinet_numismatics.Auth.Throttle.Curve.{waiting_lem}
use cabinet_numismatics.Auth.Throttle.Views.{fresh, view}
use cabinet_numismatics.Auth.Throttle.Attempts.{
  longest_view, start, verdict_of, attempt_verdict, attempt_refused, longest_view-ge,
}

waiting-later :
    (k : Kind) (o : Option Entry) (t u : ℕ)
    → t ≤ u
    → waiting k (fresh t o) t ≤ u - t
    → waiting k (fresh u o) u ≡ 0
unfolding waiting
waiting-later k none t u le w = refl
waiting-later k (some e) t u le w = ground (arith, waiting_lem k e t, waiting_lem k e u)

longest_view-over :
    (ks : List Key) (t u acc : ℕ) (s : Throttle)
    → t ≤ u
    → longest_view ks t acc s ≤ u - t
    → longest_view ks u 0 s ≡ 0
unfolding view
longest_view-over [] t u acc s le w = refl
longest_view-over (k ∷ ks) t u acc s le w =
    let o = get k (bucket_map k.kind s) in
    let here = longest_view-ge ks t (max acc (waiting k.kind (fresh t o) t)) s in
    let done = waiting-later k.kind o t u le (omega (arith, here, w)) in
    rw done (longest_view-over ks t u (max acc (waiting k.kind (fresh t o) t)) s le w)

longest_view-agree :
    (ks : List Key) (u acc : ℕ) (s s' : Throttle)
    → ((j : Key) → view j u s ≡ view j u s')
    → longest_view ks u acc s ≡ longest_view ks u acc s'
longest_view-agree [] u acc s s' h = refl
longest_view-agree (k ∷ ks) u acc s s' h =
    rw (h k) (longest_view-agree ks u (max acc (waiting k.kind (view k u s') u)) s s' h)

flag_seen-live : (k : Key) (t : ℕ) (s : Throttle) → (live k t s).0.flag_seen ≡ s.flag_seen
unfolding live set_map
flag_seen-live k t s = ground arith

flag_seen-longest_wait :
    (ks : List Key) (t acc : ℕ) (s : Throttle) → (longest_wait ks t acc s).0.flag_seen ≡ s.flag_seen
unfolding longest_wait
flag_seen-longest_wait [] t acc s = refl
flag_seen-longest_wait (k ∷ ks) t acc s =
    flag_seen-longest_wait ks t (max acc (waiting k.kind (live k t s).1 t)) (live k t s).0
    ∙ flag_seen-live k t s

flag_seen-start : (f : Flag) (s : Throttle) → (apply_reset_flag f s).flag_seen ≡ some f
unfolding apply_reset_flag
flag_seen-start none s = refl
flag_seen-start (some m) s = ground arith

bucket_map-flag :
    (k : Kind) (s : Throttle) (f : Option Flag)
    → bucket_map k (record s { flag_seen = f }) ≡ bucket_map k s
unfolding bucket_map
bucket_map-flag user s f = refl
bucket_map-flag addr s f = refl
bucket_map-flag share s f = refl
bucket_map-flag oidc s f = refl
bucket_map-flag setup s f = refl

-- The flag that was seen last clears nothing.
view-start :
    (f : Flag) (s : Throttle) (j : Key) (u : ℕ)
    → s.flag_seen ≡ some f
    → view j u (apply_reset_flag f s) ≡ view j u s
unfolding apply_reset_flag view
view-start none s j u h =
    ap (λ (b : Buckets). fresh u (get j b)) (bucket_map-flag j.kind s (some none))
view-start (some m) s j u h = ground (arith, h, bucket_map-flag j.kind s (some (some m)))

flag_seen-attempt :
    (ks : List Key) (m : Moment) (s : Throttle) (w : ℕ)
    → (attempt ks m s).1 ≡ throttled w
    → (attempt ks m s).0.flag_seen ≡ some m.flag
unfolding attempt
flag_seen-attempt ks m s w h =
    ground (arith, flag_seen-longest_wait ks m.at 0 (start m s), flag_seen-start m.flag s)

-- A refused attempt says how long to wait: the same attempt at least that much later is let through,
-- where nothing else was called in between and the reset flag is as it was.
pub attempt_reopens :
    (ks : List Key) (m m' : Moment) (s : Throttle) (w : ℕ)
    → (attempt ks m s).1 ≡ throttled w
    → m'.flag ≡ m.flag
    → m.at + w ≤ m'.at
    → (attempt ks m' (attempt ks m s).0).1 ≡ allowed
attempt_reopens ks m m' s w h same later =
    let s1 = (attempt ks m s).0 in
    let longest : longest_view ks m.at 0 (start m s) ≡ w =
      ground (arith, attempt_verdict ks m s, h) in
    let open_again =
      longest_view-over ks m.at m'.at 0 (start m s) (omega arith) (omega (arith, longest, later)) in
    let seen = flag_seen-attempt ks m s w h ∙ ap some (sym same) in
    let views : (j : Key) → view j m'.at (start m' s1) ≡ view j m'.at (start m s) = λ j.
      view-start m'.flag s1 j m'.at seen ∙ (attempt_refused ks m s w h).1 j m'.at (omega arith) in
    attempt_verdict ks m' s1
    ∙ ap verdict_of (longest_view-agree ks m'.at 0 (start m' s1) (start m s) views ∙ open_again)
