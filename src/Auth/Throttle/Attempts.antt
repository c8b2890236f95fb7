-- ===== src/Auth/Throttle/Attempts.antt =====
-- What `attempt` of backend/app/auth/throttle.py decides and what it counts.
use cabinet_numismatics.Prelude.{
  ℕ, ◌≤◌, ◌<◌, max, ◌≡◌, refl, ◌∙◌, ap, ◌⊎◌, inl, inr, List, [], ◌∷◌, arith, ltb, if◌then◌else◌,
}
use cabinet_numismatics.Auth.Throttle.Buckets.{Key}
use cabinet_numismatics.Auth.Throttle.State.{
  Throttle, Verdict, allowed, throttled, Moment, live, waiting, apply_reset_flag,
}
use cabinet_numismatics.Auth.Throttle.Ops.{longest_wait, attempt}
use cabinet_numismatics.Auth.Throttle.Views.{view, live-eq-view, view-live}

-- The longest wait that the buckets ask for, read off the views.
abbrev pub longest_view : List Key → ℕ → ℕ → Throttle → ℕ
longest_view [] t acc s = acc
longest_view (k ∷ ks) t acc s = longest_view ks t (max acc (waiting k.kind (view k t s) t)) s

longest_view-live :
    (ks : List Key) (j : Key) (t acc : ℕ) (s : Throttle)
    → longest_view ks t acc (live j t s).0 ≡ longest_view ks t acc s
longest_view-live [] j t acc s = refl
longest_view-live (k ∷ ks) j t acc s =
    rw (view-live k j t t s (omega arith))
      (longest_view-live ks j t (max acc (waiting k.kind (view k t s) t)) s)

longest_wait-eq-view :
    (ks : List Key) (t acc : ℕ) (s : Throttle)
    → (longest_wait ks t acc s).1 ≡ longest_view ks t acc s
unfolding longest_wait
longest_wait-eq-view [] t acc s = refl
longest_wait-eq-view (k ∷ ks) t acc s =
    longest_wait-eq-view ks t (max acc (waiting k.kind (live k t s).1 t)) (live k t s).0
    ∙ longest_view-live ks k t (max acc (waiting k.kind (live k t s).1 t)) s
    ∙ ap (λ o. longest_view ks t (max acc (waiting k.kind o t)) s) (live-eq-view k t s)

pub view-longest_wait :
    (ks : List Key) (j : Key) (t u acc : ℕ) (s : Throttle)
    → t ≤ u
    → view j u (longest_wait ks t acc s).0 ≡ view j u s
unfolding longest_wait
view-longest_wait [] j t u acc s h = refl
view-longest_wait (k ∷ ks) j t u acc s h =
    view-longest_wait ks j t u (max acc (waiting k.kind (live k t s).1 t)) (live k t s).0 h
    ∙ view-live j k t u s h

-- The state in which an attempt begins, after the reset flag has been looked at.
abbrev pub start : Moment → Throttle → Throttle
start m s = apply_reset_flag m.flag s

abbrev pub verdict_of : ℕ → Verdict
verdict_of longest = if ltb 0 longest then throttled longest else allowed

-- An attempt is allowed exactly when no bucket of it has to wait; otherwise it is refused with the
-- longest of their waits.
pub attempt_verdict :
    (ks : List Key) (m : Moment) (s : Throttle)
    → (attempt ks m s).1 ≡ verdict_of (longest_view ks m.at 0 (start m s))
unfolding attempt
attempt_verdict ks m s =
    let e = longest_wait-eq-view ks m.at 0 (start m s) in rw (← e) (ground arith)

-- A refused attempt counts nothing: no bucket's view changes, then or later.
pub attempt_refused :
    (ks : List Key) (m : Moment) (s : Throttle) (w : ℕ)
    → (attempt ks m s).1 ≡ throttled w
    → (0 < w) × ((j : Key) (u : ℕ) → m.at ≤ u → view j u (attempt ks m s).0 ≡ view j u (start m s))
unfolding attempt
attempt_refused ks m s w h =
    (ground arith, λ j u le. ground (arith, view-longest_wait ks j m.at u 0 (start m s) le))

pub longest_view-ge : (ks : List Key) (t acc : ℕ) (s : Throttle) → acc ≤ longest_view ks t acc s
longest_view-ge [] t acc s = omega arith
longest_view-ge (k ∷ ks) t acc s =
    omega (arith, longest_view-ge ks t (max acc (waiting k.kind (view k t s) t)) s)

-- `k` is one of the buckets.
abbrev pub Among : Key → List Key → Type 0
Among k [] = ⊥
Among k (j ∷ ks) = (k ≡ j) ⊎ Among k ks

waiting-le-longest_view :
    (ks : List Key) (k : Key) (t acc : ℕ) (s : Throttle)
    → Among k ks
    → waiting k.kind (view k t s) t ≤ longest_view ks t acc s
waiting-le-longest_view [] k t acc s h = absurd h
waiting-le-longest_view (j ∷ ks) k t acc s (inl e) =
    rw e (omega (arith, longest_view-ge ks t (max acc (waiting j.kind (view j t s) t)) s))
waiting-le-longest_view (j ∷ ks) k t acc s (inr h) =
    waiting-le-longest_view ks k t (max acc (waiting j.kind (view j t s) t)) s h

-- While one bucket has to wait, every attempt that names it is refused for at least that long.
pub attempt_blocked :
    (ks : List Key) (k : Key) (m : Moment) (s : Throttle)
    → Among k ks
    → 0 < waiting k.kind (view k m.at (start m s)) m.at
    → (w : ℕ) × ((attempt ks m s).1 ≡ throttled w)
      × (waiting k.kind (view k m.at (start m s)) m.at ≤ w)
attempt_blocked ks k m s among blocked =
    let le = waiting-le-longest_view ks k m.at 0 (start m s) among in
    (longest_view ks m.at 0 (start m s), rw attempt_verdict (ground arith), le)
