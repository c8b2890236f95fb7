-- ===== src/Auth/Throttle/Curve.antt =====
-- How long a bucket makes its caller wait (`_wait` of backend/app/auth/throttle.py).
use cabinet_numismatics.Prelude.{
  ℕ, ◌+◌, ◌-◌, ◌*◌, ◌^◌, ◌≤◌, ◌<◌, min, ◌≡◌, ◌≢◌, some, arith, ltb, if◌then◌else◌,
}
use cabinet_numismatics.Auth.Throttle.Buckets.{Kind, user, addr, share, oidc, setup, Entry}
use cabinet_numismatics.Auth.Throttle.State.{
  second, window, cap, free, wait_of, waiting, retry_after,
}

-- The end of the wait that a bucket's failures ask for, past its free ones.
abbrev pub blocked_until : Kind → Entry → ℕ
blocked_until setup e = e.last + window
blocked_until user e = e.last + min cap (2 ^ (e.failures - free user) * second)
blocked_until addr e = e.last + min cap (2 ^ (e.failures - free addr) * second)
blocked_until share e = e.last + min cap (2 ^ (e.failures - free share) * second)
blocked_until oidc e = e.last + min cap (2 ^ (e.failures - free oidc) * second)

-- Inside its free failures a bucket never waits; from then on it waits until `blocked_until`.
pub waiting_lem :
    (k : Kind) (e : Entry) (t : ℕ)
    → waiting k (some e) t ≡ (if ltb e.failures (free k) then 0 else blocked_until k e - t)
unfolding waiting wait_of
waiting_lem setup e t = ground arith
waiting_lem user e t = ground arith
waiting_lem addr e t = ground arith
waiting_lem share e t = ground arith
waiting_lem oidc e t = ground arith

-- Never a lock-out: after the last failure a sign-in, share or sign-on bucket waits a minute at
-- most, and a setup bucket 15 minutes.
pub waiting-le_window :
    (k : Kind) (e : Entry) (t : ℕ)
    → e.last ≤ t
    → (waiting k (some e) t ≤ window) × (k ≢ setup → waiting k (some e) t ≤ cap)
waiting-le_window setup e t h = (rw waiting_lem (ground arith), λ ne. absurd (ne (λ i. setup)))
waiting-le_window user e t h = (rw waiting_lem (ground arith), λ _. rw waiting_lem (ground arith))
waiting-le_window addr e t h = (rw waiting_lem (ground arith), λ _. rw waiting_lem (ground arith))
waiting-le_window share e t h = (rw waiting_lem (ground arith), λ _. rw waiting_lem (ground arith))
waiting-le_window oidc e t h = (rw waiting_lem (ground arith), λ _. rw waiting_lem (ground arith))

-- The header's number of seconds covers the wait, and overshoots it by less than a second.
pub retry_after_covers :
    (w : ℕ)
    → 0 < w
    → (w ≤ retry_after w * second) × (retry_after w * second < w + second) × (1 ≤ retry_after w)
unfolding retry_after
retry_after_covers w h = omega arith
