-- ===== src/Auth/Throttle/Window.antt =====
-- The global limit on password checks, as a sliding window (`check_global` of
-- backend/app/auth/throttle.py).
use mathlib.Core.List.{append_assoc}
use mathlib.Core.Path.{subst}
use native.Mathlib.Nat.{le_refl}
use cabinet_numismatics.Prelude.{
  ℕ, zero, suc, ◌+◌, ◌≤◌, ◌<◌, ◌≡◌, ◌⊎◌, Option, none, some, List, [], ◌∷◌, ◌++◌, arith, length,
  length-append, get_elem?, leb, Bool-cases, inl, inr,
}
use cabinet_numismatics.Auth.Throttle.State.{
  Throttle, Verdict, allowed, throttled, Moment, Flag, minute, apply_reset_flag,
}
use cabinet_numismatics.Auth.Throttle.Ops.{pop_old, until_oldest, check_global}
use cabinet_numismatics.Auth.Throttle.Queue.{length-pop_old}

-- The times at which a series of calls is let through, while the reset flag stays as it is.
unfoldable pub admit : ℕ → Verdict → List ℕ → List ℕ
admit t allowed rest = t ∷ rest
admit t (throttled _) rest = rest

unfoldable pub admitted : Flag → List ℕ → Throttle → List ℕ
admitted f [] s = []
admitted f (t ∷ ts) s =
    let (s', v) = check_global (record { flag = f; at = t }) s in admit t v (admitted f ts s')

abbrev pub AllFrom : ℕ → List ℕ → Type 0
AllFrom t [] = Unit
AllFrom t (x ∷ xs) = (t ≤ x) × AllFrom t xs

-- The clock does not run backwards.
abbrev pub Sorted : List ℕ → Type 0
Sorted [] = Unit
Sorted (t ∷ ts) = AllFrom t ts × Sorted ts

abbrev Gap : ℕ → Option ℕ → Type 0
Gap x none = Unit
Gap x (some y) = x + minute ≤ y

abbrev Spaced : List ℕ → Type 0
Spaced [] = Unit
Spaced (x ∷ l) = Gap x (get_elem? l 59) × Spaced l

Gap-AllFrom : (x t i : ℕ) (l : List ℕ) → AllFrom t l → x + minute ≤ t → Gap x (get_elem? l i)
Gap-AllFrom x t i [] h le = tt
Gap-AllFrom x t zero (y ∷ l) h le = omega arith
Gap-AllFrom x t (suc i) (y ∷ l) h le = Gap-AllFrom x t i l h.1 le

Gap-append :
    (x t i : ℕ) (q l : List ℕ)
    → length q ≤ i
    → AllFrom t l
    → x + minute ≤ t
    → Gap x (get_elem? (q ++ l) i)
Gap-append x t i [] l len h le = Gap-AllFrom x t i l h le
Gap-append x t zero (y ∷ q) l len h le = absurd (omega arith)
Gap-append x t (suc i) (y ∷ q) l len h le = Gap-append x t i q l (omega arith) h le

Gap-short : (x i : ℕ) (q : List ℕ) → length q ≤ i → Gap x (get_elem? (q ++ []) i)
Gap-short x i [] len = tt
Gap-short x zero (y ∷ q) len = absurd (omega arith)
Gap-short x (suc i) (y ∷ q) len = Gap-short x i q (omega arith)

Spaced-short : (q : List ℕ) → length q ≤ 60 → Spaced (q ++ [])
Spaced-short [] len = tt
Spaced-short (x ∷ q) len = (Gap-short x 59 q (omega arith), Spaced-short q (omega arith))

-- What is popped is a minute old, so it is apart from all that comes later.
Spaced-pop_old :
    (t : ℕ) (q l : List ℕ)
    → length q ≤ 60
    → AllFrom t l
    → Spaced (pop_old t q ++ l)
    → Spaced (q ++ l)
unfolding pop_old
Spaced-pop_old t [] l len h sp = sp
Spaced-pop_old t (x ∷ q) l len h sp = elim (Bool-cases (leb (x + minute) t)) [
  | inl old ↦ (
    Gap-append x t 59 q l (omega arith) h (ground arith),
    Spaced-pop_old t q l (omega arith) h (rw old at sp),
  )
  | inr new ↦ rw new at sp
]

AllFrom-admitted :
    (t : ℕ) (f : Flag) (ts : List ℕ) (s : Throttle) → AllFrom t ts → AllFrom t (admitted f ts s)
unfolding admitted admit
AllFrom-admitted t f [] s h = tt
AllFrom-admitted t f (u ∷ ts) s h =
    let (s', v) = check_global (record { flag = f; at = u }) s in
    ground (arith, AllFrom-admitted t f ts s' h.1)

-- With the flag as it was last seen, a call either lets its caller through and notes the time, or
-- refuses and notes nothing.
pub check_global-cases :
    (m : Moment) (s : Throttle)
    → s.flag_seen ≡ some m.flag
    → let (s', v) = check_global m s in
      let kept = pop_old m.at s.checks in
      (s'.flag_seen ≡ some m.flag)
      × (((60 ≤ length kept) × (v ≡ throttled (until_oldest m.at kept)) × (s'.checks ≡ kept))
          ⊎ ((length kept < 60) × (v ≡ allowed) × (s'.checks ≡ kept ++ m.at ∷ [])))
unfolding check_global apply_reset_flag
check_global-cases m s seen = (
  ground arith,
  elim (Bool-cases (leb 60 (length (pop_old m.at s.checks)))) [
    | inl full ↦ inl (ground arith)
    | inr room ↦ inr (ground arith)
  ],
)

Spaced-admitted :
    (f : Flag) (ts : List ℕ) (s : Throttle)
    → s.flag_seen ≡ some f
    → length s.checks ≤ 60
    → Sorted ts
    → Spaced (s.checks ++ admitted f ts s)
unfolding admitted admit
Spaced-admitted f [] s seen len h = Spaced-short s.checks len
Spaced-admitted f (t ∷ ts) s seen len h =
    let m : Moment = record { flag = f; at = t } in
    let s' = (check_global m s).0 in
    let kept = pop_old t s.checks in
    let short = length-pop_old t s.checks in
    let later = AllFrom-admitted t f ts s' h.0 in
    let (seen', cases) = check_global-cases m s seen in
    elim cases [
      | inl (full, v, c) ↦
          let ih = Spaced-admitted f ts s' seen' (rw c (omega (arith, short))) h.1 in
          rw v (Spaced-pop_old t s.checks (admitted f ts s') len later (rw c at ih))
      | inr (room, v, c) ↦
          let more = length-append kept (t ∷ []) in
          let ih = Spaced-admitted f ts s' seen' (rw c (omega (arith, more))) h.1 in
          rw v (
            Spaced-pop_old t s.checks (t ∷ admitted f ts s') len (le_refl t, later)
              (rw (append_assoc kept (t ∷ []) (admitted f ts s')) at (rw c at ih)))
    ]

Gap-get_elem? :
    (l : List ℕ) (i x y : ℕ)
    → Spaced l
    → get_elem? l i ≡ some x
    → get_elem? l (i + 60) ≡ some y
    → x + minute ≤ y
Gap-get_elem? [] i x y sp hx hy = cc
Gap-get_elem? (z ∷ l) zero x y sp hx hy = let gap = rw hy at sp.0 in ground arith
Gap-get_elem? (z ∷ l) (suc i) x y sp hx hy =
    let e : suc i + 60 ≡ suc (i + 60) = omega arith in Gap-get_elem? l i x y sp.1 hx (rw e at hy)

-- However the calls come, the time of a check that is let through and that of the sixtieth after it
-- are a minute apart: no 61 checks pass within a minute. The clock does not run backwards, no check
-- was counted before, and the reset flag is not touched.
pub admitted-minute :
    (f : Flag) (ts : List ℕ) (s : Throttle) (i x y : ℕ)
    → s.flag_seen ≡ some f
    → s.checks ≡ []
    → Sorted ts
    → get_elem? (admitted f ts s) i ≡ some x
    → get_elem? (admitted f ts s) (i + 60) ≡ some y
    → x + minute ≤ y
admitted-minute f ts s i x y seen none_yet sorted hx hy =
    let spaced = Spaced-admitted f ts s seen (rw none_yet (omega arith)) sorted in
    Gap-get_elem? (admitted f ts s) i x y
      (subst (λ q. Spaced (q ++ admitted f ts s)) none_yet spaced) hx hy
