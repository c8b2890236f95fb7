-- ===== src/Auth/Devices/Slots.antt =====
-- The reserved attempts of a known device (backend/app/auth/devices.py).
use cabinet_numismatics.Prelude.{
  ℕ, ◌+◌, ◌≤◌, ◌<◌, ◌≡◌, refl, ◌⊎◌, true, false, Option, none, some, List, [], ◌∷◌, arith, ◌==◌,
  if◌then◌else◌, Bool-cases, inl, inr,
}
use cabinet_numismatics.Auth.Rows.{KnownDevice}
use cabinet_numismatics.Auth.Devices.{max_failures, device_by_id, reserve, release, forget, failed}

-- The ids of the table are distinct, and no device has used more than its five attempts.
abbrev pub NotIn : ℕ → List KnownDevice → Type 0
NotIn i [] = Unit
NotIn i (d ∷ ds) = (d.id ≡ i → ⊥) × NotIn i ds

abbrev pub IsTable : List KnownDevice → Type 0
IsTable [] = Unit
IsTable (d ∷ ds) = (d.failures ≤ max_failures) × NotIn d.id ds × IsTable ds

-- The number of attempts that a device has used, if it is there.
abbrev pub used : ℕ → List KnownDevice → Option ℕ
used i [] = none
used i (d ∷ ds) = if d.id == i then some d.failures else used i ds

used-NotIn : (i : ℕ) (rows : List KnownDevice) → NotIn i rows → used i rows ≡ none
used-NotIn i [] h = refl
used-NotIn i (d ∷ ds) h = let ne = h.0 in ground (arith, used-NotIn i ds h.1, ne)

reserve-NotIn : (i : ℕ) (rows : List KnownDevice) → NotIn i rows → reserve i rows ≡ (rows, false)
unfolding reserve
reserve-NotIn i [] h = refl
reserve-NotIn i (d ∷ ds) h = let ne = h.0 in ground (arith, reserve-NotIn i ds h.1, ne)

-- An attempt is reserved exactly when the device is there with fewer than five used, and one more is
-- used then; otherwise the table stays as it was.
pub reserve_lem :
    (i : ℕ) (rows : List KnownDevice)
    → IsTable rows
    → ((n : ℕ)
        → used i rows ≡ some n
        → n < max_failures
        → ((reserve i rows).1 ≡ true) × (used i (reserve i rows).0 ≡ some (n + 1)))
      × ((used i rows ≡ none) ⊎ (used i rows ≡ some max_failures) → reserve i rows ≡ (rows, false))
unfolding reserve
reserve_lem i [] h = (λ n e lt. cc, λ e. refl)
reserve_lem i (d ∷ ds) h =
    let (one, two) = reserve_lem i ds h.2 in
    let gone = used-NotIn d.id ds h.1 in
    let same = reserve-NotIn d.id ds h.1 in
    elim (Bool-cases (d.id == i)) [
      | inl here ↦ (λ n e lt. ground arith, λ e. ground (arith, same))
      | inr there ↦ (λ n e lt. ground (arith, one n), λ e. ground (arith, two))
    ]

-- A sign-in that succeeds gives its attempt back: the table is as it was before.
pub release-reserve :
    (i : ℕ) (rows : List KnownDevice)
    → IsTable rows
    → (reserve i rows).1 ≡ true
    → release i (reserve i rows).0 ≡ rows
unfolding reserve release
release-reserve i [] table h = cc
release-reserve i (d ∷ ds) table h =
    ground (arith, release-reserve i ds table.2, reserve-NotIn d.id ds table.1)

NotIn-reserve : (i j : ℕ) (rows : List KnownDevice) → NotIn j rows → NotIn j (reserve i rows).0
unfolding reserve
NotIn-reserve i j [] h = tt
NotIn-reserve i j (d ∷ ds) h = let ne = h.0 in ground (arith, NotIn-reserve i j ds h.1, ne)

NotIn-forget : (i j : ℕ) (rows : List KnownDevice) → NotIn j rows → NotIn j (forget i rows)
unfolding forget
NotIn-forget i j [] h = tt
NotIn-forget i j (d ∷ ds) h = let ne = h.0 in ground (arith, NotIn-forget i j ds h.1, ne)

NotIn-release : (i j : ℕ) (rows : List KnownDevice) → NotIn j rows → NotIn j (release i rows)
unfolding release
NotIn-release i j [] h = tt
NotIn-release i j (d ∷ ds) h = let ne = h.0 in ground (arith, NotIn-release i j ds h.1, ne)

pub reserve-IsTable : (i : ℕ) (rows : List KnownDevice) → IsTable rows → IsTable (reserve i rows).0
unfolding reserve
reserve-IsTable i [] h = tt
reserve-IsTable i (d ∷ ds) h =
    ground (arith, reserve-IsTable i ds h.2, NotIn-reserve i d.id ds h.1, h.1)

pub forget-IsTable : (i : ℕ) (rows : List KnownDevice) → IsTable rows → IsTable (forget i rows)
unfolding forget
forget-IsTable i [] h = tt
forget-IsTable i (d ∷ ds) h = ground (arith, forget-IsTable i ds h.2, NotIn-forget i d.id ds h.1)

pub release-IsTable : (i : ℕ) (rows : List KnownDevice) → IsTable rows → IsTable (release i rows)
unfolding release
release-IsTable i [] h = tt
release-IsTable i (d ∷ ds) h =
    ground (arith, release-IsTable i ds h.2, NotIn-release i d.id ds h.1, h.1)

pub failed-IsTable : (i : ℕ) (rows : List KnownDevice) → IsTable rows → IsTable (failed i rows)
unfolding failed
failed-IsTable i rows h = ground (arith, forget-IsTable i rows h)

used-forget : (i : ℕ) (rows : List KnownDevice) → used i (forget i rows) ≡ none
unfolding forget
used-forget i [] = refl
used-forget i (d ∷ ds) = ground (arith, used-forget i ds)

device_by_id-used :
    (i n : ℕ) (rows : List KnownDevice)
    → used i rows ≡ some n
    → (d : KnownDevice) × (device_by_id i rows ≡ some d) × (d.failures ≡ n)
unfolding device_by_id
device_by_id-used i n [] h = cc
device_by_id-used i n (d ∷ ds) h = elim (Bool-cases (d.id == i)) [
  | inl here ↦ (d, ground arith, ground arith)
  | inr there ↦
      let (e, found, same) = device_by_id-used i n ds (rw there at h) in (e, rw there found, same)
]

-- A wrong password on a known device costs one attempt, and the fifth forgets the device.
pub failed-reserve :
    (i n : ℕ) (rows : List KnownDevice)
    → IsTable rows
    → used i rows ≡ some n
    → n < max_failures
    → used i (failed i (reserve i rows).0) ≡ (if n + 1 == max_failures then none else some (n + 1))
unfolding failed
failed-reserve i n rows h e lt =
    let counted = ((reserve_lem i rows h).0 n e lt).1 in
    let (d, found, same) = device_by_id-used i (n + 1) (reserve i rows).0 counted in
    ground (arith, found, same, counted, used-forget i (reserve i rows).0)
