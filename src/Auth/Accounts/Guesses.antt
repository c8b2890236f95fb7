-- ===== src/Auth/Accounts/Guesses.antt =====
-- What wrong passwords cost on a known device (backend/app/auth/accounts.py).
use cabinet_numismatics.Prelude.{
  ℕ, ◌+◌, ◌<◌, ◌≡◌, refl, sym, ap, ◌∙◌, true, none, some, ◌==◌, arith, Option, if◌then◌else◌,
}
use cabinet_numismatics.Auth.Rows.{KnownDevice}
use cabinet_numismatics.Auth.Devices
use cabinet_numismatics.Auth.Devices.{max_failures}
use cabinet_numismatics.Auth.Devices.Slots.{
  IsTable, used, reserve_lem, release-reserve, failed-reserve,
}
use cabinet_numismatics.Auth.Passwords.{Verified, right, mistaken, busy, verify}
use cabinet_numismatics.Auth.Accounts.World.{World, Tools, note, commit}
use cabinet_numismatics.Auth.Accounts.Checking.{
  Readings, Checked, accepted, rejected, overloaded, Asked, reserve_device, pass_throttles,
  stored_hash, conclude, check_password, failed, succeeded,
}

failed-devices :
    (t : Tools) (r : Readings) (a : Asked) (d : KnownDevice) (w : World)
    → (failed t r a (some d) w).db.devices ≡ Devices.failed d.id w.db.devices
unfolding failed note
failed-devices t r a d w = refl

conclude-rejected :
    (t : Tools) (r : Readings) (a : Asked) (d : KnownDevice) (w : World) (v : Verified)
    → (conclude t r a (some d) w v).1 ≡ rejected
    → (conclude t r a (some d) w v).0.db.devices ≡ Devices.failed d.id w.db.devices
conclude-rejected t r a d w right h = absurd (ground arith)
conclude-rejected t r a d w busy h = absurd (ground arith)
conclude-rejected t r a d w mistaken h = failed-devices t r a d w

conclude-accepted :
    (t : Tools) (r : Readings) (a : Asked) (d : KnownDevice) (w : World) (v : Verified)
    → (conclude t r a (some d) w v).1 ≡ accepted
    → (conclude t r a (some d) w v).0.db.devices ≡ Devices.release d.id w.db.devices
conclude-accepted t r a d w right h = unfold succeeded in refl
conclude-accepted t r a d w busy h = absurd (ground arith)
conclude-accepted t r a d w mistaken h = absurd (ground arith)

-- How the check of a password ends that no throttle stops.
abbrev pub outcome_of : Verified → Checked
outcome_of right = accepted
outcome_of mistaken = rejected
outcome_of busy = overloaded

conclude-outcome_of :
    (t : Tools) (r : Readings) (a : Asked) (o : Option KnownDevice) (w : World) (v : Verified)
    → (conclude t r a o w v).1 ≡ outcome_of v
conclude-outcome_of t r a o w right = refl
conclude-outcome_of t r a o w mistaken = refl
conclude-outcome_of t r a o w busy = refl

-- The world after the reservation, in which the password is checked.
abbrev reserved_in : KnownDevice → World → World
reserved_in d w =
    commit (record w { db = record w.db { devices = (Devices.reserve d.id w.db.devices).0 } })

check_password-known :
    (t : Tools) (r : Readings) (a : Asked) (d : KnownDevice) (w : World)
    → (Devices.reserve d.id w.db.devices).1 ≡ true
    → check_password t r a (some d) w
      ≡ conclude t r a
          (some d)
          (reserved_in d w)
          (verify t.argon r.slot_free (stored_hash a.account) a.password)
unfolding check_password reserve_device pass_throttles
check_password-known t r a d w got = ground (arith, got)

-- On a known device with an attempt left the check ends as the password check alone does, whatever
-- the throttles hold; a wrong password on it costs one of its five attempts, and the fifth forgets
-- the device. A right password gives the attempt back.
pub check_password_known_device :
    (t : Tools) (r : Readings) (a : Asked) (d : KnownDevice) (w : World) (n : ℕ)
    → IsTable w.db.devices
    → used d.id w.db.devices ≡ some n
    → n < max_failures
    → ((check_password t r a (some d) w).1
        ≡ outcome_of (verify t.argon r.slot_free (stored_hash a.account) a.password))
      × ((check_password t r a (some d) w).1 ≡ rejected
          → used d.id (check_password t r a (some d) w).0.db.devices
            ≡ (if n + 1 == max_failures then none else some (n + 1)))
      × ((check_password t r a (some d) w).1 ≡ accepted
          → (check_password t r a (some d) w).0.db.devices ≡ w.db.devices)
check_password_known_device t r a d w n table e lt =
    let got = ((reserve_lem d.id w.db.devices table).0 n e lt).0 in
    let same = check_password-known t r a d w got in
    let v = verify t.argon r.slot_free (stored_hash a.account) a.password in
    (
      ap (λ (x : World × Checked). x.1) same
          ∙ conclude-outcome_of t r a (some d) (reserved_in d w) v,
      λ h.
          ap (λ (x : World × Checked). used d.id x.0.db.devices) same
          ∙ ap (used d.id) (
              conclude-rejected t r a d (reserved_in d w) v
                (sym (ap (λ (x : World × Checked). x.1) same) ∙ h))
          ∙ failed-reserve d.id n w.db.devices table e lt,
      λ h.
          ap (λ (x : World × Checked). x.0.db.devices) same
          ∙ conclude-accepted t r a d (reserved_in d w) v
              (sym (ap (λ (x : World × Checked). x.1) same) ∙ h)
          ∙ release-reserve d.id w.db.devices table got,
    )
