-- ===== src/Auth/Audit/Evidence.antt =====
-- What a new row does to the audit log (`record` of backend/app/auth/audit.py).
use mathlib.Core.Path.{subst}
use text.Mathlib.Text.{◌==◌ as str_eq}
use cabinet_numismatics.Prelude.{
  ℕ, ◌≤◌, ◌≡◌, refl, sym, ap, ◌∙◌, ◌⊎◌, inl, inr, String, Bool, true, false, Option, none, some,
  List, ◌∷◌, arith, Bool-cases, Option-cases, eq_iff,
}
use cabinet_numismatics.Auth.Rows.{AuditEntry}
use cabinet_numismatics.Auth.Audit.{
  failed, failed_cap, rejected_sso, rejected_sso_cap, keep_rows, trim, own_cap, is_action, is_other,
  delete_old, entry, record_event, Actor,
}
use cabinet_numismatics.Auth.Audit.Caps.{
  matching, number_of, AllBelow, IsLog, IsCapped, Apart, number_of-trim, matching-trim, IsLog-trim,
  IsLog-delete_old, matching-delete_old, number_of-matching, number_of-skip, failed-rejected,
  rejected-failed, failed-other, rejected-other, other-failed, other-rejected, trim_le, record-own,
  record-other,
}

own_cap-cases :
    (action : String) (keep : ℕ)
    → own_cap action ≡ some keep
    → ((action ≡ failed) × (keep ≡ failed_cap))
      ⊎ ((action ≡ rejected_sso) × (keep ≡ rejected_sso_cap))
unfolding own_cap
own_cap-cases action keep h = elim (Bool-cases (str_eq action failed)) [
  | inl one ↦ inl ((eq_iff action failed).0 one, ground arith)
  | inr not_failed ↦ elim (Bool-cases (str_eq action rejected_sso)) [
    | inl two ↦ inr ((eq_iff action rejected_sso).0 two, ground arith)
    | inr none_of ↦ absurd (ground arith)
  ]
]

own_cap-none :
    (action : String)
    → own_cap action ≡ none
    → (str_eq action failed ≡ false) × (str_eq action rejected_sso ≡ false)
unfolding own_cap
own_cap-none action h = ground arith

new-IsLog :
    (now id : ℕ) (action : String) (actor : Actor) (target : Option String) (detail : List String)
    (rows : List AuditEntry)
    → AllBelow id rows
    → IsLog rows
    → IsLog (entry now id action actor target detail ∷ rows)
unfolding entry
new-IsLog now id action actor target detail rows below log = (below, log)

action-entry :
    (now id : ℕ) (action : String) (actor : Actor) (target : Option String) (detail : List String)
    → (entry now id action actor target detail).action ≡ action
unfolding entry
action-entry now id action actor target detail = refl

failed-IsCapped :
    (e : AuditEntry) (rows : List AuditEntry)
    → e.action ≡ failed
    → IsLog (e ∷ rows)
    → IsCapped rows
    → IsCapped (trim (is_action failed) failed_cap (e ∷ rows))
failed-IsCapped e rows is log h = record {
  log = IsLog-trim (is_action failed) failed_cap (e ∷ rows) log;
  failed_le = number_of-trim (is_action failed) failed_cap (e ∷ rows) log;
  rejected_le =
      trim_le (is_action failed) (is_action rejected_sso) failed_cap rejected_sso_cap e rows
        failed-rejected (rw is refl) h.rejected_le;
  other_le =
      trim_le (is_action failed) is_other failed_cap keep_rows e rows failed-other (rw is refl)
        h.other_le;
}

rejected-IsCapped :
    (e : AuditEntry) (rows : List AuditEntry)
    → e.action ≡ rejected_sso
    → IsLog (e ∷ rows)
    → IsCapped rows
    → IsCapped (trim (is_action rejected_sso) rejected_sso_cap (e ∷ rows))
rejected-IsCapped e rows is log h = record {
  log = IsLog-trim (is_action rejected_sso) rejected_sso_cap (e ∷ rows) log;
  failed_le =
      trim_le (is_action rejected_sso) (is_action failed) rejected_sso_cap failed_cap e rows
        rejected-failed (rw is refl) h.failed_le;
  rejected_le = number_of-trim (is_action rejected_sso) rejected_sso_cap (e ∷ rows) log;
  other_le =
      trim_le (is_action rejected_sso) is_other rejected_sso_cap keep_rows e rows rejected-other
        (rw is refl) h.other_le;
}

-- A kind that is capped apart keeps its number when another row is written.
number_kept :
    (q : AuditEntry → Bool) (now n : ℕ) (e : AuditEntry) (rows : List AuditEntry)
    → Apart is_other q
    → q e ≡ false
    → number_of q rows ≤ n
    → number_of q (trim is_other keep_rows (delete_old now (e ∷ rows))) ≤ n
number_kept q now n e rows apart new h =
    let same =
      matching-trim is_other q keep_rows (delete_old now (e ∷ rows)) apart
      ∙ matching-delete_old q now (e ∷ rows) apart in
    omega (
      arith,
      number_of-matching q (trim is_other keep_rows (delete_old now (e ∷ rows))) (e ∷ rows) same,
      number_of-skip q e rows new,
    )

other-IsCapped :
    (now : ℕ) (e : AuditEntry) (rows : List AuditEntry)
    → is_action failed e ≡ false
    → is_action rejected_sso e ≡ false
    → IsLog (e ∷ rows)
    → IsCapped rows
    → IsCapped (trim is_other keep_rows (delete_old now (e ∷ rows)))
other-IsCapped now e rows f r log h =
    let kept = IsLog-delete_old now (e ∷ rows) log in
    record {
      log = IsLog-trim is_other keep_rows (delete_old now (e ∷ rows)) kept;
      failed_le = number_kept (is_action failed) now failed_cap e rows other-failed f h.failed_le;
      rejected_le =
          number_kept (is_action rejected_sso) now rejected_sso_cap e rows other-rejected r
            h.rejected_le;
      other_le = number_of-trim is_other keep_rows (delete_old now (e ∷ rows)) kept;
    }

own-IsCapped :
    (rows : List AuditEntry) (action own : String) (keep limit : ℕ)
    → action ≡ own
    → keep ≡ limit
    → IsCapped (trim (is_action own) limit rows)
    → IsCapped (trim (is_action action) keep rows)
own-IsCapped rows action own keep limit is same h =
    subst (λ (a : String). IsCapped (trim (is_action a) keep rows)) (sym is)
      (subst (λ (k : ℕ). IsCapped (trim (is_action own) k rows)) (sym same) h)

-- However many rows are written, the log never holds more than 10,000 failed sign-ins, 10,000
-- rejected single sign-ons and 50,000 rows of the other events: a row with a new id keeps the caps.
pub record_event-IsCapped :
    (now id : ℕ) (action : String) (actor : Actor) (target : Option String) (detail : List String)
    (rows after : List AuditEntry)
    → AllBelow id rows
    → IsCapped rows
    → record_event now id action actor target detail rows ≡ some after
    → IsCapped after
record_event-IsCapped now id action actor target detail rows after below h done =
    let e = entry now id action actor target detail in
    let named = action-entry now id action actor target detail in
    let log = new-IsLog now id action actor target detail rows below h.log in
    elim (Option-cases (own_cap action)) [
      | inl open_kind ↦
          let (f, r) = own_cap-none action open_kind in
          subst IsCapped
            (sym (record-other now id action actor target detail rows after open_kind done))
            (other-IsCapped now e rows (rw named f) (rw named r) log h)
      | inr (keep, own) ↦
          let trimmed = record-own now id keep action actor target detail rows after own done in
          subst IsCapped (sym trimmed) (elim (own_cap-cases action keep own) [
            | inl (is, limit) ↦
                own-IsCapped (e ∷ rows) action failed keep failed_cap is limit
                  (failed-IsCapped e rows (named ∙ is) log h)
            | inr (is, limit) ↦
                own-IsCapped (e ∷ rows) action rejected_sso keep rejected_sso_cap is limit
                  (rejected-IsCapped e rows (named ∙ is) log h)
          ])
    ]

different :
    (r : AuditEntry) (action other : String)
    → is_action other r ≡ true
    → (action ≡ other → ⊥)
    → is_action action r ≡ false
different r action other picked ne =
    ground (arith, eq_iff r.action other, eq_iff r.action action, ne)

different_self : (action other : String) → (action ≡ other → ⊥) → str_eq action other ≡ false
different_self action other ne = ground (arith, eq_iff action other, ne)

matching-skip :
    (q : AuditEntry → Bool) (e : AuditEntry) (rows : List AuditEntry)
    → q e ≡ false
    → matching q (e ∷ rows) ≡ matching q rows
unfolding matching
matching-skip q e rows h = ground arith

-- A flood of failed sign-ins, or of rejected single sign-ons, pushes out nothing else: writing such
-- a row leaves the rows of every other event as they were.
pub record_event-flood :
    (now id keep : ℕ) (action other : String) (actor : Actor) (target : Option String)
    (detail : List String) (rows after : List AuditEntry)
    → own_cap action ≡ some keep
    → (action ≡ other → ⊥)
    → record_event now id action actor target detail rows ≡ some after
    → matching (is_action other) after ≡ matching (is_action other) rows
record_event-flood now id keep action other actor target detail rows after own ne done =
    let e = entry now id action actor target detail in
    let new : is_action other e ≡ false =
      rw (action-entry now id action actor target detail) (different_self action other ne) in
    ap (matching (is_action other))
      (record-own now id keep action actor target detail rows after own done)
    ∙ matching-trim (is_action action) (is_action other) keep (e ∷ rows)
        (λ r picked. different r action other picked ne)
    ∙ matching-skip (is_action other) e rows new
