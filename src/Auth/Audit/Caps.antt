-- ===== src/Auth/Audit/Caps.antt =====
-- The caps of the audit log (backend/app/auth/audit.py).
use cabinet_numismatics.Prelude.{
  ℕ, zero, suc, ◌+◌, ◌≤◌, ◌<◌, ◌≡◌, refl, sym, ap, ◌∙◌, length, inl, inr, String, Bool, true, false,
  Option, none, some, List, [], ◌∷◌, arith, if◌then◌else◌, Option-cases, eq_iff,
}
use cabinet_numismatics.Auth.Rows.{AuditEntry}
use cabinet_numismatics.Auth.Audit.{
  failed, failed_cap, rejected_sso, rejected_sso_cap, keep_rows, id_at, delete_upto, trim, own_cap,
  is_action, is_other, delete_old, enforce_caps, entry, record_event, Actor,
}

-- The rows that match, and their number.
unfoldable pub matching : (AuditEntry → Bool) → List AuditEntry → List AuditEntry
matching p [] = []
matching p (r ∷ rs) = let rest = matching p rs in if p r then r ∷ rest else rest

unfoldable pub number_of : (AuditEntry → Bool) → List AuditEntry → ℕ
number_of p [] = 0
number_of p (r ∷ rs) = (if p r then 1 else 0) + number_of p rs

abbrev pub AllBelow : ℕ → List AuditEntry → Type 0
AllBelow i [] = Unit
AllBelow i (r ∷ rs) = (r.id < i) × AllBelow i rs

-- The newest row is the first.
abbrev pub IsLog : List AuditEntry → Type 0
IsLog [] = Unit
IsLog (r ∷ rs) = AllBelow r.id rs × IsLog rs

id_at-none :
    (p : AuditEntry → Bool) (n : ℕ) (rows : List AuditEntry)
    → id_at p n rows ≡ none
    → number_of p rows ≤ n
unfolding id_at number_of
id_at-none p n [] h = omega arith
id_at-none p zero (r ∷ rs) h = ground (arith, id_at-none p zero rs)
id_at-none p (suc n) (r ∷ rs) h = ground (arith, id_at-none p n rs, id_at-none p (suc n) rs)

delete_upto-AllBelow :
    (p : AuditEntry → Bool) (i : ℕ) (rows : List AuditEntry)
    → AllBelow i rows
    → number_of p (delete_upto p i rows) ≡ 0
unfolding delete_upto number_of
delete_upto-AllBelow p i [] h = refl
delete_upto-AllBelow p i (r ∷ rs) h = ground (arith, h.0, delete_upto-AllBelow p i rs h.1)

id_at-some :
    (p : AuditEntry → Bool) (n i : ℕ) (rows : List AuditEntry)
    → IsLog rows
    → id_at p n rows ≡ some i
    → number_of p (delete_upto p i rows) ≤ n
unfolding id_at number_of delete_upto
id_at-some p n i [] log h = omega arith
id_at-some p zero i (r ∷ rs) log h =
    ground (arith, id_at-some p zero i rs log.1, delete_upto-AllBelow p r.id rs log.0)
id_at-some p (suc n) i (r ∷ rs) log h =
    ground (arith, id_at-some p n i rs log.1, id_at-some p (suc n) i rs log.1)

-- After a trim at most so many matching rows are left.
pub number_of-trim :
    (p : AuditEntry → Bool) (keep : ℕ) (rows : List AuditEntry)
    → IsLog rows
    → number_of p (trim p keep rows) ≤ keep
unfolding trim
number_of-trim p keep rows log = elim (Option-cases (id_at p keep rows)) [
  | inl few ↦ ground (arith, few, id_at-none p keep rows few)
  | inr (i, found) ↦ ground (arith, found, id_at-some p keep i rows log found)
]

-- What a trim does to the rows that other tests pick.
abbrev pub Apart : (AuditEntry → Bool) → (AuditEntry → Bool) → Type 0
Apart p q = (r : AuditEntry) → q r ≡ true → p r ≡ false

matching-delete_upto :
    (p q : AuditEntry → Bool) (i : ℕ) (rows : List AuditEntry)
    → Apart p q
    → matching q (delete_upto p i rows) ≡ matching q rows
unfolding matching delete_upto
matching-delete_upto p q i [] apart = refl
matching-delete_upto p q i (r ∷ rs) apart =
    ground (arith, apart r, matching-delete_upto p q i rs apart)

pub matching-trim :
    (p q : AuditEntry → Bool) (keep : ℕ) (rows : List AuditEntry)
    → Apart p q
    → matching q (trim p keep rows) ≡ matching q rows
unfolding trim
matching-trim p q keep rows apart = elim (Option-cases (id_at p keep rows)) [
  | inl few ↦ ground (arith, few)
  | inr (i, found) ↦ ground (arith, found, matching-delete_upto p q i rows apart)
]

AllBelow-delete_upto :
    (p : AuditEntry → Bool) (i j : ℕ) (rows : List AuditEntry)
    → AllBelow j rows
    → AllBelow j (delete_upto p i rows)
unfolding delete_upto
AllBelow-delete_upto p i j [] h = tt
AllBelow-delete_upto p i j (r ∷ rs) h = ground (arith, h.0, AllBelow-delete_upto p i j rs h.1)

IsLog-delete_upto :
    (p : AuditEntry → Bool) (i : ℕ) (rows : List AuditEntry)
    → IsLog rows
    → IsLog (delete_upto p i rows)
unfolding delete_upto
IsLog-delete_upto p i [] h = tt
IsLog-delete_upto p i (r ∷ rs) h =
    ground (arith, AllBelow-delete_upto p i r.id rs h.0, IsLog-delete_upto p i rs h.1)

pub IsLog-trim :
    (p : AuditEntry → Bool) (keep : ℕ) (rows : List AuditEntry)
    → IsLog rows
    → IsLog (trim p keep rows)
unfolding trim
IsLog-trim p keep rows log = elim (Option-cases (id_at p keep rows)) [
  | inl few ↦ ground (arith, few, log)
  | inr (i, found) ↦ ground (arith, found, IsLog-delete_upto p i rows log)
]

AllBelow-delete_old :
    (now j : ℕ) (rows : List AuditEntry) → AllBelow j rows → AllBelow j (delete_old now rows)
unfolding delete_old
AllBelow-delete_old now j [] h = tt
AllBelow-delete_old now j (r ∷ rs) h = ground (arith, h.0, AllBelow-delete_old now j rs h.1)

pub IsLog-delete_old : (now : ℕ) (rows : List AuditEntry) → IsLog rows → IsLog (delete_old now rows)
unfolding delete_old
IsLog-delete_old now [] h = tt
IsLog-delete_old now (r ∷ rs) h =
    ground (arith, AllBelow-delete_old now r.id rs h.0, IsLog-delete_old now rs h.1)

pub matching-delete_old :
    (q : AuditEntry → Bool) (now : ℕ) (rows : List AuditEntry)
    → Apart is_other q
    → matching q (delete_old now rows) ≡ matching q rows
unfolding matching delete_old
matching-delete_old q now [] apart = refl
matching-delete_old q now (r ∷ rs) apart =
    ground (arith, apart r, matching-delete_old q now rs apart)

number_of-length :
    (q : AuditEntry → Bool) (rows : List AuditEntry) → number_of q rows ≡ length (matching q rows)
unfolding number_of matching
number_of-length q [] = refl
number_of-length q (r ∷ rs) = ground (arith, number_of-length q rs)

pub number_of-matching :
    (q : AuditEntry → Bool) (a b : List AuditEntry)
    → matching q a ≡ matching q b
    → number_of q a ≡ number_of q b
number_of-matching q a b h = number_of-length q a ∙ ap length h ∙ sym (number_of-length q b)

pub failed-rejected : Apart (is_action failed) (is_action rejected_sso)
failed-rejected r h = rw ((eq_iff r.action rejected_sso).0 h) refl

pub rejected-failed : Apart (is_action rejected_sso) (is_action failed)
rejected-failed r h = rw ((eq_iff r.action failed).0 h) refl

pub failed-other : Apart (is_action failed) is_other
failed-other r h = ground arith

pub rejected-other : Apart (is_action rejected_sso) is_other
rejected-other r h = ground arith

pub other-failed : Apart is_other (is_action failed)
other-failed r h = ground arith

pub other-rejected : Apart is_other (is_action rejected_sso)
other-rejected r h = ground arith

-- The log's rows are in the order of their ids, and no kind of row exceeds its cap.
pub record IsCapped (rows : List AuditEntry) : Type 0 where
  pub log : IsLog rows
  pub failed_le : number_of (is_action failed) rows ≤ failed_cap
  pub rejected_le : number_of (is_action rejected_sso) rows ≤ rejected_sso_cap
  pub other_le : number_of is_other rows ≤ keep_rows

pub number_of-skip :
    (q : AuditEntry → Bool) (r : AuditEntry) (rows : List AuditEntry)
    → q r ≡ false
    → number_of q (r ∷ rows) ≡ number_of q rows
unfolding number_of
number_of-skip q r rows h = ground arith

-- A trim to the cap of one kind leaves the other two kinds as they were.
pub trim_le :
    (p q : AuditEntry → Bool) (keep n : ℕ) (r : AuditEntry) (rows : List AuditEntry)
    → Apart p q
    → q r ≡ false
    → number_of q rows ≤ n
    → number_of q (trim p keep (r ∷ rows)) ≤ n
trim_le p q keep n r rows apart new h = omega (
  arith,
  number_of-matching q (trim p keep (r ∷ rows)) (r ∷ rows)
      (matching-trim p q keep (r ∷ rows) apart),
  number_of-skip q r rows new,
)

pub record-own :
    (now id keep : ℕ) (action : String) (actor : Actor) (target : Option String)
    (detail : List String) (rows after : List AuditEntry)
    → own_cap action ≡ some keep
    → record_event now id action actor target detail rows ≡ some after
    → after ≡ trim (is_action action) keep (entry now id action actor target detail ∷ rows)
unfolding record_event enforce_caps
record-own now id keep action actor target detail rows after cap h = ground arith

pub record-other :
    (now id : ℕ) (action : String) (actor : Actor) (target : Option String) (detail : List String)
    (rows after : List AuditEntry)
    → own_cap action ≡ none
    → record_event now id action actor target detail rows ≡ some after
    → after
      ≡ trim is_other keep_rows (delete_old now (entry now id action actor target detail ∷ rows))
unfolding record_event enforce_caps
record-other now id action actor target detail rows after cap h = ground arith
