-- ===== src/Services/Sharing.antt =====
-- The switch of the share view, in memory (backend/app/services/share.py and the PUT of
-- backend/app/routers/settings.py).
pub mod Tasks
pub mod Safety
pub mod Races
pub mod Examples
use cabinet_numismatics.Prelude.{
  ℕ, suc, Bool, true, false, not, ◌&&◌, Option, none, some, ◌==◌, if◌then◌else◌,
}

-- `_enabled` and `_generation`
pub record Memory : Type 0 where
  pub enabled : Option Bool
  pub generation : ℕ

unfoldable pub set_enabled : Bool → Memory → Memory
set_enabled value m = record { enabled = some value; generation = suc m.generation }

-- What `load` reads of the database: off where the table of settings is not there.
abbrev pub stored : Bool → Bool → Bool
stored has_table share_enabled = if has_table then share_enabled else false

abbrev pub finish_with : ℕ → Bool → Memory → Option Bool → Memory × Bool
finish_with seen value m none = (record m { enabled = some value }, value)
finish_with seen value m (some now_on) =
    if not (m.generation == seen) then (m, now_on) else (record m { enabled = some value }, value)

-- The end of `load`, with the generation that it saw and the value that it read.
unfoldable pub finish_load : ℕ → Bool → Memory → Memory × Bool
finish_load seen value m = finish_with seen value m m.enabled

unfoldable pub reset_memory : Memory → Memory
reset_memory m = record { enabled = none; generation = suc m.generation }
