-- ===== src/Services/Restore/Recovery.antt =====
-- What the next start makes of a restore that stops anywhere (backend/app/services/restore.py).
use cabinet_numismatics.Prelude.Dict.{Dict}
