-- ===== src/Services/Swap/Examples.antt =====
-- The exchange of files on a concrete volume (backend/app/services/restore.py).
use cabinet_numismatics.Prelude.{true, false, ◌≡◌, inl, inr, refl, none, [], ◌∷◌}
use cabinet_numismatics.Prelude.Dict.{get, put, pop}
use cabinet_numismatics.Prelude.Text.{after_prefix}
use cabinet_numismatics.Services.Swap.{
  Volume, is_movable, make_old, move_out, delete_new, rename, exec, exec_all, each, live_entries,
  apply_ops, apply, undo_ops, undo, clear_new_ops, finish_ops, roll_forward, Cut, Attempts, begun,
  attempt,
}
use cabinet_numismatics.Services.Swap.Forward.{roll_forward-Attempts}
use cabinet_numismatics.Services.Swap.Undoing.{undo-Attempts}
use cabinet_numismatics.Services.Swap.Gaps.{stopped_finish, finish_gap, undo_gap}

abbrev photos : Volume
photos = record {
  live = ("a", "old a") ∷ ("b", "old b") ∷ [];
  has_new = true;
  new = ("a", "new a") ∷ ("c", "new c") ∷ [];
  has_old = false;
  old = [];
  moved_out = false;
  trash = [];
}

-- The process stops after it has moved one entry out.
abbrev stopped : Volume
stopped = exec (move_out "a") (exec make_old photos)

stopped_early : Cut (apply_ops photos) photos stopped
unfolding apply_ops live_entries is_movable after_prefix each
stopped_early = inr (inr (inl refl))

abbrev once : Attempts photos stopped
once = attempt stopped_early begun

roll_forward-Attempts_example :
    (get "a" (roll_forward stopped).live ≡ get "a" photos.new)
    × ((roll_forward stopped).has_new ≡ false)
    × ((roll_forward stopped).has_old ≡ false)
    × ((roll_forward stopped).new ≡ [])
    × ((roll_forward stopped).trash ≡ [])
unfolding is_movable after_prefix get
roll_forward-Attempts_example = roll_forward-Attempts "a" refl refl refl refl once

undo-Attempts_example :
    (get "a" (undo stopped).live ≡ get "a" photos.live) × ((undo stopped).has_old ≡ false)
unfolding is_movable after_prefix get
undo-Attempts_example = undo-Attempts "a" refl refl refl refl once

finish_gap_example :
    Cut (finish_ops (apply stopped)) (apply stopped) (stopped_finish (apply stopped))
    × (get "a" (roll_forward (stopped_finish (apply stopped))).live ≡ none)
    × ((roll_forward (stopped_finish (apply stopped))).has_new ≡ false)
    × ((roll_forward (stopped_finish (apply stopped))).has_old ≡ false)
    × ((roll_forward (stopped_finish (apply stopped))).trash ≡ [])
unfolding is_movable after_prefix get
finish_gap_example = finish_gap "a" refl refl refl refl once

undo_gap_example :
    Cut
      (clear_new_ops (exec_all (undo_ops stopped) stopped))
      (exec_all (undo_ops stopped) stopped)
      (exec (delete_new "a") (exec_all (undo_ops stopped) stopped))
    × (get "a" (exec (delete_new "a") (exec_all (undo_ops stopped) stopped)).live
        ≡ get "a" photos.live)
    × (get "a" (roll_forward (exec (delete_new "a") (exec_all (undo_ops stopped) stopped))).live
        ≡ none)
    × ((roll_forward (exec (delete_new "a") (exec_all (undo_ops stopped) stopped))).has_old ≡ false)
unfolding is_movable after_prefix get exec exec_all undo_ops each rename pop put
undo_gap_example = undo_gap "a" "new a" (("c", "new c") ∷ []) refl refl refl refl once refl refl
