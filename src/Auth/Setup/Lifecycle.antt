-- ===== src/Auth/Setup/Lifecycle.antt =====
-- The set-up code over the life of an installation (backend/app/auth/setup.py).
use text.Mathlib.Text.{◌==◌ as str_eq}
use cabinet_numismatics.Prelude.{
  List, [], ◌∷◌, ℕ, ◌≡◌, ◌⊎◌, inl, inr, refl, String, Bool, true, false, ◌&&◌, ◌||◌, Option, none,
  some, arith,
}
use cabinet_numismatics.Auth.Throttle.State.{empty}
use cabinet_numismatics.Auth.Accounts.World.{World, Tools}
use cabinet_numismatics.Auth.Accounts.Changes.{
  Changed, done, refused_rule, wrong, too_many, too_busy, not_found, not_claimed, already_claimed,
}
use cabinet_numismatics.Auth.Accounts.Upkeep.{claimed, create_admin}
use cabinet_numismatics.Auth.Setup.{
  Setup, Outside, Prepared, ready, write_error, bad_config, prepare, ensure_prepared, check,
  mark_claimed, reset_memory, auth_state, Request, answer, with_code, once_prepared, count_wrong,
  wait_for, auth_setup,
}

-- The running backend: what its operations work on, and the memory of the set-up.
pub record System : Type 0 where
  pub world : World
  pub memory : Setup

module _ (upper : String → String) (t : Tools) where
  -- What happens while the backend runs: a request for the set-up, a request for the state of the
  -- sign-in, and a change of the world by something else, be it another request or a restore, which
  -- may lose the claim or bring one.
  pub data Run : System → System → Type 0 where
    request :
        {p : System} (r : Request)
        → Run p (record {
          world = (auth_setup upper t r p.world p.memory).0.0;
          memory = (auth_setup upper t r p.world p.memory).0.1;
        })
    state_read :
        {p : System} (o : Outside) → Run p (record p { memory = (auth_state o p.world p.memory).0 })
    replaced : {p : System} (w : World) → Run p (record p { world = w })

  pub data Runs : System → System → Type 0 where
    here : {p : System} → Runs p p
    next : {p q r : System} → Run p q → Runs q r → Runs p r

  pub data Steps : System → System → Type 0 where
    still : {p : System} → Steps p p
    run : {p q r : System} → Run p q → Steps q r → Steps p r
    restart :
        {p r : System} (o : Outside)
        → Steps
            (record {
              world = record p.world { throttle = empty };
              memory = (prepare true (claimed p.world.db) o (reset_memory p.memory)).0;
            })
            r
        → Steps p r

  -- The random codes that were offered to the steps, before those that were offered earlier.
  abbrev pub offered : {p q : System} → Run p q → List String → List String
  offered (request r) ds = r.outside.random ∷ ds
  offered (state_read o) ds = o.random ∷ ds
  offered (replaced w) ds = ds

  abbrev pub codes : {p q : System} → Steps p q → List String → List String
  codes still ds = ds
  codes (run a rest) ds = codes rest (offered a ds)
  codes (restart o rest) ds = codes rest (o.random ∷ ds)

  abbrev pub among : String → List String → Bool
  among c [] = false
  among c (d ∷ ds) = str_eq d c || among c ds

  abbrev no_code : Option String → Bool
  no_code none = true
  no_code (some _) = false

  -- A code in memory is a generated one, out of the list.
  abbrev pub comes_from : List String → Bool → Option String → Bool
  comes_from ds generated none = true
  comes_from ds generated (some c) = generated && among c ds

  abbrev pub is_inert : List String → Setup → Bool
  is_inert ds s = s.marker && comes_from ds s.generated s.code

  -- The code was used: none is in memory, and no request prepares one.
  abbrev pub is_spent : Setup → Bool
  is_spent s = s.prepared && no_code s.code

  answer-memory :
      (r : Request) (s : Setup) (x : World × Changed)
      → ((answer r s x).0.1 ≡ s) ⊎ ((answer r s x).0.1 ≡ mark_claimed r.mark_writable s)
  answer-memory r s (w, done) = inr refl
  answer-memory r s (w, refused_rule) = inl refl
  answer-memory r s (w, already_claimed) = inl refl
  answer-memory r s (w, too_busy) = inl refl
  answer-memory r s (w, wrong) = inl refl
  answer-memory r s (w, too_many n) = inl refl
  answer-memory r s (w, not_found) = inl refl
  answer-memory r s (w, not_claimed) = inl refl

  count_wrong-memory : (r : Request) (s : Setup) (x : World × ℕ) → (count_wrong t r s x).0.1 ≡ s
  count_wrong-memory r s (w, wait) = ground arith

  with_code-memory :
      (r : Request) (right : Bool) (w : World) (s : Setup)
      → ((with_code t r right w s).0.1 ≡ s)
        ⊎ ((with_code t r right w s).0.1 ≡ mark_claimed r.mark_writable s)
  with_code-memory r true w s =
      answer-memory r s
        (create_admin t r.secrets r.hash_slot r.now r.username r.password r.client w)
  with_code-memory r false w s = inl (count_wrong-memory r s (wait_for t r w))

  once_prepared-memory :
      (r : Request) (w : World) (x : Setup × Prepared)
      → ((once_prepared upper t r w x).0.1 ≡ x.0)
        ⊎ ((once_prepared upper t r w x).0.1 ≡ mark_claimed r.mark_writable x.0)
  once_prepared-memory r w (s, ready) = with_code-memory r (check upper r.typed s) w s
  once_prepared-memory r w (s, write_error) = inl refl
  once_prepared-memory r w (s, bad_config) = inl refl

  -- A property of the memory that preparing and claiming keep is kept by a request.
  auth_setup-keeps :
      (P : Setup → Bool) (r : Request) (w : World) (s : Setup)
      → P s ≡ true
      → P (ensure_prepared (claimed w.db) r.outside s).0 ≡ true
      → P (mark_claimed r.mark_writable (ensure_prepared (claimed w.db) r.outside s).0) ≡ true
      → P (auth_setup upper t r w s).0.1 ≡ true
  unfolding auth_setup
  auth_setup-keeps P r w s h e m =
      ground (arith, once_prepared-memory r w (ensure_prepared (claimed w.db) r.outside s))

  -- The code in memory, if any, is one of these, and marked as generated.
  abbrev pub OnlyGenerated : List String → Setup → Type 0
  OnlyGenerated ds s =
      (s.code ≡ none)
      ⊎ ((c : String) × (s.code ≡ some c) × (s.generated ≡ true) × (among c ds ≡ true))

  spent-keeps :
      (r : Request) (w : World) (s : Setup)
      → is_spent s ≡ true
      → is_spent (auth_setup upper t r w s).0.1 ≡ true
  unfolding ensure_prepared mark_claimed
  spent-keeps r w s h = auth_setup-keeps is_spent r w s h (ground arith) (ground arith)

  prepared_already :
      (b : Bool) (o : Outside) (s : Setup)
      → is_spent s ≡ true
      → is_spent (ensure_prepared b o s).0 ≡ true
  unfolding ensure_prepared
  prepared_already b o s h = ground arith

  pub Runs-is_spent :
      {p q : System} → Runs p q → is_spent p.memory ≡ true → is_spent q.memory ≡ true
  unfolding auth_state
  Runs-is_spent here h = h
  Runs-is_spent {p} (next (request r) rest) h =
      Runs-is_spent rest (spent-keeps r p.world p.memory h)
  Runs-is_spent {p} (next (state_read o) rest) h =
      Runs-is_spent rest (prepared_already (claimed p.world.db) o p.memory h)
  Runs-is_spent (next (replaced w) rest) h = Runs-is_spent rest h
