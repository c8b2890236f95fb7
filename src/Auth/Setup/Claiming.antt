-- ===== src/Auth/Setup/Claiming.antt =====
-- The set-up code once it is used (backend/app/auth/setup.py).
use mathlib.Core.Path.{subst}
use cabinet_numismatics.Prelude.{
  ℕ, ◌≡◌, refl, sym, ap, ◌∙◌, String, Bool, true, false, Option, none, some, arith,
}
use cabinet_numismatics.Auth.Rows.{Db}
use cabinet_numismatics.Auth.Passwords.{check_password_rules, normalize_username}
use cabinet_numismatics.Auth.Accounts.World.{
  World, Tools, Client, Secrets, start, remember_browser, note,
}
use cabinet_numismatics.Auth.Accounts.Changes.{
  Changed, done, refused_rule, wrong, too_many, too_busy, not_found, not_claimed, already_claimed,
}
use cabinet_numismatics.Auth.Accounts.Upkeep.{claimed, claim_account, create_named, create_admin}
use cabinet_numismatics.Auth.Setup.{
  Setup, Outside, Prepared, ready, write_error, bad_config, prepare, ensure_prepared,
  supplied_setup_code, check, mark_claimed, Request, Response, created, taken, wrong_code, refused,
  slowed, busy, server_error, answer, with_code, once_prepared, auth_setup,
}
use cabinet_numismatics.Auth.Setup.Lifecycle.{System, Runs, Runs-is_spent, is_spent}

module _ (upper : String → String) (t : Tools) where
  abbrev is_done : Changed → Bool
  is_done done = true
  is_done refused_rule = false
  is_done wrong = false
  is_done (too_many _) = false
  is_done too_busy = false
  is_done not_found = false
  is_done not_claimed = false
  is_done already_claimed = false

  abbrev pub is_created : Response → Bool
  is_created created = true
  is_created taken = false
  is_created wrong_code = false
  is_created refused = false
  is_created (slowed _) = false
  is_created busy = false
  is_created server_error = false

  answer-created :
      (r : Request) (s : Setup) (x : World × Changed)
      → is_created (answer r s x).1 ≡ true
      → (is_done x.1 ≡ true) × ((answer r s x).0 ≡ (x.0, mark_claimed r.mark_writable s))
  answer-created r s (w, done) h = (refl, refl)
  answer-created r s (w, refused_rule) h = ground arith
  answer-created r s (w, already_claimed) h = ground arith
  answer-created r s (w, too_busy) h = ground arith
  answer-created r s (w, wrong) h = ground arith
  answer-created r s (w, too_many n) h = ground arith
  answer-created r s (w, not_found) h = ground arith
  answer-created r s (w, not_claimed) h = ground arith

  abbrev admin_made : Request → World → World × Changed
  admin_made r w = create_admin t r.secrets r.hash_slot r.now r.username r.password r.client w

  -- What stands behind a set-up that succeeded, from a preparation on.
  abbrev Behind : Request → World → Setup × Prepared → (World × Setup) × Response → Type 0
  Behind r w x a =
      (check upper r.typed x.0 ≡ true)
      × (x.1 ≡ ready)
      × (is_done (admin_made r w).1 ≡ true)
      × (a.0 ≡ ((admin_made r w).0, mark_claimed r.mark_writable x.0))

  with_code-created :
      (r : Request) (right : Bool) (w : World) (s : Setup)
      → is_created (with_code t r right w s).1 ≡ true
      → (right ≡ true)
        × (is_done (admin_made r w).1 ≡ true)
        × ((with_code t r right w s).0 ≡ ((admin_made r w).0, mark_claimed r.mark_writable s))
  with_code-created r true w s h =
      let found = answer-created r s (admin_made r w) h in (refl, found.0, found.1)
  with_code-created r false w s h = ground arith

  once_prepared-created :
      (r : Request) (w : World) (x : Setup × Prepared)
      → is_created (once_prepared upper t r w x).1 ≡ true
      → Behind r w x (once_prepared upper t r w x)
  once_prepared-created r w (s, ready) h =
      let found = with_code-created r (check upper r.typed s) w s h in
      (found.0, refl, found.1, found.2)
  once_prepared-created r w (s, write_error) h = ground arith
  once_prepared-created r w (s, bad_config) h = ground arith

  -- The route's first test.
  unclaimed_only :
      (r : Request) (w : World) (s : Setup)
      → is_created (auth_setup upper t r w s).1 ≡ true
      → (claimed w.db ≡ false)
        × (auth_setup upper t r w s
            ≡ once_prepared upper t r w (ensure_prepared (claimed w.db) r.outside s))
  unfolding auth_setup
  unclaimed_only r w s h = ground arith

  auth_setup-created :
      (r : Request) (w : World) (s : Setup)
      → is_created (auth_setup upper t r w s).1 ≡ true
      → (claimed w.db ≡ false)
        × Behind r w (ensure_prepared (claimed w.db) r.outside s) (auth_setup upper t r w s)
  auth_setup-created r w s h =
      let (free, same) = unclaimed_only r w s h in
      let x = ensure_prepared (claimed w.db) r.outside s in
      (
        free,
        subst (Behind r w x) (sym same)
            (once_prepared-created r w x (subst (λ y. is_created y.1 ≡ true) same h)),
      )

  ready-prepared :
      (b : Bool) (o : Outside) (s : Setup)
      → (ensure_prepared b o s).1 ≡ ready
      → (ensure_prepared b o s).0.prepared ≡ true
  unfolding ensure_prepared prepare supplied_setup_code
  ready-prepared b o s h = ground arith

  mark_claimed-is_spent :
      (b : Bool) (s : Setup) → s.prepared ≡ true → is_spent upper t (mark_claimed b s) ≡ true
  unfolding mark_claimed
  mark_claimed-is_spent b s h = ground arith

  -- After a set-up that succeeded, no text is accepted as the code again as long as the backend runs,
  -- whatever requests come for the set-up and for the state of the sign-in, and whatever happens to
  -- the database, the loss of the claim included.
  pub auth_setup_once :
      (r : Request) (p : System) {q : System} (typed : String)
      → is_created (auth_setup upper t r p.world p.memory).1 ≡ true
      → Runs upper t
          (record {
            world = (auth_setup upper t r p.world p.memory).0.0;
            memory = (auth_setup upper t r p.world p.memory).0.1;
          })
          q
      → check upper typed q.memory ≡ false
  unfolding check
  auth_setup_once r p typed h runs =
      let x = ensure_prepared (claimed p.world.db) r.outside p.memory in
      let (free, (accepted, ok, made, same)) = auth_setup-created r p.world p.memory h in
      let spent =
        mark_claimed-is_spent r.mark_writable x.0
          (ready-prepared (claimed p.world.db) r.outside p.memory ok) in
      ground (
        arith,
        Runs-is_spent upper t runs (
            subst (λ m. is_spent upper t m ≡ true) (sym (ap (λ (a : World × Setup). a.1) same))
              spent),
      )

  claim_account-claimed :
      (s : Secrets) (now : ℕ) (name password : String) (c : Client) (db : Db)
      → claimed (claim_account t s now name password c db) ≡ true
  unfolding claim_account start remember_browser note
  claim_account-claimed s now name password c db = ground arith

  create_named-done :
      (r : Request) (w : World) (name : Option String)
      → is_done (create_named t r.secrets r.hash_slot r.now r.password r.client w name).1 ≡ true
      → (check_password_rules r.password ≡ true)
        × (claimed (create_named t r.secrets r.hash_slot r.now r.password r.client w name).0.db
            ≡ true)
  create_named-done r w none h = ground arith
  create_named-done r w (some name) h =
      ground (arith, claim_account-claimed r.secrets r.now name r.password r.client w.db)

  -- A set-up that succeeds found the database unclaimed and brought the code that was in memory or
  -- was prepared by the request, with a
  -- password that keeps the rules; it leaves the database claimed and the code in memory gone.
  pub auth_setup_sound :
      (r : Request) (w : World) (s : Setup)
      → is_created (auth_setup upper t r w s).1 ≡ true
      → (claimed w.db ≡ false)
        × (check upper r.typed (ensure_prepared false r.outside s).0 ≡ true)
        × (check_password_rules r.password ≡ true)
        × (claimed (auth_setup upper t r w s).0.0.db ≡ true)
        × ((auth_setup upper t r w s).0.1.code ≡ none)
  unfolding create_admin mark_claimed
  auth_setup_sound r w s h =
      let (free, (accepted, ok, made, same)) = auth_setup-created r w s h in
      let facts = create_named-done r w (normalize_username r.username) made in
      (
        free,
        subst (λ b. check upper r.typed (ensure_prepared b r.outside s).0 ≡ true) free accepted,
        facts.0,
        ap (λ (a : World × Setup). claimed a.0.db) same ∙ facts.1,
        ap (λ (a : World × Setup). a.1.code) same,
      )
