-- ===== src/Auth/Throttle/Isolation.antt =====
-- Which maps of the throttles a call reaches (backend/app/auth/throttle.py): failed share lookups,
-- failed single sign-on callbacks, and successes.
use cabinet_numismatics.Prelude.{ℕ, String, ◌≡◌, Option, none, arith}
use cabinet_numismatics.Auth.Throttle.Buckets.{Kind, Key, key_eq_refl, key_eq_iff, get-erase}
use cabinet_numismatics.Auth.Throttle.State.{Throttle, Address, bucket_map, set_map, live, key_of}
use cabinet_numismatics.Auth.Throttle.Ops.{
  count, recent_failures, set_failures, bucket_failure, share_failure, oidc_failure, succeed,
}
use cabinet_numismatics.Auth.Throttle.Views.{view}

-- Nothing but the part of one kind differs.
pub record SameSignIn (s s' : Throttle) : Type 0 where
  pub entries : s'.entries ≡ s.entries
  pub checks : s'.checks ≡ s.checks
  pub flag_seen : s'.flag_seen ≡ s.flag_seen

pub record SameShare (s s' : Throttle) : Type 0 where
  pub shares : s'.shares ≡ s.shares
  pub share_failures : s'.share_failures ≡ s.share_failures

pub record SameOidc (s s' : Throttle) : Type 0 where
  pub oidc_entries : s'.oidc_entries ≡ s.oidc_entries
  pub oidc_failures : s'.oidc_failures ≡ s.oidc_failures

module _ (ip_address : String → Option Address) where
  -- A failed share lookup leaves every sign-in, address, setup and single sign-on bucket, and the
  -- counts of checks and callbacks, as they were.
  pub share_failure_isolated :
      (address : String) (t : ℕ) (s : Throttle)
      → let s' = (share_failure ip_address address t s).0 in SameSignIn s s' × SameOidc s s'
  unfolding share_failure bucket_failure count live recent_failures set_failures set_map bucket_map
      key_of
  share_failure_isolated address t s = ground arith

  -- A failed single sign-on callback leaves every sign-in, address, setup and share bucket, and the
  -- counts of checks and lookups, as they were.
  pub oidc_failure_isolated :
      (address : String) (t : ℕ) (s : Throttle)
      → let s' = (oidc_failure ip_address address t s).0 in SameSignIn s s' × SameShare s s'
  unfolding oidc_failure bucket_failure count live recent_failures set_failures set_map bucket_map
      key_of
  oidc_failure_isolated address t s = ground arith

  -- After a success its bucket is empty, at any time, and every other bucket shows what it showed.
  pub succeed_clears :
      (kind : Kind) (value : String) (s : Throttle) (k : Key) (t : ℕ)
      → (view (key_of ip_address kind value) t (succeed ip_address kind value s) ≡ none)
        × ((k ≡ key_of ip_address kind value → ⊥)
            → view k t (succeed ip_address kind value s) ≡ view k t s)
  unfolding succeed view set_map bucket_map
  succeed_clears kind value s k t =
      let j = key_of ip_address kind value in
      (
        ground (
          arith,
          get-erase j j s.entries,
          get-erase j j s.shares,
          get-erase j j s.oidc_entries,
          key_eq_refl j,
        ),
        λ ne. ground (
          arith,
          ne,
          key_eq_iff j k,
          get-erase k j s.entries,
          get-erase k j s.shares,
          get-erase k j s.oidc_entries,
        ),
      )
