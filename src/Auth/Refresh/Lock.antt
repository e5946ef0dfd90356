-- ===== src/Auth/Refresh/Lock.antt =====
-- The refresh lock in ensureFresh and Refresh of internal/auth/service/service.go.
use accessgate.Base.{
  ℕ, String, ◌≡◌, ◌≢◌, eq_refl, Bool, true, false, not, ◌&&◌, ◌||◌, [], ◌∷◌, arith, eqb, ◌==◌,
}
use accessgate.Base.Int.{ℤ}
use accessgate.Base.Result.{Result, ok, err}
use accessgate.Session.{Session}
use accessgate.Auth.Env.{
  M, History, Event, session_stored, lock_obtained, lock_released, tokens_refreshed, ProviderTokens,
  ◌>>=◌, deferring, obtain_lock, wrap_error, refresh_tokens, set_session, release_lock,
}
use accessgate.Auth.Service.{Service, Connector, Deps}
use accessgate.Auth.Env.Keeps.{
  Keeps, keeps_rules, after-bind, history-wrap_error, wrap_error-ok, wrap_error-err,
}
use accessgate.Auth.Refresh.{
  rotate, renew, renew_if_due, with_lock, lock_if_due, ensure_fresh, require_session, refresh_due,
  expires_from, validate_id_token,
}

-- Whether Obtain granted the lock of a session and Release was not called since. This follows the
-- calls: neither the lock's time to live nor a Release that fails is in it.
unfoldable pub unreleased : ℕ → String → History → Bool
unreleased l id [] = false
unreleased l id (lock_obtained l' id' ttl r ∷ t) =
    (eqb l' l && id' == id && elim r [ ok b ↦ b | err e ↦ false ]) || unreleased l id t
unreleased l id (lock_released l' id' r ∷ t) = not (eqb l' l && id' == id) && unreleased l id t
unreleased l id (_ ∷ t) = unreleased l id t

-- A call that may spend the refresh token or overwrite the session.
unfoldable pub is_renewal : Event → Bool
is_renewal (tokens_refreshed p r tokens) = true
is_renewal (session_stored store id s ttl r) = true
is_renewal _ = false

-- Every such call was made between a granted Obtain and the next Release.
unfoldable pub guarded : ℕ → String → History → Bool
unfolding unreleased is_renewal
guarded l id [] = true
guarded l id (e ∷ t) = (not (is_renewal e) || unreleased l id t) && guarded l id t

module _ (d : Deps) (s : Service) (c : Connector) (id : String) where
  -- Between the two calls.
  record IsInside (t : History) : Type 0 where
    guards : guarded c.refresh_lock id t ≡ true
    holds : unreleased c.refresh_lock id t ≡ true

  -- Outside them.
  pub record IsOutside (t : History) : Type 0 where
    pub guards : guarded c.refresh_lock id t ≡ true
    pub free : unreleased c.refresh_lock id t ≡ false

  require_session-IsInside : Keeps IsInside (require_session d c id)
  unfolding guarded require_session ◌>>=◌
  require_session-IsInside = record { at = λ t h. ground arith }

  require_session-IsOutside : Keeps IsOutside (require_session d c id)
  unfolding guarded require_session ◌>>=◌
  require_session-IsOutside = record { at = λ t h. ground arith }

  refresh_due-IsInside : (sess : Session) → Keeps IsInside (refresh_due d s sess)
  unfolding guarded refresh_due ◌>>=◌
  refresh_due-IsInside sess = record { at = λ t h. ground arith }

  refresh_due-IsOutside : (sess : Session) → Keeps IsOutside (refresh_due d s sess)
  unfolding guarded refresh_due ◌>>=◌
  refresh_due-IsOutside sess = record { at = λ t h. ground arith }

  rotate-IsInside :
      (sess : Session) (tokens : ProviderTokens) → Keeps IsInside (rotate d c sess tokens)
  unfolding guarded rotate expires_from validate_id_token ◌>>=◌
  rotate-IsInside sess tokens = record { at = λ t h. ground arith }

  spend-IsInside : (token : String) → Keeps IsInside (refresh_tokens d.env c.provider token)
  unfolding guarded ◌>>=◌
  spend-IsInside token = record { at = λ t h. ground arith }

  store-IsInside :
      (sess : Session) (ttl : ℤ) → Keeps IsInside (set_session d.env c.sessions id sess ttl)
  unfolding guarded ◌>>=◌
  store-IsInside sess ttl = record { at = λ t h. ground arith }

  renew-IsInside : (sess : Session) → Keeps IsInside (renew d c id sess)
  unfolding renew
  renew-IsInside sess = search (keeps_rules, rotate-IsInside, spend-IsInside, store-IsInside)

  renew_if_due-IsInside : Keeps IsInside (renew_if_due d s c id)
  unfolding renew_if_due
  renew_if_due-IsInside =
      search (keeps_rules, require_session-IsInside, refresh_due-IsInside, renew-IsInside)

  -- Obtaining the lock goes inside, and releasing it goes out.
  obtained-IsInside :
      (ttl : ℤ) (t : History)
      → IsOutside t
      → IsInside (lock_obtained c.refresh_lock id ttl (ok true) ∷ t)
  unfolding guarded
  obtained-IsInside ttl t h = ground (arith, eq_refl id)

  refused-IsOutside :
      (ttl : ℤ) (t : History) (r : Result Bool)
      → r ≢ ok true
      → IsOutside t
      → IsOutside (lock_obtained c.refresh_lock id ttl r ∷ t)
  unfolding guarded
  refused-IsOutside ttl t r no_lock h = ground arith

  released-IsOutside :
      (r : Result (Unit {0})) (t : History)
      → IsInside t
      → IsOutside (lock_released c.refresh_lock id r ∷ t)
  unfolding guarded
  released-IsOutside r t h = ground (arith, eq_refl id)

  locked-IsOutside :
      {A : Type 0} (m : M A) (t : History)
      → Keeps IsInside m
      → IsInside t
      → IsOutside (deferring (release_lock d.env c.refresh_lock id) m t).1
  unfolding ◌>>=◌
  locked-IsOutside m t k h = released-IsOutside _ (m t).1 (k.at t h)

  unlocked-IsOutside : Keeps IsOutside (with_lock d s c id false)
  unfolding with_lock
  unlocked-IsOutside = search (keeps_rules, require_session-IsOutside)

  with_lock-IsOutside :
      (got : Bool) (ttl : ℤ) (t : History)
      → IsOutside t
      → IsOutside (with_lock d s c id got (lock_obtained c.refresh_lock id ttl (ok got) ∷ t)).1
  with_lock-IsOutside true ttl t h =
      unfold with_lock in
      locked-IsOutside (renew_if_due d s c id) _ renew_if_due-IsInside (obtained-IsInside ttl t h)
  with_lock-IsOutside false ttl t h =
      unlocked-IsOutside.at _ (refused-IsOutside ttl t (ok false) (λ e. cc) h)

  asked-IsOutside :
      (got : Bool) (t : History)
      → (obtain_lock d.env c.refresh_lock id c.cfg.session_refresh_lock_ttl_seconds t).0 ≡ ok got
      → IsOutside t
      → IsOutside
          (with_lock d s c id got
            (obtain_lock d.env c.refresh_lock id c.cfg.session_refresh_lock_ttl_seconds t).1).1
  unfolding ◌>>=◌
  asked-IsOutside got t e h =
      rw e (with_lock-IsOutside got c.cfg.session_refresh_lock_ttl_seconds t h)

  failed-IsOutside :
      (t : History)
      → (x : String) × ((obtain_lock d.env c.refresh_lock id c.cfg.session_refresh_lock_ttl_seconds
            t).0
          ≡ err x)
      → IsOutside t
      → IsOutside (obtain_lock d.env c.refresh_lock id c.cfg.session_refresh_lock_ttl_seconds t).1
  unfolding ◌>>=◌
  failed-IsOutside t (x, e) h =
      rw e (refused-IsOutside c.cfg.session_refresh_lock_ttl_seconds t (err x) (λ q. cc) h)

  lock_if_due-IsOutside :
      (sess : Session) (due : Bool) → Keeps IsOutside (lock_if_due d s c id sess due)
  unfolding lock_if_due
  lock_if_due-IsOutside sess false = search keeps_rules
  lock_if_due-IsOutside sess true = record {
    at = λ t h.
        let ttl = c.cfg.session_refresh_lock_ttl_seconds in
        let m = obtain_lock d.env c.refresh_lock id ttl in
        let failed : String = "refresh lock obtain failed: " in
        after-bind IsOutside (wrap_error failed m) (with_lock d s c id) t
          (λ got e.
            rw history-wrap_error (asked-IsOutside got t (wrap_error-ok failed m t got e) h))
          (λ e got. rw history-wrap_error (failed-IsOutside t (wrap_error-err failed m t e got) h));
  }

  -- Whatever the environment answers, ensureFresh calls the provider's refresh and stores a
  -- session only between an Obtain that granted the session's lock and the next call of Release,
  -- and it calls Release after each such Obtain before it returns, if the calls before were made
  -- so. The lock's expiry, and a Release that fails, are not in this.
  pub ensure_fresh-IsOutside : (t : History) → IsOutside t → IsOutside (ensure_fresh d s c id t).1
  ensure_fresh-IsOutside = fresh.at
    where
      fresh : Keeps IsOutside (ensure_fresh d s c id)
      fresh =
          unfold ensure_fresh in
          search
            (keeps_rules, require_session-IsOutside, refresh_due-IsOutside, lock_if_due-IsOutside)
