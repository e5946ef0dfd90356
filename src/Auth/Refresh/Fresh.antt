-- ===== src/Auth/Refresh/Fresh.antt =====
-- Which refresh token ensureFresh and Refresh of internal/auth/service/service.go spend.
use accessgate.Base.{
  ℕ, String, ◌≡◌, Bool, true, false, not, ◌&&◌, Option, none, some, [], ◌∷◌, arith, eqb, ◌==◌,
  eq_refl, if◌then◌else◌,
}
use accessgate.Base.Int.{ℤ}
use accessgate.Base.Result.{ok}
use accessgate.Session.{Session}
use accessgate.Auth.Env.{
  History, session_got, lock_obtained, lock_released, tokens_refreshed, ProviderTokens, ◌>>=◌, pure,
  obtain_lock, refresh_tokens, set_session, release_lock,
}
use accessgate.Auth.Env.Keeps.{Keeps, keeps_rules, after-bind}
use accessgate.Auth.Service.{Service, Connector, Deps}
use accessgate.Auth.Refresh.Lock.{guarded, IsOutside, ensure_fresh-IsOutside}
use accessgate.Auth.Refresh.{
  require_session, refresh_due, expires_from, validate_id_token, rotate, renew, renew_if_due,
  with_lock, lock_if_due, ensure_fresh, refresh_locked,
}

-- The refresh token that was last read from the store since the lock was last obtained or
-- released; what was read before that may have been replaced by another process.
unfoldable pub token_read : ℕ → ℕ → String → History → Option String
token_read store l id [] = none
token_read store l id (session_got store' id' (ok (some s)) ∷ t) =
    if eqb store' store && id' == id then some s.refresh_token else token_read store l id t
token_read store l id (lock_obtained l' id' ttl r ∷ t) =
    if eqb l' l && id' == id then none else token_read store l id t
token_read store l id (lock_released l' id' r ∷ t) =
    if eqb l' l && id' == id then none else token_read store l id t
token_read store l id (_ ∷ t) = token_read store l id t

abbrev pub is_token : String → Option String → Bool
is_token r none = false
is_token r (some read) = r == read

-- Every refresh token that was spent is the one read since.
unfoldable pub spends_fresh : ℕ → ℕ → String → History → Bool
unfolding token_read
spends_fresh store l id [] = true
spends_fresh store l id (tokens_refreshed p r tokens ∷ t) =
    is_token r (token_read store l id t) && spends_fresh store l id t
spends_fresh store l id (_ ∷ t) = spends_fresh store l id t

module _ (d : Deps) (s : Service) (c : Connector) (id : String) where
  pub record IsFresh (t : History) : Type 0 where
    pub fresh : spends_fresh c.sessions c.refresh_lock id t ≡ true

  -- The token that the store holds was read since the lock was obtained.
  record IsRead (token : String) (t : History) : Type 0 where
    fresh : spends_fresh c.sessions c.refresh_lock id t ≡ true
    read : token_read c.sessions c.refresh_lock id t ≡ some token

  require_session-IsFresh : Keeps IsFresh (require_session d c id)
  unfolding spends_fresh require_session ◌>>=◌
  require_session-IsFresh = record { at = λ t h. ground arith }

  refresh_due-IsFresh : (sess : Session) → Keeps IsFresh (refresh_due d s sess)
  unfolding spends_fresh refresh_due ◌>>=◌
  refresh_due-IsFresh sess = record { at = λ t h. ground arith }

  obtain-IsFresh : (ttl : ℤ) → Keeps IsFresh (obtain_lock d.env c.refresh_lock id ttl)
  unfolding spends_fresh ◌>>=◌
  obtain-IsFresh ttl = record { at = λ t h. ground arith }

  release-IsFresh : Keeps IsFresh (release_lock d.env c.refresh_lock id)
  unfolding spends_fresh ◌>>=◌
  release-IsFresh = record { at = λ t h. ground arith }

  require_session-IsRead :
      (t : History) (sess : Session)
      → (require_session d c id t).0 ≡ ok sess
      → IsFresh t
      → IsRead sess.refresh_token (require_session d c id t).1
  unfolding spends_fresh require_session ◌>>=◌
  require_session-IsRead t sess e h = ground (arith, eq_refl id)

  refresh_due-IsRead :
      (token : String) (sess : Session) → Keeps (IsRead token) (refresh_due d s sess)
  unfolding spends_fresh refresh_due ◌>>=◌
  refresh_due-IsRead token sess = record { at = λ t h. ground arith }

  spend-IsRead : (token : String) → Keeps (IsRead token) (refresh_tokens d.env c.provider token)
  unfolding spends_fresh ◌>>=◌
  spend-IsRead token = record { at = λ t h. ground (arith, eq_refl token) }

  rotate-IsRead :
      (token : String) (sess : Session) (tokens : ProviderTokens)
      → Keeps (IsRead token) (rotate d c sess tokens)
  unfolding spends_fresh rotate expires_from validate_id_token ◌>>=◌
  rotate-IsRead token sess tokens = record { at = λ t h. ground arith }

  store-IsRead :
      (token : String) (sess : Session) (ttl : ℤ)
      → Keeps (IsRead token) (set_session d.env c.sessions id sess ttl)
  unfolding spends_fresh ◌>>=◌
  store-IsRead token sess ttl = record { at = λ t h. ground arith }

  renew-IsRead : (sess : Session) → Keeps (IsRead sess.refresh_token) (renew d c id sess)
  unfolding renew
  renew-IsRead sess = search (keeps_rules, spend-IsRead, rotate-IsRead, store-IsRead)

  continue-IsRead :
      (sess : Session)
      → Keeps {A = Session × Bool} (IsRead sess.refresh_token) (
          refresh_due d s sess >>= λ due.
          if not due
          then pure (sess, false)
          else (renew d c id sess >>= λ renewed. pure (renewed, true)))
  continue-IsRead sess = search (keeps_rules, refresh_due-IsRead, renew-IsRead)

  renew_if_due-IsFresh : Keeps IsFresh (renew_if_due d s c id)
  unfolding renew_if_due
  renew_if_due-IsFresh = record {
    at = λ t h.
        after-bind IsFresh (require_session d c id) _ t
          (λ sess e. record {
            fresh =
                ((continue-IsRead sess).at (require_session d c id t).1
                  (require_session-IsRead t sess e h)).fresh;
          })
          (λ e _. require_session-IsFresh.at t h);
  }

  with_lock-IsFresh : (got : Bool) → Keeps IsFresh (with_lock d s c id got)
  unfolding with_lock
  with_lock-IsFresh true = search (keeps_rules, renew_if_due-IsFresh, release-IsFresh)
  with_lock-IsFresh false = search (keeps_rules, require_session-IsFresh)

  lock_if_due-IsFresh :
      (sess : Session) (due : Bool) → Keeps IsFresh (lock_if_due d s c id sess due)
  unfolding lock_if_due
  lock_if_due-IsFresh sess false = search keeps_rules
  lock_if_due-IsFresh sess true = search (keeps_rules, obtain-IsFresh, with_lock-IsFresh)

  ensure_fresh-Keeps : Keeps IsFresh (ensure_fresh d s c id)
  unfolding ensure_fresh
  ensure_fresh-Keeps =
      search (keeps_rules, require_session-IsFresh, refresh_due-IsFresh, lock_if_due-IsFresh)

  -- Whatever the environment answers, every refresh token that ensureFresh spends is the one that
  -- it read from the store after the last Obtain and Release of the session's lock, and it is spent
  -- between an Obtain that granted the lock and the next Release, so what was read last was read
  -- under the lock; this if the calls before spent theirs so and called Release.
  pub ensure_fresh-IsFresh :
      (t : History)
      → IsFresh t
      → IsOutside d s c id t
      → IsFresh (ensure_fresh d s c id t).1
        × (guarded c.refresh_lock id (ensure_fresh d s c id t).1 ≡ true)
  ensure_fresh-IsFresh t h o =
      (ensure_fresh-Keeps.at t h, (ensure_fresh-IsOutside d s c id t o).guards)

  -- Refresh does not read the session again: once it is granted the lock, it spends a token that
  -- was read before, whatever the environment answers and whatever the calls before.
  pub refresh_locked-stale :
      (sess : Session) (ttl : ℤ) (t : History)
      → spends_fresh c.sessions c.refresh_lock id
          (refresh_locked d s c id sess true (lock_obtained c.refresh_lock id ttl (ok true) ∷ t)).1
        ≡ false
  unfolding spends_fresh refresh_locked renew rotate expires_from validate_id_token ◌>>=◌
  refresh_locked-stale sess ttl t = ground (arith, eq_refl id)
