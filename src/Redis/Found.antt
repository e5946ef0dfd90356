-- ===== src/Redis/Found.antt =====
-- What the scans of internal/redis/redis.go find and delete.
use Prim.Native.String.{◌++◌}
use accessgate.Base.{
  Option-cases, ◌∙◌, ◌⊎◌, ℕ, zero, suc, String, ◌==◌, ◌≡◌, ◌≢◌, refl, sym, ap, true, false, Option,
  some, List, [], ◌∷◌, arith, eqb, Bool-cases, inl, inr, eq_iff, ◌/◌, false,
}
use accessgate.Base.Text.{trim_space}
use accessgate.Base.Result.{Result, ok, err}
use accessgate.Claims.{get_claim_string}
use accessgate.Handoff.{second}
use accessgate.Base.Int.{pos, ltb_ℤ}
use accessgate.Session.{Session, is_expired}
use accessgate.Session.Layout.{KeyLayout}
use accessgate.Session.Apart.{Purpose, for_session, key_of}
use accessgate.Auth.Service.{ConnectorConfig}
use accessgate.Redis.{Client, Json, World, Reply, found, nil, failed, delete_session}
use accessgate.Redis.Laws.{ClientLaws, deletes_session, apply}
use accessgate.Redis.Keeps.{apply_apart, keys_differ, layout, holds}
use accessgate.Redis.Scan.{
  Visit, broken, skipped, matched, is_match, visit_session, visit, search_keys, search_pages,
  find_session, delete_keys, delete_pages, delete_sessions,
}

Result-cases : {A : Type 0} (r : Result A) → ((e : String) × (r ≡ err e)) ⊎ ((a : A) × (r ≡ ok a))
Result-cases (ok a) = inr (a, refl)
Result-cases (err e) = inl (e, refl)

Visit-cases :
    (v : Visit)
    → ((e : String) × (v ≡ broken e)) ⊎ (v ≡ skipped) ⊎ ((sess : Session) × (v ≡ matched sess))
Visit-cases (broken e) = inl (e, refl)
Visit-cases skipped = inr (inl refl)
Visit-cases (matched sess) = inr (inr (sess, refl))

module _ {S : Type 0} (c : Client S) (json : Json) (k : KeyLayout) (lower : String → String) where
  visited_match :
      (now : ℕ) (subject email : String) (r : Reply) (sess : Session)
      → visit c json k lower now subject email r ≡ matched sess
      → is_match c json k lower now subject email sess ≡ true
  unfolding visit visit_session
  visited_match now subject email nil sess h = absurd (cc)
  visited_match now subject email (failed e) sess h = absurd (cc)
  visited_match now subject email (found v) sess h = ground arith

  searched_match :
      (now : ℕ) (subject email : String) (s : S) (keys : List String) (sess : Session)
      → search_keys c json k lower now subject email s keys ≡ matched sess
      → is_match c json k lower now subject email sess ≡ true
  unfolding search_keys
  searched_match now subject email s [] sess h = absurd (cc)
  searched_match now subject email s (key ∷ keys) sess h = ground (
    arith,
    searched_match now subject email s keys sess,
    visited_match now subject email (c.get s now key) sess,
  )

  paged_match :
      (fuel now : ℕ) (subject email : String) (s : S) (cursor : ℕ) (sess : Session)
      → search_pages c json k lower fuel now subject email s cursor ≡ some (ok (some sess))
      → is_match c json k lower now subject email sess ≡ true
  unfolding search_pages
  paged_match zero now subject email s cursor sess h = absurd (cc)
  paged_match (suc fuel) now subject email s cursor sess h =
      elim (Result-cases (c.scan s now cursor (k.session_prefix ++ "*"))) [
        | inl (e, failure) ↦ absurd (cc (rw (failure, search_pages) at h))
        | inr ((keys, next), page) ↦
            let h' = rw (page, search_pages) at h in
            ground (
              arith,
              h',
              searched_match now subject email s keys sess,
              paged_match fuel now subject email s next sess,
            )
      ]

  -- The session's access token expires after `now`, and its claims name the subject, blanks at the
  -- ends apart, and the email, the case apart too; neither is blank.
  pub record IsLiveMatch (now : ℕ) (subject email : String) (sess : Session) : Type 0 where
    pub live : ltb_ℤ (pos (now / second)) sess.expires_at ≡ true
    pub named : trim_space (get_claim_string sess.claims "sub") ≡ trim_space subject
    pub mailed :
        trim_space (lower (get_claim_string sess.claims "email")) ≡ trim_space (lower email)
    pub some_subject : trim_space subject ≢ ""
    pub some_email : trim_space (lower email) ≢ ""

  asked-IsLiveMatch :
      (now : ℕ) (subject email : String) (sess : Session)
      → (is_match c json k lower now (trim_space subject) (trim_space (lower email)) sess ≡ true)
        × ((trim_space subject == "") ≡ false)
        × ((trim_space (lower email) == "") ≡ false)
      → IsLiveMatch now subject email sess
  unfolding is_match is_expired
  asked-IsLiveMatch now subject email sess h = ground (
    arith,
    eq_iff (trim_space (get_claim_string sess.claims "sub")) (trim_space subject),
    eq_iff (trim_space (lower (get_claim_string sess.claims "email"))) (trim_space (lower email)),
    eq_iff (trim_space subject) "",
    eq_iff (trim_space (lower email)) "",
  )

  -- A session that FindSessionBySubjectEmail returns has not expired, and its claims name the
  -- subject and the email that were asked for, neither of which is empty.
  pub find_session-IsMatch :
      (fuel now : ℕ) (subject email : String) (w : World S) (sess : Session)
      → find_session c json k lower fuel now subject email w ≡ some (ok (some sess))
      → IsLiveMatch now subject email sess
  unfolding find_session
  find_session-IsMatch fuel now subject email w sess h = asked-IsLiveMatch now subject email sess (
      ground (
        arith,
        paged_match fuel now (trim_space subject) (trim_space (lower email)) w.server 0 sess,
      ))

module _ {S : Type 0} (c : Client S) (json : Json) (laws : ClientLaws c) (conn : ConnectorConfig)
    (lower : String → String) where
  deleted_apart :
      (now later : ℕ) (id : String) (spot : Purpose × String) (w : World S)
      → spot.0 ≢ for_session
      → holds c json laws conn
          (delete_session c json (layout c json laws conn) now id w).1
          later
          (key_of (layout c json laws conn) spot.0 spot.1)
        ≡ holds c json laws conn w later (key_of (layout c json laws conn) spot.0 spot.1)
  unfolding apply
  deleted_apart now later id spot w other =
      apply_apart c json laws conn now later (deletes_session id) _ w
        (keys_differ c json laws conn (for_session, id) spot (λ e. other (sym (ap (λ u. u.0) e))))

  abbrev lay : KeyLayout
  lay = layout c json laws conn

  -- The value at a key that is not a session's.
  abbrev at_spot : World S → ℕ → Purpose × String → Option String
  at_spot w later spot = holds c json laws conn w later (key_of lay spot.0 spot.1)

  delete_keys-apart :
      (now later : ℕ) (subject email : String) (keys : List String) (n : ℕ)
      (spot : Purpose × String) (w : World S)
      → spot.0 ≢ for_session
      → at_spot (delete_keys c json lay lower now subject email keys n w).1 later spot
        ≡ at_spot w later spot
  unfolding delete_keys
  delete_keys-apart now later subject email [] n spot w other = refl
  delete_keys-apart now later subject email (key ∷ keys) n spot w other =
      elim (Visit-cases (visit c json lay lower now subject email (c.get w.server now key))) [
        | inl (e, broke) ↦ rw (broke, delete_keys) refl
        | inr (inl skip) ↦
            rw (skip, delete_keys) (delete_keys-apart now later subject email keys n spot w other)
        | inr (inr (sess, match)) ↦
            let deleted = delete_session c json lay now sess.id w in
            let kept = deleted_apart now later sess.id spot w other in
            rw (match, delete_keys)
              (elim (Option-cases deleted.0) [
                | inl fine ↦ rw fine (
                    delete_keys-apart now later subject email keys (suc n) spot deleted.1 other
                    ∙ kept)
                | inr (e, failure) ↦ rw failure kept
              ])
      ]

  delete_pages-apart :
      (fuel now later : ℕ) (subject email : String) (cursor n : ℕ) (spot : Purpose × String)
      (w : World S)
      → spot.0 ≢ for_session
      → at_spot (delete_pages c json lay lower fuel now subject email cursor n w).1 later spot
        ≡ at_spot w later spot
  unfolding delete_pages
  delete_pages-apart zero now later subject email cursor n spot w other = refl
  delete_pages-apart (suc fuel) now later subject email cursor n spot w other =
      elim (Result-cases (c.scan w.server now cursor (lay.session_prefix ++ "*"))) [
        | inl (e, failure) ↦ rw (failure, delete_pages) refl
        | inr ((keys, next), scanned) ↦
            let page = delete_keys c json lay lower now subject email keys n w in
            let kept = delete_keys-apart now later subject email keys n spot w other in
            let more =
              delete_pages-apart fuel now later subject email next (page.0).1 spot page.1 other
              ∙ kept in
            rw (scanned, delete_pages)
              (elim (Option-cases (page.0).0) [
                | inr (e, failure) ↦ rw failure kept
                | inl fine ↦ rw fine (elim (Bool-cases (eqb next 0)) [
                  | inl last ↦ rw last kept
                  | inr on ↦ rw on more
                ])
              ])
      ]

  -- DeleteSessionsBySubjectEmail changes no key of the connector but those of its sessions: PKCE
  -- states, refresh locks, revocations and replay records stand as before, also when it fails or
  -- when the loop is cut off.
  pub delete_sessions-apart :
      (fuel now later : ℕ) (subject email : String) (spot : Purpose × String) (w : World S)
      → spot.0 ≢ for_session
      → at_spot (delete_sessions c json lay lower fuel now subject email w).1 later spot
        ≡ at_spot w later spot
  unfolding delete_sessions
  delete_sessions-apart fuel now later subject email spot w other = ground (
    arith,
    delete_pages-apart fuel now later (trim_space subject) (trim_space (lower email)) 0 0 spot w
        other,
  )
