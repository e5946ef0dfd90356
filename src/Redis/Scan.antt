-- ===== src/Redis/Scan.antt =====
-- The scans over the sessions: FindSessionBySubjectEmail and DeleteSessionsBySubjectEmail of
-- internal/redis/redis.go. The loop over the cursor takes fuel: the server decides when it is over.
use Prim.Native.String.{◌++◌}
use accessgate.Base.{
  ℕ, zero, suc, ◌/◌, String, ◌==◌, Bool, not, ◌&&◌, ◌||◌, Option, none, some, List, [], ◌∷◌, eqb,
  if◌then◌else◌,
}
use accessgate.Base.Text.{trim_space}
use accessgate.Base.Int.{pos}
use accessgate.Base.Result.{Result, ok, err}
use accessgate.Claims.{get_claim_string}
use accessgate.Handoff.{second}
use accessgate.Session.{Session, is_expired}
use accessgate.Session.Layout.{KeyLayout}
use accessgate.Redis.{Client, Json, World, Reply, found, nil, failed, delete_session}

-- What the loop over the keys of one page makes of one of them.
pub data Visit : Type 0 where
  broken : String → Visit
  skipped : Visit
  matched : Session → Visit

-- `lower` is strings.ToLower.
module _ {S : Type 0} (c : Client S) (json : Json) (k : KeyLayout) (lower : String → String) where
  -- The session is live and has the subject and the email.
  unfoldable pub is_match : ℕ → String → String → Session → Bool
  is_match now subject email sess =
      not (is_expired sess (pos (now / second)))
      && (trim_space (get_claim_string sess.claims "sub") == subject)
      && (trim_space (lower (get_claim_string sess.claims "email")) == email)

  unfoldable pub visit_session : ℕ → String → String → Result Session → Visit
  unfolding is_match
  visit_session now subject email (err e) = skipped
  visit_session now subject email (ok sess) =
      if is_match now subject email sess then matched sess else skipped

  unfoldable pub visit : ℕ → String → String → Reply → Visit
  unfolding visit_session
  visit now subject email nil = skipped
  visit now subject email (failed e) = broken e
  visit now subject email (found v) = visit_session now subject email (json.unmarshal_session v)

  unfoldable pub search_keys : ℕ → String → String → S → List String → Visit
  unfolding visit
  search_keys now subject email s [] = skipped
  search_keys now subject email s (key ∷ keys) =
      let rest = search_keys now subject email s keys in
      elim (visit now subject email (c.get s now key)) [
        | broken e ↦ broken e
        | matched sess ↦ matched sess
        | skipped ↦ rest
      ]

  -- `none` means that the fuel ran out.
  unfoldable pub search_pages : ℕ → ℕ → String → String → S → ℕ → Option (Result (Option Session))
  unfolding search_keys
  search_pages zero now subject email s cursor = none
  search_pages (suc fuel) now subject email s cursor =
      elim (c.scan s now cursor (k.session_prefix ++ "*")) [
        | err e ↦ some (err e)
        | ok (keys, next) ↦
            let rest = search_pages fuel now subject email s next in
            elim (search_keys now subject email s keys) [
              | broken e ↦ some (err e)
              | matched sess ↦ some (ok (some sess))
              | skipped ↦ if eqb next 0 then some (ok none) else rest
            ]
      ]

  unfoldable pub find_session : ℕ → ℕ → String → String → World S → Option (Result (Option Session))
  unfolding search_pages
  find_session fuel now subject email w =
      let sub = trim_space subject in
      let mail = trim_space (lower email) in
      if sub == "" || mail == "" then some (ok none) else search_pages fuel now sub mail w.server 0

  -- The keys of one page; the number of sessions that are deleted by then, and an error.
  unfoldable pub delete_keys :
      ℕ → String → String → List String → ℕ → World S → (Option String × ℕ) × World S
  unfolding visit delete_session
  delete_keys now subject email [] n w = ((none, n), w)
  delete_keys now subject email (key ∷ keys) n w =
      let skip = delete_keys now subject email keys n w in
      elim (visit now subject email (c.get w.server now key)) [
        | broken e ↦ ((some e, n), w)
        | skipped ↦ skip
        | matched sess ↦
            let (answer, w') = delete_session c json k now sess.id w in
            let rest = delete_keys now subject email keys (suc n) w' in
            elim answer [ some e ↦ ((some e, n), w') | none ↦ rest ]
      ]

  unfoldable pub delete_pages :
      ℕ → ℕ → String → String → ℕ → ℕ → World S → Option (Option String × ℕ) × World S
  unfolding delete_keys
  delete_pages zero now subject email cursor n w = (none, w)
  delete_pages (suc fuel) now subject email cursor n w =
      elim (c.scan w.server now cursor (k.session_prefix ++ "*")) [
        | err e ↦ (some (some e, n), w)
        | ok (keys, next) ↦
            let page = delete_keys now subject email keys n w in
            let rest = delete_pages fuel now subject email next (page.0).1 page.1 in
            elim (page.0).0 [
              | some e ↦ (some (some e, (page.0).1), page.1)
              | none ↦ if eqb next 0 then (some (none, (page.0).1), page.1) else rest
            ]
      ]

  unfoldable pub delete_sessions :
      ℕ → ℕ → String → String → World S → Option (Option String × ℕ) × World S
  unfolding delete_pages
  delete_sessions fuel now subject email w =
      let sub = trim_space subject in
      let mail = trim_space (lower email) in
      if sub == "" || mail == "" then (some (none, 0), w) else delete_pages fuel now sub mail 0 0 w
