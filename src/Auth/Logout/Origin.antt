-- ===== src/Auth/Logout/Origin.antt =====
-- What Logout of internal/auth/service/service.go admits, and what it then ends.
use accessgate.Base.{
  ℕ, String, ◌==◌, eq_iff, eq_refl, ◌≡◌, ◌≢◌, refl, sym, Bool, true, false, ◌&&◌, ◌||◌, some, [],
  ◌∷◌, any, arith, eqb, List, All,
}
use Prim.Native.String.{◌++◌}
use text.Mathlib.TextLemmas.{append-nil}
use accessgate.Base.Text.{trim_slash, has_prefix, has_prefix_iff}
use accessgate.Base.Result.{ok, err}
use accessgate.Session.{Session}
use accessgate.Auth.Env.{History, logout_completed, session_deleted, ◌>>=◌}
use accessgate.Auth.Service.{Service, Connector, Deps, conn}
use accessgate.Auth.Logout.{
  LogoutRequest, origin_admitted, cookie_id, drop_found, drop_session, origin_matches, logout,
}

-- The deletion of the session was called for, with or without success.
unfoldable pub has_deleted : ℕ → String → History → Bool
has_deleted store id [] = false
has_deleted store id (session_deleted store' id' r ∷ t) =
    (eqb store' store && id' == id) || has_deleted store id t
has_deleted store id (_ ∷ t) = has_deleted store id t

has_prefix_whole : (p : String) → has_prefix p p ≡ true
has_prefix_whole p = (has_prefix_iff p p).1 ("", sym (append-nil p))

module _ (s : Service) (req : LogoutRequest) where
  unnamed-IsAdmitted : req.origin ≡ "" → origin_admitted s req ≡ true
  unfolding origin_admitted
  unnamed-IsAdmitted o = ground (arith, eq_iff req.origin "")

  abbrev home : String
  home = trim_slash s.cfg.app_base_url

  -- An allowed origin that is neither the request's Origin nor its Referer, while the Referer is no
  -- page of the base URL.
  pub record IsOther (allowed : String) : Type 0 where
    pub origin : req.origin ≢ allowed
    pub referer : req.referer ≢ allowed
    pub page : has_prefix req.referer (home ++ "/") ≡ false

  -- The request names an origin, which is not the base URL's and none of the allowed ones; and
  -- where some are allowed, its Referer is no better.
  pub record IsForeign : Type 0 where
    pub named : req.origin ≢ ""
    pub away : req.origin ≢ home
    pub others : All IsOther s.cfg.allowed_redirect_origins

  IsOther-unmatched : (o : String) → IsOther o → origin_matches req (home ++ "/") o ≡ false
  unfolding origin_matches
  IsOther-unmatched o h = ground (
    arith,
    eq_iff req.origin o,
    eq_iff req.referer o,
    eq_iff req.referer (home ++ "/"),
    has_prefix_whole (home ++ "/"),
  )

  others-unmatched :
      (origins : List String)
      → All IsOther origins
      → any (origin_matches req (home ++ "/")) origins ≡ false
  others-unmatched [] h = refl
  others-unmatched (o ∷ origins) h =
      ground (arith, IsOther-unmatched o h.0, others-unmatched origins h.1)

  foreign-IsRefused : IsForeign → origin_admitted s req ≡ false
  unfolding origin_admitted
  foreign-IsRefused f = ground (
    arith,
    others-unmatched s.cfg.allowed_redirect_origins f.others,
    f.named,
    f.away,
    eq_iff req.origin "",
    eq_iff req.origin home,
  )

module _ (d : Deps) (s : Service) (c : Connector) (req : LogoutRequest) (t : History) where
  -- A logout on a known connector whose request names no origin is not refused as forged, whatever
  -- page its Referer names.
  pub logout-admits_referer :
      conn s req.connector ≡ ok c
      → req.origin ≡ ""
      → (logout d s req t).0 ≢ err "csrf: origin not allowed"
  unfolding logout drop_session drop_found ◌>>=◌
  logout-admits_referer e o = rw (e, unnamed-IsAdmitted s req o) (ground arith)

  -- A logout on a known connector is refused when its Origin is neither empty nor the base URL's
  -- nor an allowed one and, where origins are allowed, its Referer is neither one of them nor a page
  -- of the base URL; then nothing is called but the metric.
  pub logout-refuses :
      conn s req.connector ≡ ok c
      → IsForeign s req
      → logout d s req t ≡ (err "csrf: origin not allowed", logout_completed ∷ t)
  unfolding logout ◌>>=◌
  logout-refuses e f = rw (e, foreign-IsRefused s req f) refl

  -- An admitted logout whose cookie names a session that the connector's store answers with calls
  -- for its deletion, whatever the environment answers to that call and to what follows.
  pub logout-deletes :
      (id : String) (sess : Session)
      → conn s req.connector ≡ ok c
      → origin_admitted s req ≡ true
      → req.session_cookie ≢ ""
      → d.cookie.decode req.session_cookie ≡ ok id
      → id ≢ ""
      → d.env.session_get t c.sessions id ≡ ok (some sess)
      → has_deleted c.sessions id (logout d s req t).1 ≡ true
  unfolding has_deleted logout cookie_id drop_session drop_found ◌>>=◌
  logout-deletes id sess e a n de ne g =
      rw (e, a) (ground (arith, eq_refl id, eq_iff id "", eq_iff req.session_cookie ""))
