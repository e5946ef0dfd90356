-- ===== src/Proxy/Engine/Closed.antt =====
-- The engine of internal/authz/engine.go fails closed.
use accessgate.Base.{
  String, refl, ap, ◌∙◌, Bool-cases, ◌≡◌, ◌≢◌, ◌⊎◌, inl, inr, true, false, Option, none, some,
  arith, List, [], ◌∷◌,
}
use accessgate.Base.Result.{Result, ok, err}
use accessgate.Token.{Principal}
use accessgate.Proxy.Request.{Request}
use accessgate.Proxy.Engine.{
  Engine, Plugin, Decision, decided, plugin_decision, input_of, handle, authorize, evaluate,
  unauthenticated, respond, response_of,
}

module _ (escape_json : String → String) (e : Engine) (req : Request) where
  -- A decision for this caller: of the first plugin that decides, each one before it having
  -- answered without an error that it decides nothing; or else of the policy, once every plugin has
  -- answered so. A nil plugin is passed over.
  abbrev pub Decides : List (Option Plugin) → Option Principal → Decision → Type 0
  Decides [] p d = e.policy (input_of req p) ≡ ok (some d)
  Decides (none ∷ more) p d = Decides more p d
  Decides (some plugin ∷ more) p d =
      (plugin req p ≡ ok (some d)) ⊎ ((plugin req p ≡ ok none) × Decides more p d)

  pub record IsAllowed (p : Option Principal) (d : Decision) : Type 0 where
    pub resolved : e.resolver req ≡ ok p
    pub known : e.require_auth ≡ true → p ≢ none
    pub decides : Decides e.pipeline_plugins p d
    pub allows : d.allow ≡ true

  decided-allow :
      (found : Option Decision)
      → (decided found).allow ≡ true
      → (d : Decision) × (found ≡ some d) × (d.allow ≡ true)
  decided-allow none h = absurd (cc)
  decided-allow (some d) h = (d, refl, h)

  -- What `plugin_decision` and then the policy decide, in terms of the single plugins.
  plugin_decision-Decides :
      (plugins : List (Option Plugin)) (p : Option Principal) (d : Decision)
      → plugin_decision plugins req p ≡ ok (some d)
      → Decides plugins p d
  unfolding plugin_decision
  plugin_decision-Decides [] p d h = absurd (cc)
  plugin_decision-Decides (none ∷ more) p d h = plugin_decision-Decides more p d h
  plugin_decision-Decides (some plugin ∷ more) p d h =
      ground (arith, plugin_decision-Decides more p d)

  undecided-Decides :
      (plugins : List (Option Plugin)) (p : Option Principal) (d : Decision)
      → plugin_decision plugins req p ≡ ok none
      → e.policy (input_of req p) ≡ ok (some d)
      → Decides plugins p d
  unfolding plugin_decision
  undecided-Decides [] p d h policy = policy
  undecided-Decides (none ∷ more) p d h policy = undecided-Decides more p d h policy
  undecided-Decides (some plugin ∷ more) p d h policy = ground (arith, undecided-Decides more p d)

  policy-Decides :
      (p : Option Principal) (r : Result (Option Decision))
      → plugin_decision e.pipeline_plugins req p ≡ ok none
      → e.policy (input_of req p) ≡ r
      → (evaluate escape_json e req p (ok none)).0.allow ≡ true
      → (d : Decision) × Decides e.pipeline_plugins p d × (d.allow ≡ true)
  unfolding evaluate respond response_of
  policy-Decides p (err x) a b h = absurd (cc (rw (b, evaluate) at h))
  policy-Decides p (ok found) a b h =
      let (d, same, allows) = decided-allow found (rw (b, evaluate) at h) in
      (d, undecided-Decides e.pipeline_plugins p d a (b ∙ ap ok same), allows)

  evaluate-Decides :
      (p : Option Principal) (r : Result (Option Decision))
      → plugin_decision e.pipeline_plugins req p ≡ r
      → (evaluate escape_json e req p r).0.allow ≡ true
      → (d : Decision) × Decides e.pipeline_plugins p d × (d.allow ≡ true)
  unfolding evaluate respond response_of
  evaluate-Decides p (err x) a h = absurd (cc)
  evaluate-Decides p (ok (some d)) a h = (d, plugin_decision-Decides e.pipeline_plugins p d a, h)
  evaluate-Decides p (ok none) a h = policy-Decides p _ a refl h

  unauthenticated-denies : (unauthenticated escape_json e).0.allow ≡ false
  unfolding unauthenticated
  unauthenticated-denies = ground arith

  authorize-IsAllowed :
      (p : Option Principal)
      → e.resolver req ≡ ok p
      → (authorize escape_json e req p).0.allow ≡ true
      → (d : Decision) × IsAllowed p d
  unfolding authorize evaluate respond response_of
  authorize-IsAllowed (some p) r h =
      let (d, decides, allows) = evaluate-Decides (some p) _ refl h in
      (d, record { resolved = r; known = λ _ q. cc; decides = decides; allows = allows })
  authorize-IsAllowed none r h = elim (Bool-cases e.require_auth) [
    | inl must ↦ absurd (cc (unauthenticated-denies, h, must))
    | inr free ↦
        let (d, decides, allows) = evaluate-Decides none _ refl (rw (free, authorize) at h) in
        (d, record { resolved = r; known = λ must q. cc; decides = decides; allows = allows })
  ]

  handle-from :
      (r : Result (Option Principal))
      → e.resolver req ≡ r
      → (handle escape_json e req).0.allow ≡ true
      → (p : Option Principal) × (d : Decision) × IsAllowed p d
  unfolding handle
  handle-from (err x) a h = absurd (cc (rw (a, handle) at h))
  handle-from (ok p) a h =
      let (d, allowed) = authorize-IsAllowed p a (rw (a, handle) at h) in (p, d, allowed)

  -- The engine allows a request only if the caller was resolved, a principal was found where one
  -- is required, and the first plugin that decides allows it for this caller, where every plugin
  -- before it answered without an error, or, where none decides, every plugin answered without an
  -- error and the policy allows it. So each failure on the way (of the resolver, of a plugin that
  -- is asked, of the policy, or no decision) denies.
  pub handle-IsAllowed :
      (handle escape_json e req).0.allow ≡ true
      → (p : Option Principal) × (d : Decision) × IsAllowed p d
  handle-IsAllowed h = handle-from _ refl h
