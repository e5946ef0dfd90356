-- ===== src/Auth/Env/Keeps.antt =====
-- Invariants of the history through the flows of internal/auth/service/service.go: one rule for
-- each way to build an action.
use accessgate.Base.{String, ◌≡◌, refl, Bool, true, false, if◌then◌else◌, arith}
use accessgate.Base.Result.{Result, ok, err}
use accessgate.Auth.Env.{M, History, ◌>>=◌, pure, raise, lift, attempt, wrap_error, finally}

-- `m` keeps `P`, whether it returns or fails.
pub record Keeps {A : Type 0} (P : History → Type 0) (m : M A) : Type 0 where
  pub at : (t : History) → P t → P (m t).1

module _ {A : Type 0} {P : History → Type 0} where
  pub Keeps-pure : (a : A) → Keeps P (pure a)
  unfolding ◌>>=◌
  Keeps-pure a = record { at = λ t h. h }

  pub Keeps-raise : (e : String) → Keeps P (raise {A = A} e)
  unfolding ◌>>=◌
  Keeps-raise e = record { at = λ t h. h }

  pub Keeps-lift : (r : Result A) → Keeps P (lift r)
  unfolding ◌>>=◌
  Keeps-lift r = record { at = λ t h. h }

  pub Keeps-attempt : (m : M A) → Keeps P m → Keeps P (attempt m)
  unfolding ◌>>=◌
  Keeps-attempt m k = record { at = k.at }

  wrapped :
      (prefix : String) (r : Result A) (m : M A) (t : History)
      → (m t).0 ≡ r
      → Keeps P m
      → P t
      → P (wrap_error prefix m t).1
  unfolding ◌>>=◌
  wrapped prefix (ok a) m t e k h = rw (e, wrap_error) (k.at t h)
  wrapped prefix (err x) m t e k h = rw (e, wrap_error) (k.at t h)

  pub Keeps-wrap_error : (prefix : String) (m : M A) → Keeps P m → Keeps P (wrap_error prefix m)
  Keeps-wrap_error prefix m k = record { at = λ t h. wrapped prefix (m t).0 m t refl k h }

  pub Keeps-finally :
      (last : Result A → M (Unit {0})) (m : M A)
      → Keeps P m
      → ((r : Result A) → Keeps P (last r))
      → Keeps P (finally last m)
  unfolding ◌>>=◌
  Keeps-finally last m km kl = record { at = λ t h. (kl (m t).0).at (m t).1 (km.at t h) }

  -- Only the branch that is taken has to keep it.
  pub Keeps-if :
      (test : Bool) (taken other : M A)
      → (test ≡ false → Keeps P other)
      → (test ≡ true → Keeps P taken)
      → Keeps P (if test then taken else other)
  Keeps-if false taken other kept_no kept_yes = kept_no refl
  Keeps-if true taken other kept_no kept_yes = kept_yes refl

module _ {A B : Type 0} {P : History → Type 0} where
  continued :
      (r : Result A) (m : M A) (f : A → M B) (t : History)
      → (m t).0 ≡ r
      → Keeps P m
      → ((a : A) → Keeps P (f a))
      → P t
      → P ((m >>= f) t).1
  unfolding ◌>>=◌
  continued (ok a) m f t e km kf h = rw (e, ◌>>=◌) ((kf a).at (m t).1 (km.at t h))
  continued (err x) m f t e km kf h = rw (e, ◌>>=◌) (km.at t h)

  pub Keeps-bind :
      (m : M A) (f : A → M B) → Keeps P m → ((a : A) → Keeps P (f a)) → Keeps P (m >>= f)
  Keeps-bind m f km kf = record { at = λ t h. continued (m t).0 m f t refl km kf h }

-- What holds behind each outcome of the first action holds behind the two in a row.
module _ {A B : Type 0} (P : History → Type 0) where
  branch :
      (r : Result A) (m : M A) (f : A → M B) (t : History)
      → (m t).0 ≡ r
      → ((a : A) → (m t).0 ≡ ok a → P (f a (m t).1).1)
      → ((e : String) → (m t).0 ≡ err e → P (m t).1)
      → P ((m >>= f) t).1
  unfolding ◌>>=◌
  branch (ok a) m f t e good bad = rw (e, ◌>>=◌) (good a e)
  branch (err x) m f t e good bad = rw (e, ◌>>=◌) (bad x e)

  pub after-bind :
      (m : M A) (f : A → M B) (t : History)
      → ((a : A) → (m t).0 ≡ ok a → P (f a (m t).1).1)
      → ((e : String) → (m t).0 ≡ err e → P (m t).1)
      → P ((m >>= f) t).1
  after-bind m f t good bad = branch (m t).0 m f t refl good bad

module _ {A : Type 0} (prefix : String) (m : M A) (t : History) where
  pub history-wrap_error : (wrap_error prefix m t).1 ≡ (m t).1
  unfolding ◌>>=◌
  history-wrap_error = ground arith

  pub wrap_error-ok : (a : A) → (wrap_error prefix m t).0 ≡ ok a → (m t).0 ≡ ok a
  unfolding ◌>>=◌
  wrap_error-ok a h = ground arith

  pub wrap_error-err :
      (e : String) → (wrap_error prefix m t).0 ≡ err e → (x : String) × ((m t).0 ≡ err x)
  unfolding ◌>>=◌
  wrap_error-err e h = by_cases (m t).0 refl
    where
      by_cases : (r : Result A) → (m t).0 ≡ r → (x : String) × ((m t).0 ≡ err x)
      by_cases (ok a) eq = absurd (cc (rw (eq, wrap_error) at h))
      by_cases (err x) eq = (x, eq)

pub ruleset keeps_rules = (
  Keeps-pure, Keeps-raise, Keeps-lift, Keeps-attempt, Keeps-wrap_error, Keeps-finally, Keeps-if,
  Keeps-bind,
)
