-- ===== src/Command/Service/Post.antt =====
-- What holds after a part of a `try` has returned or raised, with a rule for each way to build one
-- (app/services/provider_budget_commands.py).
use client_dash_up.Base.{[], ◌∷◌, ◌++◌, ◌≡◌, refl}
use client_dash_up.Base.Outcome.{ok, err}
use client_dash_up.Command.Types.{Fallible, Failure, BudgetChangeRequest}
use client_dash_up.Command.Provider.{
  Env, Exec, Locals, lift, inspect, call, send, assign, continue, ◌>>=◌,
}

abbrev PostAt :
    {S A : Type 0} → (A → Env S → Type 0) → (Failure → Env S → Type 0) → Fallible A × Env S → Type 0
PostAt Q E (ok a, e) = Q a e
PostAt Q E (err x, e) = E x e

-- `Q` of the value and the state when it returned, `E` of the failure and the state when it raised.
pub record Post {S A : Type 0} (Q : A → Env S → Type 0) (E : Failure → Env S → Type 0)
    (r : Fallible A × Env S) : Type 0 where
  pub at : PostAt Q E r

module _ {S A : Type 0} {Q : A → Env S → Type 0} {E : Failure → Env S → Type 0} where
  pub Post-ok : (a : A) (e : Env S) → Q a e → Post Q E (ok a, e)
  Post-ok a e h = record { at = h }

  -- A pure check at the end.
  pub Post-lift :
      (r : Fallible A) (e : Env S)
      → ((x : Failure) → r ≡ err x → E x e)
      → ((a : A) → r ≡ ok a → Q a e)
      → Post Q E (lift r e)
  Post-lift (ok a) e h k = record { at = k a refl }
  Post-lift (err x) e h k = record { at = h x refl }

  pub Post-inspect :
      (f : Locals → Fallible A) (e : Env S)
      → Post Q E (lift (f e.locals) e)
      → Post Q E (inspect f e)
  unfolding inspect
  Post-inspect f e h = h

  -- What is known of a result may be weakened.
  pub Post-weaken :
      {R : A → Env S → Type 0} {F : Failure → Env S → Type 0} (r : Fallible A × Env S)
      → Post Q E r
      → ((a : A) (e : Env S) → Q a e → R a e)
      → ((x : Failure) (e : Env S) → E x e → F x e)
      → Post R F r
  Post-weaken (ok a, e) h k l = record { at = k a e h.at }
  Post-weaken (err x, e) h k l = record { at = l x e h.at }

module _ {S A B : Type 0} {E : Failure → Env S → Type 0} {R : B → Env S → Type 0} where
  Post-continue :
      {Q : A → Env S → Type 0} (f : A → Exec S B) (r : Fallible A × Env S)
      → Post Q E r
      → ((a : A) (e : Env S) → Q a e → Post R E (f a e))
      → Post R E (continue r.0 f r.1)
  Post-continue f (ok a, e) h k = k a e h.at
  Post-continue f (err x, e) h k = record { at = h.at }

  pub Post-bind :
      {Q : A → Env S → Type 0} (m : Exec S A) (f : A → Exec S B) (e : Env S)
      → Post Q E (m e)
      → ((a : A) (e' : Env S) → Q a e' → Post R E (f a e'))
      → Post R E ((m >>= f) e)
  unfolding ◌>>=◌
  Post-bind m f e h k = Post-continue f (m e) h k

  -- A pure check: the rest may use that it passed.
  pub Post-lift-bind :
      (r : Fallible A) (f : A → Exec S B) (e : Env S)
      → ((x : Failure) → r ≡ err x → E x e)
      → ((a : A) → r ≡ ok a → Post R E (f a e))
      → Post R E ((lift r >>= f) e)
  unfolding ◌>>=◌
  Post-lift-bind (ok a) f e h k = k a refl
  Post-lift-bind (err x) f e h k = record { at = h x refl }

  pub Post-inspect-bind :
      (g : Locals → Fallible A) (f : A → Exec S B) (e : Env S)
      → ((x : Failure) → g e.locals ≡ err x → E x e)
      → ((a : A) → g e.locals ≡ ok a → Post R E (f a e))
      → Post R E ((inspect g >>= f) e)
  unfolding inspect ◌>>=◌
  Post-inspect-bind g f e h k = Post-lift-bind (g e.locals) f e h k

  -- A callback or a read: only the provider's state may change.
  pub Post-call-bind :
      (g : S → Fallible A × S) (f : A → Exec S B) (e : Env S)
      → ((x : Failure) (p : S) → g e.provider ≡ (err x, p) → E x (record e { provider = p }))
      → ((a : A) (p : S) → g e.provider ≡ (ok a, p) → Post R E (f a (record e { provider = p })))
      → Post R E ((call g >>= f) e)
  unfolding ◌>>=◌ call
  Post-call-bind g f e h k = go (g e.provider) refl
    where
      go :
          (r : Fallible A × S)
          → g e.provider ≡ r
          → Post R E (continue r.0 f (record e { provider = r.1 }))
      go (ok a, p) same = k a p same
      go (err x, p) same = record { at = h x p same }

  -- A write: the request stands in the log, whether it returned or raised.
  pub Post-send-bind :
      (q : BudgetChangeRequest) (g : S → Fallible A × S) (f : A → Exec S B) (e : Env S)
      → ((x : Failure) (p : S)
          → g e.provider ≡ (err x, p)
          → E x (record e { provider = p; writes = e.writes ++ q ∷ [] }))
      → ((a : A) (p : S)
          → g e.provider ≡ (ok a, p)
          → Post R E (f a (record e { provider = p; writes = e.writes ++ q ∷ [] })))
      → Post R E ((send q g >>= f) e)
  unfolding ◌>>=◌ send
  Post-send-bind q g f e h k = go (g e.provider) refl
    where
      go :
          (r : Fallible A × S)
          → g e.provider ≡ r
          → Post R E (continue r.0 f (record e { provider = r.1; writes = e.writes ++ q ∷ [] }))
      go (ok a, p) same = k a p same
      go (err x, p) same = record { at = h x p same }

module _ {S B : Type 0} {E : Failure → Env S → Type 0} {R : B → Env S → Type 0} where
  pub Post-assign-bind :
      (g : Locals → Locals) (f : Unit → Exec S B) (e : Env S)
      → Post R E (f tt (record e { locals = g e.locals }))
      → Post R E ((assign g >>= f) e)
  unfolding ◌>>=◌ assign
  Post-assign-bind g f e h = h

module _ {S : Type 0} {E : Failure → Env S → Type 0} {R : Unit → Env S → Type 0} where
  pub Post-assign :
      (g : Locals → Locals) (e : Env S)
      → R tt (record e { locals = g e.locals })
      → Post R E (assign g e)
  unfolding assign
  Post-assign g e h = record { at = h }

  pub Post-call :
      (g : S → Fallible Unit × S) (e : Env S)
      → ((x : Failure) (p : S) → E x (record e { provider = p }))
      → ((p : S) → R tt (record e { provider = p }))
      → Post R E (call g e)
  unfolding call
  Post-call g e h k = go (g e.provider)
    where
      go : (r : Fallible Unit × S) → Post R E (r.0, record e { provider = r.1 })
      go (ok _, p) = record { at = k p }
      go (err x, p) = record { at = h x p }
