-- ===== src/World/Post.antt =====
-- What an action guarantees of its outcome: one property if it returns, another if it raises.
use agentic_ai.Base.{inl, inr, Option-cases, ◌≡◌, refl}
use agentic_ai.Domain.Errors.{Result, ok, err}
use agentic_ai.Store.{Tables}
use agentic_ai.World.{flush, Env, World, Action, rows, lift, query, continue, ◌>>=◌}

abbrev pub Outcome :
    {A : Type 0} → (A → World → Type 0) → (World → Type 0) → Result A × World → Type 0
Outcome Q E (ok a, w) = Q a w
Outcome Q E (err e, w) = E w

pub record Ensures {A : Type 0} (Q : A → World → Type 0) (E : World → Type 0) (o : Result A × World)
    : Type 0 where
  pub holds : Outcome Q E o

module _ {A B : Type 0} {Q : A → World → Type 0} {R : B → World → Type 0} {E : World → Type 0} where
  continue-Ensures :
      (f : A → Action B) (env : Env) (r : Result A) (w : World)
      → Ensures Q E (r, w)
      → ((a : A) (w' : World) → Q a w' → Ensures R E (f a env w'))
      → Ensures R E (continue r f env w)
  continue-Ensures f env (ok a) w h k = k a w h.holds
  continue-Ensures f env (err e) w h k = record { holds = h.holds }

  -- The rule for a `do` block: the first action's guarantee is the assumption of the rest.
  pub bind-Ensures :
      (m : Action A) (f : A → Action B) (env : Env) (w : World)
      → Ensures Q E (m env w)
      → ((a : A) (w' : World) → Q a w' → Ensures R E (f a env w'))
      → Ensures R E ((m >>= f) env w)
  unfolding ◌>>=◌
  bind-Ensures m f env w h k = let (r, w') = m env w in continue-Ensures f env r w' h k

module _ {A : Type 0} {Q R : A → World → Type 0} {E F : World → Type 0} where
  pub Ensures-impl :
      (o : Result A × World)
      → Ensures Q E o
      → ((a : A) (w : World) → Q a w → R a w)
      → ((w : World) → E w → F w)
      → Ensures R F o
  Ensures-impl (ok a, w) h f g = record { holds = f a w h.holds }
  Ensures-impl (err e, w) h f g = record { holds = g w h.holds }

module _ {A : Type 0} {E : World → Type 0} where
  pub lift-Ensures :
      (r : Result A) (env : Env) (w : World)
      → E w
      → Ensures (λ a w'. (r ≡ ok a) × (w' ≡ w)) E (lift r env w)
  unfolding lift
  lift-Ensures (ok a) env w h = record { holds = (refl, refl) }
  lift-Ensures (err e) env w h = record { holds = h }

  -- The outcome of a look at the session: nothing changes.
  pub query-Ensures :
      (f : Env → Tables → A) (env : Env) (w : World)
      → Ensures (λ a w'. (a ≡ f env (rows w)) × (w' ≡ w)) E (query f env w)
  unfolding query
  query-Ensures f env w = record { holds = (refl, refl) }

-- A flush that is not refused makes its change, and commits nothing.
pub flush-Ensures :
    {E : World → Type 0} (change : Tables → Tables) (env : Env) (w : World)
    → ((w' : World) → w'.stored ≡ w.stored → E w')
    → Ensures (λ _ w'. (rows w' ≡ change (rows w)) × (w'.stored ≡ w.stored)) E (flush change env w)
unfolding flush
flush-Ensures change env w h = elim (Option-cases (env.refuses (change (rows w)))) [
  | inl e ↦ rw e (record { holds = (refl, refl) })
  | inr (text, e) ↦ rw e (record { holds = h (record w { pending = λ t. t }) refl })
]
