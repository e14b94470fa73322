-- ===== src/World/Stays.antt =====
-- Actions that commit nothing: what is committed after them is what was committed before.
use agentic_ai.Base.{String, ◌≡◌, refl, ◌∙◌, Bool, true, false, arith, if◌then◌else◌}
use agentic_ai.Domain.Errors.{Error, Result, ok, err}
use agentic_ai.Store.{Tables}
use agentic_ai.World.{
  Env, Settings, World, Action, pure, raise, lift, query, continue, ◌>>=◌, now, uuid4, flush,
  assign, record_credit_created, record_approval_created, record_approval_completed,
}

pub record Stays (env : Env) {A : Type 0} (m : Action A) : Type 0 where
  pub at : (w : World) → (m env w).1.stored ≡ w.stored

module _ (env : Env) {A B : Type 0} where
  continue-Stays :
      (f : A → Action B) (r : Result A) (w : World)
      → ((a : A) → Stays env (f a))
      → (continue r f env w).1.stored ≡ w.stored
  continue-Stays f (ok a) w h = (h a).at w
  continue-Stays f (err e) w h = refl

  pub Stays-bind :
      (m : Action A) (f : A → Action B)
      → Stays env m
      → ((a : A) → Stays env (f a))
      → Stays env (m >>= f)
  unfolding ◌>>=◌
  Stays-bind m f hm hf = record {
    at = λ w. let (r, w') = m env w in continue-Stays f r w' hf ∙ hm.at w;
  }

module _ (env : Env) {A : Type 0} where
  pub Stays-pure : (a : A) → Stays env (pure a)
  unfolding pure
  Stays-pure a = record { at = λ w. refl }

  pub Stays-raise : (e : Error) → Stays env (raise {A = A} e)
  unfolding raise
  Stays-raise e = record { at = λ w. refl }

  pub Stays-lift : (r : Result A) → Stays env (lift r)
  unfolding lift
  Stays-lift r = record { at = λ w. refl }

  pub Stays-query : (f : Env → Tables → A) → Stays env (query f)
  unfolding query
  Stays-query f = record { at = λ w. refl }

  pub Stays-if :
      (b : Bool) (m n : Action A) → Stays env m → Stays env n → Stays env (if b then m else n)
  Stays-if true m n h k = h
  Stays-if false m n h k = k

module _ (env : Env) where
  pub Stays-now : Stays env now
  unfolding now
  Stays-now = record { at = λ w. refl }

  pub Stays-uuid4 : Stays env uuid4
  unfolding uuid4
  Stays-uuid4 = record { at = λ w. refl }

  pub Stays-flush : (f : Tables → Tables) → Stays env (flush f)
  unfolding flush
  Stays-flush f = record { at = λ w. ground arith }

  pub Stays-assign : (f : Tables → Tables) → Stays env (assign f)
  unfolding assign
  Stays-assign f = record { at = λ w. refl }

  pub Stays-credit : Stays env record_credit_created
  unfolding record_credit_created
  Stays-credit = record { at = λ w. refl }

  pub Stays-approval : Stays env record_approval_created
  unfolding record_approval_created
  Stays-approval = record { at = λ w. refl }

  pub Stays-completed : (s : String) → Stays env (record_approval_completed s)
  unfolding record_approval_completed
  Stays-completed s = record { at = λ w. refl }

-- The settings that an action reads are the environment's.
pub Stays-settings :
    (env : Env) {A : Type 0} (f : Settings → Action A)
    → Stays env (f env.settings)
    → Stays env (query (λ e t. e.settings) >>= f)
unfolding ◌>>=◌
Stays-settings env f h = record { at = λ w. h.at w }

pub ruleset stays_rules = (
  Stays-bind, Stays-pure, Stays-raise, Stays-lift, Stays-query, Stays-if, Stays-now, Stays-uuid4,
  Stays-flush, Stays-assign, Stays-credit, Stays-approval, Stays-completed,
)
