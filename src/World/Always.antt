-- ===== src/World/Always.antt =====
-- Actions that return in every world unless the database refuses a flush, and rules for the blocks that the program writes.
use agentic_ai.Base.{String, ◌≡◌, refl, true, Option, none, some, ◌⊎◌, inl, inr}
use agentic_ai.Domain.Errors.{Error, integrity, Result, ok, err, is_ok}
use agentic_ai.Store.{Tables}
use agentic_ai.World.{
  Env, World, Action, rows, pure, query, lift, ◌>>=◌, now, uuid4, flush, record_credit_created,
  settle, record_approval_completed,
}
use agentic_ai.Repository.{duplicate_request, catch, translate}

-- What the program makes of a refusal in the database's words: an `IntegrityError`, or the conflict that
-- a workflow's request id is taken for.
pub record IsRefusal (env : Env) (e : Error) : Type 0 where
  pub tables : Tables
  pub text : String
  pub refused : env.refuses tables ≡ some text
  pub raised : (e ≡ integrity text) ⊎ (e ≡ duplicate_request (integrity text))

-- The result is a value, or a refusal of the database.
abbrev pub IsDone : {A : Type 0} → Env → Result A → Type 0
IsDone env (ok a) = Unit
IsDone env (err e) = IsRefusal env e

-- The action returns, whatever the world, unless the database refuses a flush.
pub record Always (env : Env) {A : Type 0} (m : Action A) : Type 0 where
  pub at : (w : World) → IsDone env (m env w).0

module _ (env : Env) {A B : Type 0} where
  pub bind_done :
      (m : Action A) (f : A → Action B) (w : World) (r : Result A)
      → (m env w).0 ≡ r
      → IsDone env r
      → ((a : A) → (m env w).0 ≡ ok a → IsDone env (f a env (m env w).1).0)
      → IsDone env ((m >>= f) env w).0
  unfolding ◌>>=◌
  bind_done m f w (ok a) e h k = rw e (k a e)
  bind_done m f w (err x) e h k = rw e h

  pub Always-bind :
      (m : Action A) (f : A → Action B)
      → Always env m
      → ((a : A) → Always env (f a))
      → Always env (m >>= f)
  Always-bind m f hm hf = record {
    at = λ w. bind_done m f w (m env w).0 refl (hm.at w) (λ a _. (hf a).at (m env w).1);
  }

module _ (env : Env) {A : Type 0} where
  pub Always-pure : (a : A) → Always env (pure a)
  unfolding pure
  Always-pure a = record { at = λ w. tt }

  pub Always-query : (f : Env → Tables → A) → Always env (query f)
  unfolding query
  Always-query f = record { at = λ w. tt }

  pub Always-lift : (r : Result A) → is_ok r ≡ true → Always env (lift r)
  unfolding lift
  Always-lift (ok a) h = record { at = λ w. tt }
  Always-lift (err e) h = cc

module _ (env : Env) where
  pub Always-now : Always env now
  unfolding now
  Always-now = record { at = λ w. tt }

  pub Always-uuid4 : Always env uuid4
  unfolding uuid4
  Always-uuid4 = record { at = λ w. tt }

  pub Always-credit : Always env record_credit_created
  unfolding record_credit_created
  Always-credit = record { at = λ w. tt }

  pub Always-completed : (l : String) → Always env (record_approval_completed l)
  unfolding record_approval_completed
  Always-completed l = record { at = λ w. tt }

pub Always-flush : (env : Env) (change : Tables → Tables) → Always env (flush change)
unfolding flush
Always-flush env change = record { at = λ w. settled w (env.refuses (change (rows w))) refl }
  where
    settled :
        (w : World) (o : Option String)
        → env.refuses (change (rows w)) ≡ o
        → IsDone env (settle o (λ t. change (w.pending t)) w).0
    settled w none e = tt
    settled w (some text) e = record {
      tables = change (rows w);
      text = text;
      refused = e;
      raised = inl refl;
    }

-- The refusal of a workflow's row, as the repository passes it on.
pub Always-upsert :
    (env : Env) (change : Tables → Tables) → Always env (catch duplicate_request (flush change))
unfolding flush
Always-upsert env change = record { at = λ w. settled w (env.refuses (change (rows w))) refl }
  where
    settled :
        (w : World) (o : Option String)
        → env.refuses (change (rows w)) ≡ o
        → IsDone env (translate duplicate_request (settle o (λ t. change (w.pending t)) w)).0
    settled w none e = tt
    settled w (some text) e = record {
      tables = change (rows w);
      text = text;
      refused = e;
      raised = inr refl;
    }

pub ruleset always_rules = (
  Always-bind, Always-pure, Always-query, Always-now, Always-uuid4, Always-credit, Always-completed,
  Always-flush, Always-upsert, Always-lift,
)
