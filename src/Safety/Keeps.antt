-- ===== src/Safety/Keeps.antt =====
-- Actions that start from any sound world and leave a sound one, with a rule for each way in which
-- the program builds an action.
use agentic_ai.Base.{if◌then◌else◌, Bool, true, false, String, Bool, true, false}
use agentic_ai.Domain.Errors.{Error, Result, ok, err}
use agentic_ai.Store.{Tables, Json}
use agentic_ai.World.{
  Env, World, Action, ◌>>=◌, pure, raise, lift, query, now, uuid4, commit,
  record_approval_completed, send_notification, record_workflow_result,
}
use agentic_ai.World.Post.{bind-Ensures, Ensures-impl}
use agentic_ai.Repository.{upsert_workflow_state, add_audit_event}
use agentic_ai.Safety.Tables.{Sound}
use agentic_ai.Safety.Quiet.{IsQuiet, add_audit_event-IsQuiet, upsert_workflow_state-IsQuiet}
use agentic_ai.Safety.Writes.{IsSound}
use agentic_ai.Safety.Billing.{Quiet-Sound, Unstored-IsSafe}

pub record KeepsSound {A : Type 0} (m : Action A) : Type 0 where
  pub at : (env : Env) (w : World) → Sound env.settings w → IsSound env.settings (m env w)

-- A block whose first action is known to leave a sound world here.
pub bind-IsSound :
    {A B : Type 0} (m : Action A) (f : A → Action B) (env : Env) (w : World)
    → IsSound env.settings (m env w)
    → ((a : A) → KeepsSound (f a))
    → IsSound env.settings ((m >>= f) env w)
bind-IsSound m f env w h k = bind-Ensures m f env w h (λ a w' p. (k a).at env w' p)

pub Keeps-quiet :
    {A : Type 0} (m : Action A) → ((env : Env) (w : World) → IsQuiet w (m env w)) → KeepsSound m
Keeps-quiet m q = record {
  at = λ env w h.
      Ensures-impl (m env w) (q env w) (λ a w' p. Quiet-Sound env.settings w w' p h)
        (λ w' p. Unstored-IsSafe env.settings w w' p h);
}

module _ {A B : Type 0} where
  pub Keeps-bind :
      (m : Action A) (f : A → Action B)
      → KeepsSound m
      → ((a : A) → KeepsSound (f a))
      → KeepsSound (m >>= f)
  Keeps-bind m f km kf = record {
    at = λ env w h. bind-Ensures m f env w (km.at env w h) (λ a w' p. (kf a).at env w' p);
  }

module _ {A : Type 0} where
  pub Keeps-pure : (a : A) → KeepsSound (pure a)
  unfolding pure
  Keeps-pure a = record { at = λ env w h. record { holds = h } }

  pub Keeps-raise : (e : Error) → KeepsSound (raise {A = A} e)
  unfolding raise
  Keeps-raise e = record { at = λ env w h. record { holds = h.kept } }

  pub Keeps-lift : (r : Result A) → KeepsSound (lift r)
  unfolding lift
  Keeps-lift (ok a) = record { at = λ env w h. record { holds = h } }
  Keeps-lift (err e) = record { at = λ env w h. record { holds = h.kept } }

  pub Keeps-query : (f : Env → Tables → A) → KeepsSound (query f)
  unfolding query
  Keeps-query f = record { at = λ env w h. record { holds = h } }

pub Keeps-if :
    {A : Type 0} (b : Bool) (m n : Action A)
    → KeepsSound m
    → KeepsSound n
    → KeepsSound (if b then m else n)
Keeps-if true m n h k = h
Keeps-if false m n h k = k

pub Keeps-audit : (r i t a s : String) (m : Json) → KeepsSound (add_audit_event r i t a s m)
Keeps-audit r i t a s m =
    Keeps-quiet (add_audit_event r i t a s m) (add_audit_event-IsQuiet r i t a s m)

pub Keeps-upsert : (i r s : String) (j : Json) → KeepsSound (upsert_workflow_state i r s j)
Keeps-upsert i r s j =
    Keeps-quiet (upsert_workflow_state i r s j) (upsert_workflow_state-IsQuiet i r s j)

pub Keeps-now : KeepsSound now
unfolding now
Keeps-now = record { at = λ env w h. record { holds = record { seen = h.seen; kept = h.kept } } }

pub Keeps-uuid4 : KeepsSound uuid4
unfolding uuid4
Keeps-uuid4 = record { at = λ env w h. record { holds = record { seen = h.seen; kept = h.kept } } }

-- What is committed becomes what the session saw.
pub Keeps-commit : KeepsSound commit
unfolding commit
Keeps-commit = record { at = λ env w h. record { holds = record { seen = h.seen; kept = h.seen } } }

pub Keeps-completed : (s : String) → KeepsSound (record_approval_completed s)
unfolding record_approval_completed
Keeps-completed s = record {
  at = λ env w h. record { holds = record { seen = h.seen; kept = h.kept } };
}

pub Keeps-result : (s : String) → KeepsSound (record_workflow_result s)
unfolding record_workflow_result
Keeps-result s = record {
  at = λ env w h. record { holds = record { seen = h.seen; kept = h.kept } };
}

pub Keeps-notification : (c m : String) → KeepsSound (send_notification c m)
unfolding send_notification
Keeps-notification c m = record {
  at = λ env w h. record { holds = record { seen = h.seen; kept = h.kept } };
}

pub ruleset keeps_rules = (
  Keeps-pure, Keeps-raise, Keeps-lift, Keeps-query, Keeps-bind, Keeps-audit, Keeps-upsert,
  Keeps-now, Keeps-uuid4, Keeps-commit, Keeps-completed, Keeps-result, Keeps-notification,
)
