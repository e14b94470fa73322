-- ===== src/World/Preserves.antt =====
-- Actions that preserve an invariant of worlds, with a rule for each way in which the program builds an
-- action. After a raise at least the committed tables satisfy it.
use agentic_ai.Base.{String, ◌≡◌, refl, Bool, true, false, if◌then◌else◌}
use agentic_ai.Domain.Errors.{Error, Result, ok, err}
use agentic_ai.Store.{Tables}
use agentic_ai.World.{
  Env, World, Action, rows, ◌>>=◌, pure, raise, lift, query, now, uuid4, commit,
  record_credit_created, record_approval_created, record_approval_completed, send_notification,
  record_workflow_result,
}
use agentic_ai.World.Post.{Ensures, bind-Ensures}
use agentic_ai.Repository.{catch, translate}

-- An invariant of the committed tables, and what it becomes while a session is open: it is about the
-- session and the committed tables alone, and a commit keeps it. It may be claimed of some environments
-- only.
pub record Invariant : Type 1 where
  pub Admits : Env → Type 0
  pub Holds : World → Type 0
  pub Kept : Tables → Type 0
  pub keeps : (w : World) → Holds w → Kept w.stored
  pub opens : (w : World) → Kept w.stored → Holds (record w { pending = λ t. t })
  pub tables_only :
      (w w' : World) → w'.stored ≡ w.stored → w'.pending ≡ w.pending → Holds w → Holds w'
  pub committed : (w : World) → Holds w → Holds (record w { stored = rows w; pending = λ t. t })

abbrev pub IsPreserved : {A : Type 0} → Invariant → Result A × World → Type 0
IsPreserved inv o = Ensures (λ b w'. inv.Holds w') (λ w'. inv.Kept w'.stored) o

pub record Preserves (inv : Invariant) {A : Type 0} (m : Action A) : Type 0 where
  pub at : (env : Env) → inv.Admits env → (w : World) → inv.Holds w → IsPreserved inv (m env w)

module _ (inv : Invariant) {A B : Type 0} where
  pub Preserves-bind :
      (m : Action A) (f : A → Action B)
      → Preserves inv m
      → ((b : A) → Preserves inv (f b))
      → Preserves inv (m >>= f)
  Preserves-bind m f km kf = record {
    at = λ env x w h. bind-Ensures m f env w (km.at env x w h) (λ b w' p. (kf b).at env x w' p);
  }

module _ (inv : Invariant) {A : Type 0} where
  pub Preserves-pure : (b : A) → Preserves inv (pure b)
  unfolding pure
  Preserves-pure b = record { at = λ env x w h. record { holds = h } }

  pub Preserves-raise : (e : Error) → Preserves inv (raise {A = A} e)
  unfolding raise
  Preserves-raise e = record { at = λ env x w h. record { holds = inv.keeps w h } }

  pub Preserves-lift : (r : Result A) → Preserves inv (lift r)
  unfolding lift
  Preserves-lift (ok b) = record { at = λ env x w h. record { holds = h } }
  Preserves-lift (err e) = record { at = λ env x w h. record { holds = inv.keeps w h } }

  pub Preserves-query : (f : Env → Tables → A) → Preserves inv (query f)
  unfolding query
  Preserves-query f = record { at = λ env x w h. record { holds = h } }

  pub Preserves-if :
      (b : Bool) (m n : Action A)
      → Preserves inv m
      → Preserves inv n
      → Preserves inv (if b then m else n)
  Preserves-if true m n h g = h
  Preserves-if false m n h g = g

module _ (inv : Invariant) where
  pub Preserves-now : Preserves inv now
  unfolding now
  Preserves-now = record { at = λ env x w h. record { holds = inv.tables_only w _ refl refl h } }

  pub Preserves-uuid4 : Preserves inv uuid4
  unfolding uuid4
  Preserves-uuid4 = record { at = λ env x w h. record { holds = inv.tables_only w _ refl refl h } }

  pub Preserves-commit : Preserves inv commit
  unfolding commit
  Preserves-commit = record { at = λ env x w h. record { holds = inv.committed w h } }

  pub Preserves-credit_created : Preserves inv record_credit_created
  unfolding record_credit_created
  Preserves-credit_created = record {
    at = λ env x w h. record { holds = inv.tables_only w _ refl refl h };
  }

  pub Preserves-approval_created : Preserves inv record_approval_created
  unfolding record_approval_created
  Preserves-approval_created = record {
    at = λ env x w h. record { holds = inv.tables_only w _ refl refl h };
  }

  pub Preserves-completed : (s : String) → Preserves inv (record_approval_completed s)
  unfolding record_approval_completed
  Preserves-completed s = record {
    at = λ env x w h. record { holds = inv.tables_only w _ refl refl h };
  }

  pub Preserves-result : (s : String) → Preserves inv (record_workflow_result s)
  unfolding record_workflow_result
  Preserves-result s = record {
    at = λ env x w h. record { holds = inv.tables_only w _ refl refl h };
  }

  pub Preserves-notification : (c m : String) → Preserves inv (send_notification c m)
  unfolding send_notification
  Preserves-notification c m = record {
    at = λ env x w h. record { holds = inv.tables_only w _ refl refl h };
  }

  translated :
      (f : Error → Error) (o : Result (Unit {0}) × World)
      → IsPreserved inv o
      → IsPreserved inv (translate f o)
  translated f (ok x, w) h = record { holds = h.holds }
  translated f (err e, w) h = record { holds = h.holds }

  pub Preserves-catch :
      (f : Error → Error) (m : Action (Unit {0})) → Preserves inv m → Preserves inv (catch f m)
  Preserves-catch f m r = record { at = λ env x w h. translated f (m env w) (r.at env x w h) }

pub ruleset preserves_rules = (
  Preserves-bind, Preserves-pure, Preserves-raise, Preserves-lift, Preserves-query, Preserves-now,
  Preserves-uuid4, Preserves-commit, Preserves-credit_created, Preserves-approval_created,
  Preserves-completed, Preserves-result, Preserves-notification, Preserves-catch,
)
