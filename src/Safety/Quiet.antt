-- ===== src/Safety/Quiet.antt =====
-- Operations that leave the credits and the approvals alone: the session sees the same ones after
-- them, and what is committed does not change. A raise changes nothing that is committed.
use agentic_ai.Base.{refl, ◌∙◌, String, ◌≡◌, arith}
use agentic_ai.Domain.Errors.{Result}
use agentic_ai.Store.{Json}
use agentic_ai.World.{
  Action, pure, record_approval_completed, Env, World, rows, ◌>>=◌, flush, now, uuid4,
}
use agentic_ai.World.Post.{Ensures, bind-Ensures, Ensures-impl}
use agentic_ai.Repository.{ensure_idempotency, add_audit_event, upsert_workflow_state}

pub record Quiet (w w' : World) : Type 0 where
  pub credits : (rows w').credits ≡ (rows w).credits
  pub approvals : (rows w').approvals ≡ (rows w).approvals
  pub stored : w'.stored ≡ w.stored

-- What is committed stays.
abbrev pub Unstored : World → World → Type 0
Unstored w w' = w'.stored ≡ w.stored

abbrev pub IsQuiet : {A : Type 0} → World → Result A × World → Type 0
IsQuiet w o = Ensures (λ a w'. Quiet w w') (Unstored w) o

pub ensure_idempotency-IsQuiet :
    (key request_id : String) (env : Env) (w : World)
    → IsQuiet w (ensure_idempotency key request_id env w)
unfolding ensure_idempotency flush now ◌>>=◌
ensure_idempotency-IsQuiet key request_id env w = ground arith

pub add_audit_event-IsQuiet :
    (r i t a s : String) (m : Json) (env : Env) (w : World)
    → IsQuiet w (add_audit_event r i t a s m env w)
unfolding add_audit_event flush now uuid4 ◌>>=◌
add_audit_event-IsQuiet r i t a s m env w = ground arith

pub upsert_workflow_state-IsQuiet :
    (i r s : String) (j : Json) (env : Env) (w : World)
    → IsQuiet w (upsert_workflow_state i r s j env w)
unfolding upsert_workflow_state flush now ◌>>=◌
upsert_workflow_state-IsQuiet i r s j env w = ground arith

pub Quiet-trans : (u v w : World) → Quiet u v → Quiet v w → Quiet u w
Quiet-trans u v w p q = record {
  credits = q.credits ∙ p.credits;
  approvals = q.approvals ∙ p.approvals;
  stored = q.stored ∙ p.stored;
}

-- Actions that are quiet in every world, with rules for the blocks that the program writes.
pub record StaysQuiet {A : Type 0} (m : Action A) : Type 0 where
  pub at : (env : Env) (w : World) → IsQuiet w (m env w)

pub quiet_pure : {A : Type 0} (a : A) → StaysQuiet (pure a)
unfolding pure
quiet_pure a = record {
  at = λ env w. record { holds = record { credits = refl; approvals = refl; stored = refl } };
}

pub quiet_bind :
    {A B : Type 0} (m : Action A) (f : A → Action B)
    → StaysQuiet m
    → ((a : A) → StaysQuiet (f a))
    → StaysQuiet (m >>= f)
quiet_bind m f hm hf = record {
  at = λ env w. bind-Ensures m f env w (hm.at env w) (λ a w' p.
      Ensures-impl (f a env w') ((hf a).at env w') (λ b v q. Quiet-trans w w' v p q)
        (λ v q. q ∙ p.stored));
}

pub quiet_completed : (s : String) → StaysQuiet (record_approval_completed s)
unfolding record_approval_completed
quiet_completed s = record {
  at = λ env w. record { holds = record { credits = refl; approvals = refl; stored = refl } };
}

pub quiet_audit : (r i t a s : String) (m : Json) → StaysQuiet (add_audit_event r i t a s m)
quiet_audit r i t a s m = record { at = add_audit_event-IsQuiet r i t a s m }

pub quiet_upsert : (i r s : String) (j : Json) → StaysQuiet (upsert_workflow_state i r s j)
quiet_upsert i r s j = record { at = upsert_workflow_state-IsQuiet i r s j }

pub ruleset quiet_rules = (quiet_pure, quiet_bind, quiet_completed, quiet_audit, quiet_upsert)
