-- ===== src/Preserved/Requests.antt =====
-- The workflow and the endpoints preserve an invariant; a request leaves at least what a raise does.
use agentic_ai.Base.{String, refl, Option, none, some, List, [], ◌∷◌, ◌==◌}
use agentic_ai.Domain.Status.{BillingDecision}
use agentic_ai.Domain.Errors.{Result, ok, err}
use agentic_ai.World.{Env, World, Action, ◌>>=◌, pure, with_session, uuid4, record_workflow_result}
use agentic_ai.World.Preserves.{
  Invariant, IsPreserved, Preserves, preserves_rules, Preserves-if, Preserves-uuid4, Preserves-pure,
}
use agentic_ai.Billing.{BillingMcpClient, analyze_customer_billing, process_approval}
use agentic_ai.Workflow.{
  BillingAgentState, LlmClient, understand_request, evaluate, side_effects, effects_of,
  credit_effects, approval_effects, review_effects, invoke, conclude, recorded, run, given_or_new,
}
use agentic_ai.Routes.{Request, chats, decides, handle, serve, chat, approval_decision}
use agentic_ai.Preserved.Service.{
  Laws, OptionPreserves, billing_facts-Preserves, assess-Preserves, upsert_workflow_state-Preserves,
  EffectLaws,
}

module _ (inv : Invariant) where
  given_or_new-Preserves : (o : Option String) → Preserves inv (given_or_new o)
  unfolding given_or_new
  given_or_new-Preserves none = Preserves-uuid4 inv
  given_or_new-Preserves (some r) =
      Preserves-if inv (r == "") uuid4 (pure r) (Preserves-uuid4 inv) (Preserves-pure inv r)

  -- The counters of a finished run.
  conclude-IsPreserved :
      (r : Result BillingAgentState) (env : Env) (w : World)
      → IsPreserved inv (r, w)
      → IsPreserved inv (conclude r env w)
  unfolding record_workflow_result ◌>>=◌
  conclude-IsPreserved (ok st) env w h = record { holds = inv.tables_only w _ refl refl h.holds }
  conclude-IsPreserved (err e) env w h = record { holds = h.holds }

  left : {A : Type 0} (o : Result A × World) → IsPreserved inv o → inv.Kept o.1.stored
  left (ok b, v) g = inv.keeps v g.holds
  left (err e, v) g = g.holds

  -- A session on tables that satisfy the invariant leaves such tables.
  committed :
      {A : Type 0} (m : Action A) (env : Env) (w : World)
      → inv.Admits env
      → Preserves inv m
      → inv.Kept w.stored
      → inv.Kept (with_session m env w).1.stored
  unfolding with_session
  committed m env w x r h =
      left (m env (record w { pending = λ t. t }))
        (r.at env x (record w { pending = λ t. t }) (inv.opens w h))

  recorded-Preserves : (m : Action BillingAgentState) → Preserves inv m → Preserves inv (recorded m)
  recorded-Preserves m r = record {
    at = λ env x w h. conclude-IsPreserved (m env w).0 env (m env w).1 (r.at env x w h);
  }

-- What a program of requests needs of an invariant.
pub record Program (inv : Invariant) (client : Option BillingMcpClient) (llm : LlmClient)
    : Type 0 where
  pub laws : Laws inv
  pub keeps : OptionPreserves inv client
  pub effects : EffectLaws inv client
  pub decisions : (j d by : String) → Preserves inv (process_approval client j d by)
  pub parses : (m : String) → Preserves inv (llm.parse_request m)

module _ (inv : Invariant) (client : Option BillingMcpClient) (llm : LlmClient)
    (p : Program inv client llm) where
  understand-Preserves : (st : BillingAgentState) → Preserves inv (understand_request llm st)
  unfolding understand_request
  understand-Preserves st = search (preserves_rules, p.parses)

  evaluate-Preserves : (st : BillingAgentState) → Preserves inv (evaluate client st)
  unfolding evaluate analyze_customer_billing
  evaluate-Preserves st =
      search
        (
          preserves_rules,
          billing_facts-Preserves inv p.laws client p.keeps,
          assess-Preserves inv p.laws,
          upsert_workflow_state-Preserves inv p.laws,
        )
        depth 12

  effects_of-Preserves :
      (st : BillingAgentState) (d : BillingDecision) → Preserves inv (effects_of client st d)
  unfolding effects_of credit_effects approval_effects review_effects
  effects_of-Preserves st BillingDecision.auto_credit =
      search (preserves_rules, p.effects.credit, upsert_workflow_state-Preserves inv p.laws) depth
        14
  effects_of-Preserves st BillingDecision.human_approval =
      search (preserves_rules, p.effects.approval, upsert_workflow_state-Preserves inv p.laws) depth
        14
  effects_of-Preserves st BillingDecision.no_action =
      search (preserves_rules, upsert_workflow_state-Preserves inv p.laws) depth 10
  effects_of-Preserves st BillingDecision.manual_investigation =
      search (preserves_rules, upsert_workflow_state-Preserves inv p.laws) depth 10

  invoke-Preserves : (st : BillingAgentState) → Preserves inv (invoke client llm st)
  unfolding invoke side_effects
  invoke-Preserves st =
      search (preserves_rules, understand-Preserves, evaluate-Preserves, effects_of-Preserves) depth
        8

  run-Preserves : (m c : String) (r : Option String) → Preserves inv (run client llm m c r)
  unfolding run
  run-Preserves m c r =
      search (preserves_rules, given_or_new-Preserves inv, recorded-Preserves inv, invoke-Preserves)
        depth 8

  pub handle-Kept :
      (env : Env) (r : Request) (w : World)
      → inv.Admits env
      → inv.Kept w.stored
      → inv.Kept (handle client llm r env w).stored
  unfolding handle chat approval_decision
  handle-Kept env (chats m c r) w x h =
      committed inv _ env w x (search (preserves_rules, run-Preserves)) h
  handle-Kept env (decides j d by) w x h =
      committed inv _ env w x (search (preserves_rules, p.decisions) depth 8) h

  -- Whatever requests are served, committed tables that satisfy the invariant go on to.
  pub serve-Kept :
      (env : Env) (rs : List Request) (w : World)
      → inv.Admits env
      → inv.Kept w.stored
      → inv.Kept (serve client llm rs env w).stored
  unfolding serve
  serve-Kept env [] w x h = h
  serve-Kept env (r ∷ rs) w x h =
      serve-Kept env rs (handle client llm r env w) x (handle-Kept env r w x h)
