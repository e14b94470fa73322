-- ===== src/Safety/Requests.antt =====
-- Both endpoints, and every sequence of requests, keep the money rules.
use agentic_ai.Base.{String, ◌≡◌, false, Option, none, some, List, [], ◌∷◌, ◌==◌}
use agentic_ai.Domain.Errors.{Result, ok, err}
use agentic_ai.World.{
  Env, World, Settings, Action, ◌>>=◌, pure, with_session, uuid4, record_workflow_result,
}
use agentic_ai.World.Post.{bind-Ensures}
use agentic_ai.Billing.{BillingMcpClient, process_approval}
use agentic_ai.Workflow.{
  BillingAgentState, LlmClient, initial_state, understand_request, evaluate, side_effects, invoke,
  conclude, recorded, run, given_or_new,
}
use agentic_ai.Routes.{
  Request, chats, decides, handle, serve, chat, chat_response, approval_decision,
}
use agentic_ai.Safety.Tables.{Sound, IsSafe}
use agentic_ai.Safety.Writes.{IsSound}
use agentic_ai.Safety.Keeps.{
  Keeps-if, KeepsSound, bind-IsSound, keeps_rules, Keeps-uuid4, Keeps-pure,
}
use agentic_ai.Safety.Approval.{process_approval-IsSound}
use agentic_ai.Safety.Evaluate.{OptionReads, evaluate-Ensures}
use agentic_ai.Safety.Effects.{side_effects-IsSound}

given_or_new-KeepsSound : (o : Option String) → KeepsSound (given_or_new o)
unfolding given_or_new
given_or_new-KeepsSound none = Keeps-uuid4
given_or_new-KeepsSound (some r) = Keeps-if (r == "") uuid4 (pure r) Keeps-uuid4 (Keeps-pure r)

-- The counters of a finished run change no table.
conclude-IsSound :
    (r : Result BillingAgentState) (env : Env) (w : World)
    → IsSound env.settings (r, w)
    → IsSound env.settings (conclude r env w)
unfolding record_workflow_result ◌>>=◌
conclude-IsSound (ok st) env w h = record {
  holds = record { seen = h.holds.seen; kept = h.holds.kept };
}
conclude-IsSound (err e) env w h = record { holds = h.holds }

recorded-IsSound :
    (m : Action BillingAgentState) (env : Env) (w : World)
    → IsSound env.settings (m env w)
    → IsSound env.settings (recorded m env w)
recorded-IsSound m env w h = let (r, w') = m env w in conclude-IsSound r env w' h

kept_after : {A : Type 0} (s : Settings) (o : Result A × World) → IsSound s o → IsSafe s o.1.stored
kept_after s (ok a, w) h = h.holds.kept
kept_after s (err e, w) h = h.holds

-- A session that starts on safe tables and stays sound leaves safe tables, committed or not.
with_session-IsSafe :
    {A : Type 0} (m : Action A) (env : Env) (w : World)
    → IsSafe env.settings w.stored
    → ((v : World) → Sound env.settings v → IsSound env.settings (m env v))
    → IsSafe env.settings (with_session m env w).1.stored
unfolding with_session
with_session-IsSafe m env w h k =
    kept_after env.settings (m env (record w { pending = λ t. t }))
      (k (record w { pending = λ t. t }) (record { seen = h; kept = h }))

module _ (client : Option BillingMcpClient) (reads : OptionReads client) (llm : LlmClient)
    (parses : (m : String) → KeepsSound (llm.parse_request m)) where
  understand-KeepsSound : (st : BillingAgentState) → KeepsSound (understand_request llm st)
  unfolding understand_request
  understand-KeepsSound st = search (keeps_rules, parses)

  module _ (env : Env) (local : env.settings.http_mode ≡ false) where
    invoke-IsSound :
        (st : BillingAgentState) (w : World)
        → Sound env.settings w
        → IsSound env.settings (invoke client llm st env w)
    unfolding invoke
    invoke-IsSound st w h =
        bind-Ensures (understand_request llm st) _ env w ((understand-KeepsSound st).at env w h)
          λ st₁ w₁ p₁.
            bind-Ensures (evaluate client st₁) (side_effects client) env w₁
              (evaluate-Ensures client reads env st₁ w₁ p₁)
              λ st₂ w₂ p₂. side_effects-IsSound client env st₂ w₂ local p₂.1 p₂.0

    run-IsSound :
        (m c : String) (r : Option String) (w : World)
        → Sound env.settings w
        → IsSound env.settings (run client llm m c r env w)
    unfolding run
    run-IsSound m c r w h = bind-Ensures uuid4 _ env w (Keeps-uuid4.at env w h) λ v w₁ p₁.
        bind-Ensures (given_or_new r) _ env w₁ ((given_or_new-KeepsSound r).at env w₁ p₁) λ i w₂ p₂.
          recorded-IsSound (invoke client llm (initial_state i v m c)) env w₂
            (invoke-IsSound (initial_state i v m c) w₂ p₂)

    chat-IsSafe :
        (m c : String) (r : Option String) (w : World)
        → IsSafe env.settings w.stored
        → IsSafe env.settings (chat client llm m c r env w).1.stored
    unfolding chat
    chat-IsSafe m c r w h = with_session-IsSafe _ env w h λ v p.
        bind-IsSound (run client llm m c r) _ env v (run-IsSound m c r v p)
          (λ st. Keeps-pure (chat_response st))

    approval_decision-IsSafe :
        (k d by : String) (w : World)
        → IsSafe env.settings w.stored
        → IsSafe env.settings (approval_decision client k d by env w).1.stored
    unfolding approval_decision
    approval_decision-IsSafe k d by w h = with_session-IsSafe _ env w h λ v p.
        bind-IsSound (process_approval client k d by) _ env v
          (process_approval-IsSound client k d by env v local p) (λ st. search keeps_rules depth 8)

    handle-IsSafe :
        (r : Request) (w : World)
        → IsSafe env.settings w.stored
        → IsSafe env.settings (handle client llm r env w).stored
    unfolding handle
    handle-IsSafe (chats m c r) w h = chat-IsSafe m c r w h
    handle-IsSafe (decides k d by) w h = approval_decision-IsSafe k d by w h

    -- In local mode, with a tool client and a language model that keep the money rules, whatever
    -- requests are served: if the committed tables are safe before, they are safe after. So every
    -- credit is positive and within the automatic limit or repeats the claim of an approved
    -- request, and every request for approval is above the automatic limit and within the maximum.
    pub serve-IsSafe :
        (rs : List Request) (w : World)
        → IsSafe env.settings w.stored
        → IsSafe env.settings (serve client llm rs env w).stored
    unfolding serve
    serve-IsSafe [] w h = h
    serve-IsSafe (r ∷ rs) w h = serve-IsSafe rs (handle client llm r env w) (handle-IsSafe r w h)
