-- ===== src/LocalClient/Facts.antt =====
-- The facts of a bill by way of the local client, against those from the session.
use agentic_ai.Base.{String, ◌≡◌, refl, none, some, sym, ◌∙◌, ap, arith}
use agentic_ai.Domain.Errors.{Result, ok, err}
use agentic_ai.Store.{Tables}
use agentic_ai.World.{Env, World, Action, rows, pure, raise, lift, ◌>>=◌, record_mcp_result}
use agentic_ai.Billing.{billing_facts}
use agentic_ai.McpServer.{get_customer_tool, get_contract_tool, get_invoice_tool}
use agentic_ai.Wire.{
  Payload, customer_payload, contract_payload, invoice_payload, customer_result, contract_result,
  invoice_result,
}
use agentic_ai.Wire.RoundTrip.{
  customer_result-payload, contract_result-payload, invoice_result-payload,
}
use agentic_ai.LocalClient.{Cuts, in_time, with_timeout, invoke_local_tool, local_client}
use agentic_ai.Facts.{value_of, Delivers, facts_at, sources-Deliver, session_facts}
use agentic_ai.LocalClient.Looks.{
  customer_at, invoice_at, contract_at, get_customer_tool-at, get_invoice_tool-at,
  get_contract_tool-at, customer_at-IsId, invoice_at-IsMoney, contract_at-IsMoney,
}

module _ {A : Type 0} (env : Env) (t : Tables) (cuts : Cuts)
    (timely : (tool : String) (w : World) → cuts tool w ≡ in_time) (tool : String) (m : Action A)
    (f : A → Payload) (g : Payload → Result A) where
  -- A tool in time, whose payload reads back as the value it was made of.
  in_time-Delivers :
      (r : Result A)
      → ((w : World) → w.stored ≡ t → m env w ≡ (r, w))
      → ((a : A) → r ≡ ok a → g (f a) ≡ ok a)
      → Delivers
          (λ w. w.stored ≡ t)
          env
          (invoke_local_tool cuts tool (m >>= λ a. pure (f a)) >>= λ p. lift (g p))
          r
  unfolding invoke_local_tool with_timeout record_mcp_result pure raise lift ◌>>=◌
  in_time-Delivers (ok a) looks reads = record {
    at = λ w s. ground (arith, looks w s, timely tool w, reads a refl);
  }
  in_time-Delivers (err e) looks reads = record {
    at = λ w s. ground (arith, looks w s, timely tool w);
  }

  tool-Delivers :
      (q : Tables → Result A)
      → ((w : World) → m env w ≡ (q w.stored, w))
      → ((a : A) → q t ≡ ok a → g (f a) ≡ ok a)
      → Delivers
          (λ w. w.stored ≡ t)
          env
          (invoke_local_tool cuts tool (m >>= λ a. pure (f a)) >>= λ p. lift (g p))
          (q t)
  tool-Delivers q looks reads = in_time-Delivers (q t) (λ w s. looks w ∙ ap (λ t. (q t, w)) s) reads

module _ (cuts : Cuts) (timely : (tool : String) (w : World) → cuts tool w ≡ in_time) where
  local_facts :
      (id : String) (env : Env) (t : Tables)
      → Delivers
          (λ w. w.stored ≡ t)
          env
          (billing_facts (some (local_client cuts)) id)
          (facts_at id env t)
  unfolding billing_facts local_client
  local_facts id env t =
      sources-Deliver (λ w. w.stored ≡ t) env t _ _ _
        (λ id.
          tool-Delivers env t cuts timely "get_customer" (get_customer_tool id)
            (λ c. customer_payload c) (λ p. customer_result p) (λ t. customer_at id t)
            (get_customer_tool-at id env)
            (λ c e. customer_result-payload c (customer_at-IsId id t c e)))
        (λ id.
          tool-Delivers env t cuts timely "get_invoice" (get_invoice_tool id)
            (λ c. invoice_payload c) (λ p. invoice_result p) (λ t. invoice_at id env t)
            (get_invoice_tool-at id env)
            (λ c e. invoice_result-payload c (invoice_at-IsMoney id env t c e)))
        (λ id at.
          tool-Delivers env t cuts timely "get_contract" (get_contract_tool id (some at))
            (λ c. contract_payload c) (λ p. contract_result p) (λ t. contract_at id at t)
            (get_contract_tool-at id at env)
            (λ c e. contract_result-payload c (contract_at-IsMoney id at t c e)))
        id

  -- In a session without changes of its own, and with tools that answer in time, the local client
  -- gives the facts of a bill that the session's own queries give, and none where those give none.
  pub local_client_facts :
      (id : String) (env : Env) (w : World)
      → rows w ≡ w.stored
      → value_of (billing_facts (some (local_client cuts)) id env w).0
        ≡ value_of (billing_facts none id env w).0
  local_client_facts id env w fresh =
      ((local_facts id env w.stored).at w refl).0
      ∙ sym ((session_facts id env w.stored).at w fresh).0
