-- ===== src/Preserved/Local.antt =====
-- The reads of the local tool client, and the calls of the language model, preserve any invariant: they
-- leave the committed tables and the session as they are.
use agentic_ai.Base.{String, ◌≡◌, some, arith}
use agentic_ai.Domain.Errors.{Result, ok, err}
use agentic_ai.World.{
  Env, World, Action, pure, lift, raise, ◌>>=◌, record_mcp_result, record_llm_result,
}
use agentic_ai.World.Post.{Ensures}
use agentic_ai.World.Preserves.{Invariant, IsPreserved, Preserves, Preserves-bind, Preserves-lift}
use agentic_ai.McpServer.{get_customer_tool, get_contract_tool, get_invoice_tool}
use agentic_ai.Wire.{
  Payload, customer_payload, contract_payload, invoice_payload, customer_result, contract_result,
  invoice_result,
}
use agentic_ai.LocalClient.{Cuts, with_timeout, invoke_local_tool, local_client}
use agentic_ai.LocalClient.Reads.{
  OnlyReads, get_customer_tool-OnlyReads, get_contract_tool-OnlyReads, get_invoice_tool-OnlyReads,
  payload-OnlyReads,
}
use agentic_ai.Llm.{Model, parse_request}
use agentic_ai.Preserved.Service.{ClientPreserves}

-- Neither the committed tables nor the session change.
pub record Same (w w' : World) : Type 0 where
  pub stored : w'.stored ≡ w.stored
  pub pending : w'.pending ≡ w.pending

abbrev pub IsSame : {A : Type 0} → World → Result A × World → Type 0
IsSame w o = Ensures (λ a w'. Same w w') (Same w) o

invoke_local_tool-IsSame :
    (cuts : Cuts) (tool : String) (call : Action Payload)
    → OnlyReads call
    → (env : Env) (w : World) → IsSame w (invoke_local_tool cuts tool call env w)
unfolding invoke_local_tool with_timeout record_mcp_result pure raise ◌>>=◌
invoke_local_tool-IsSame cuts tool call h env w = ground (arith, h.at env w)

parse_request-IsSame :
    (model : Model) (m : String) (env : Env) (w : World) → IsSame w (parse_request model m env w)
unfolding parse_request record_llm_result pure ◌>>=◌
parse_request-IsSame model m env w = ground arith

module _ (inv : Invariant) where
  IsSame-IsPreserved :
      {A : Type 0} (w : World) (o : Result A × World) → IsSame w o → inv.Holds w → IsPreserved inv o
  IsSame-IsPreserved w (ok a, v) same h = record {
    holds = inv.tables_only w v same.holds.stored same.holds.pending h;
  }
  IsSame-IsPreserved w (err e, v) same h = record { holds = rw same.holds.stored (inv.keeps w h) }

  pub Preserves-same :
      {A : Type 0} (m : Action A) → ((env : Env) (w : World) → IsSame w (m env w)) → Preserves inv m
  Preserves-same m same = record { at = λ env x w h. IsSame-IsPreserved w (m env w) (same env w) h }

  read-Preserves :
      {A B : Type 0} (cuts : Cuts) (tool : String) (m : Action A) (f : A → Payload)
      (g : Payload → Result B)
      → OnlyReads m
      → Preserves inv (invoke_local_tool cuts tool (m >>= λ a. pure (f a)) >>= λ p. lift (g p))
  read-Preserves cuts tool m f g h =
      Preserves-bind inv (invoke_local_tool cuts tool (m >>= λ a. pure (f a))) (λ p. lift (g p))
        (Preserves-same (invoke_local_tool cuts tool (m >>= λ a. pure (f a)))
          (invoke_local_tool-IsSame cuts tool (m >>= λ a. pure (f a)) (payload-OnlyReads m f h)))
        (λ p. Preserves-lift inv (g p))

  pub local_client-Preserves : (cuts : Cuts) → ClientPreserves inv (local_client cuts)
  unfolding local_client
  local_client-Preserves cuts = record {
    customer = λ id.
        read-Preserves cuts "get_customer" (get_customer_tool id) (λ c. customer_payload c)
          (λ p. customer_result p) (get_customer_tool-OnlyReads id);
    contract = λ id at.
        read-Preserves cuts "get_contract" (get_contract_tool id (some at))
          (λ c. contract_payload c) (λ p. contract_result p)
          (get_contract_tool-OnlyReads id (some at));
    invoice = λ id.
        read-Preserves cuts "get_invoice" (get_invoice_tool id) (λ i. invoice_payload i)
          (λ p. invoice_result p) (get_invoice_tool-OnlyReads id);
  }

  pub parse_request-Preserves : (model : Model) (m : String) → Preserves inv (parse_request model m)
  parse_request-Preserves model m =
      Preserves-same (parse_request model m) (parse_request-IsSame model m)
