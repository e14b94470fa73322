-- ===== src/LocalClient/Reads.antt =====
-- The reading tools change no table, so that the local client keeps the money rules.
use agentic_ai.Base.{ℕ, String, ◌≡◌, Option, none, some, arith}
use agentic_ai.Domain.Errors.{Result}
use agentic_ai.World.{Env, World, Action, pure, lift, raise, ◌>>=◌, with_session, record_mcp_result}
use agentic_ai.Repository.{get_customer, get_latest_finalized_invoice, get_contract_for_period}
use agentic_ai.McpServer.{get_customer_tool, get_contract_tool, get_invoice_tool, look_up_at}
use agentic_ai.Wire.{
  Payload, customer_payload, contract_payload, invoice_payload, customer_result, contract_result,
  invoice_result,
}
use agentic_ai.LocalClient.{Cuts, with_timeout, invoke_local_tool, local_client}
use agentic_ai.Safety.Quiet.{IsQuiet}
use agentic_ai.Safety.Keeps.{KeepsSound, Keeps-bind, Keeps-quiet, Keeps-lift}
use agentic_ai.Safety.Evaluate.{ReadsSoundly}

-- The action leaves the world as it is.
pub record OnlyReads {A : Type 0} (m : Action A) : Type 0 where
  pub at : (env : Env) (w : World) → (m env w).1 ≡ w

pub get_customer_tool-OnlyReads : (id : String) → OnlyReads (get_customer_tool id)
unfolding get_customer_tool get_customer with_session ◌>>=◌
get_customer_tool-OnlyReads id = record { at = λ env w. ground arith }

pub get_invoice_tool-OnlyReads : (id : String) → OnlyReads (get_invoice_tool id)
unfolding get_invoice_tool get_latest_finalized_invoice with_session ◌>>=◌
get_invoice_tool-OnlyReads id = record { at = λ env w. ground arith }

pub get_contract_tool-OnlyReads : (id : String) (o : Option ℕ) → OnlyReads (get_contract_tool id o)
unfolding get_contract_tool look_up_at get_latest_finalized_invoice get_contract_for_period
    with_session ◌>>=◌
get_contract_tool-OnlyReads id none = record { at = λ env w. ground arith }
get_contract_tool-OnlyReads id (some at) = record { at = λ env w. ground arith }

-- A call whose answer is made into a payload still only reads.
pub payload-OnlyReads :
    {A : Type 0} (m : Action A) (f : A → Payload) → OnlyReads m → OnlyReads (m >>= λ a. pure (f a))
unfolding pure ◌>>=◌
payload-OnlyReads m f h = record { at = λ env w. ground (arith, h.at env w) }

-- Whatever becomes of a call that only reads, the session and the database stay as they are.
invoke_local_tool-IsQuiet :
    (cuts : Cuts) (tool : String) (call : Action Payload)
    → OnlyReads call
    → (env : Env) (w : World) → IsQuiet w (invoke_local_tool cuts tool call env w)
unfolding invoke_local_tool with_timeout record_mcp_result pure raise ◌>>=◌
invoke_local_tool-IsQuiet cuts tool call h env w = ground (arith, h.at env w)

read-KeepsSound :
    {A B : Type 0} (cuts : Cuts) (tool : String) (m : Action A) (f : A → Payload)
    (g : Payload → Result B)
    → OnlyReads m
    → KeepsSound (invoke_local_tool cuts tool (m >>= λ a. pure (f a)) >>= λ p. lift (g p))
read-KeepsSound cuts tool m f g h =
    Keeps-bind (invoke_local_tool cuts tool (m >>= λ a. pure (f a))) (λ p. lift (g p))
      (Keeps-quiet (invoke_local_tool cuts tool (m >>= λ a. pure (f a)))
        (invoke_local_tool-IsQuiet cuts tool (m >>= λ a. pure (f a)) (payload-OnlyReads m f h)))
      (λ p. Keeps-lift (g p))

-- The reads of the local client keep the money rules, in time or not.
pub local_client-ReadsSoundly : (cuts : Cuts) → ReadsSoundly (local_client cuts)
unfolding local_client
local_client-ReadsSoundly cuts = record {
  customer = λ id.
      read-KeepsSound cuts "get_customer" (get_customer_tool id) (λ c. customer_payload c)
        (λ p. customer_result p) (get_customer_tool-OnlyReads id);
  contract = λ id at.
      read-KeepsSound cuts "get_contract" (get_contract_tool id (some at)) (λ c. contract_payload c)
        (λ p. contract_result p) (get_contract_tool-OnlyReads id (some at));
  invoice = λ id.
      read-KeepsSound cuts "get_invoice" (get_invoice_tool id) (λ i. invoice_payload i)
        (λ p. invoice_result p) (get_invoice_tool-OnlyReads id);
}
