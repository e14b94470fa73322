-- ===== src/RemoteClient/Added.antt =====
-- Actions that add credits of one claim to what is committed, and change nothing else of it; a call of the
-- tool server's `create_credit` is one.
use agentic_ai.Base.{
  ℕ, zero, suc, ◌+◌, String, ◌≡◌, refl, sym, ap, ◌∙◌, subst, Bool, true, false, arith,
  if◌then◌else◌,
}
use agentic_ai.Base.Int.{ℤ}
use agentic_ai.Base.Decimal.{decimal-show_amount}
use agentic_ai.Domain.Errors.{Result, ok, err}
use agentic_ai.Payload.{Payload}
use agentic_ai.Store.{Tables}
use agentic_ai.World.{
  Env, World, Action, pure, raise, lift, ◌>>=◌, continue, now, uuid4, flush, commit, with_session,
  record_mcp_result,
}
use agentic_ai.World.Stays.{Stays}
use agentic_ai.Repository.{create_credit}
use agentic_ai.Billing.{settings}
use agentic_ai.McpServer.{create_credit_tool, with_token}
use agentic_ai.McpServer.Api.{run_tool, post_tool}
use agentic_ai.LocalClient.{counted}
use agentic_ai.Safety.Tables.{Claim}
use agentic_ai.RemoteClient.{
  Network, Delivery, delivered, request_lost, response_lost, exchange, reached,
}
use agentic_ai.RemoteClient.Credited.{Credited, Credited-none, Credited-weaken, credit_body}

-- Tables that differ in their credits only.
abbrev pub OnlyCredits : Tables → Tables → Type 0
OnlyCredits t t' = t' ≡ record t { credits = t'.credits }

OnlyCredits-trans : (t u v : Tables) → OnlyCredits t u → OnlyCredits u v → OnlyCredits t v
OnlyCredits-trans t u v p q = q ∙ ap (λ (x : Tables). record x { credits = v.credits }) p

-- At most so many credits of one claim were added, and nothing else was changed.
pub record Added (c : Claim) (most : ℕ) (t t' : Tables) : Type 0 where
  pub credits : Credited c 0 most t.credits t'.credits
  pub rest : t' ≡ record t { credits = t'.credits }

pub Added-none : (c : Claim) (most : ℕ) (t t' : Tables) → t' ≡ t → Added c most t t'
Added-none c most t t' same =
    subst (λ x. Added c most t x) (sym same)
      (record {
        credits = Credited-weaken c (Credited-none c t.credits) (omega arith) (omega arith);
        rest = refl;
      })

module _ (c i : String) (n : ℤ) (m : String) (env : Env) (token sent : String) where
  post_tool-OnlyCredits :
      (w : World)
      → OnlyCredits w.stored (post_tool token (credit_body c i n m env sent) env w).1.stored
  unfolding post_tool run_tool with_token create_credit_tool settings create_credit flush commit
      with_session now uuid4 pure raise lift ◌>>=◌
  post_tool-OnlyCredits w = ground (arith, decimal-show_amount n)

  module _ (net : Network) where
    exchange-OnlyCredits :
        (d : Delivery) (w : World)
        → OnlyCredits w.stored (exchange net token (credit_body c i n m env sent) env d w).1.stored
    exchange-OnlyCredits delivered w = post_tool-OnlyCredits w
    exchange-OnlyCredits (request_lost f) w = refl
    exchange-OnlyCredits (response_lost f) w = post_tool-OnlyCredits w

    pub reached-OnlyCredits :
        (w : World) (j k : ℕ)
        → OnlyCredits w.stored (reached net token (credit_body c i n m env sent) env w j k).stored
    unfolding reached
    reached-OnlyCredits w j zero = refl
    reached-OnlyCredits w j (suc k) =
        let call = credit_body c i n m env sent in
        OnlyCredits-trans w.stored (reached net token call env w j k).stored
          (exchange net token call env (net.delivery (j + k))
            (reached net token call env w j k)).1.stored
          (reached-OnlyCredits w j k)
          (exchange-OnlyCredits (net.delivery (j + k)) (reached net token call env w j k))

pub counted-stored :
    {A : Type 0} (tool : String) (g : Payload → Result A) (env : Env) (o : Result Payload × World)
    → ((counted tool o.0 >>= λ p. lift (g p)) env o.1).1.stored ≡ o.1.stored
unfolding record_mcp_result pure raise lift ◌>>=◌
counted-stored tool g env (ok p, w) = refl
counted-stored tool g env (err e, w) = refl

-- An action after which at most so many credits of one claim are committed, and nothing else.
pub record Adds (env : Env) (c : Claim) (most : ℕ) {A : Type 0} (m : Action A) : Type 0 where
  pub at : (w : World) → Added c most w.stored (m env w).1.stored

module _ (env : Env) (c : Claim) (most : ℕ) {A : Type 0} where
  pub Stays-Adds : (m : Action A) → Stays env m → Adds env c most m
  Stays-Adds m h = record { at = λ w. Added-none c most w.stored (m env w).1.stored (h.at w) }

  pub Adds-if :
      (b : Bool) (m n : Action A)
      → Adds env c most m
      → Adds env c most n
      → Adds env c most (if b then m else n)
  Adds-if true m n h g = h
  Adds-if false m n h g = g

  module _ {B : Type 0} where
    -- The credits come from what follows, or from what goes before.
    pub Adds-before :
        (m : Action B) (f : B → Action A)
        → Stays env m
        → ((b : B) → Adds env c most (f b))
        → Adds env c most (m >>= f)
    unfolding ◌>>=◌
    Adds-before m f h k = record {
      at = λ w. subst (λ t. Added c most t ((m >>= f) env w).1.stored) (h.at w) (rest (m env w));
    }
      where
        rest : (o : Result B × World) → Added c most o.1.stored (continue o.0 f env o.1).1.stored
        rest (ok b, v) = (k b).at v
        rest (err e, v) = Added-none c most v.stored v.stored refl

    pub Adds-after :
        (m : Action B) (f : B → Action A)
        → Adds env c most m
        → ((b : B) → Stays env (f b))
        → Adds env c most (m >>= f)
    unfolding ◌>>=◌
    Adds-after m f h k = record {
      at = λ w. subst (λ t. Added c most w.stored t) (sym (rest (m env w))) (h.at w);
    }
      where
        rest : (o : Result B × World) → (continue o.0 f env o.1).1.stored ≡ o.1.stored
        rest (ok b, v) = (k b).at v
        rest (err e, v) = refl
