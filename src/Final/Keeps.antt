-- ===== src/Final/Keeps.antt =====
-- Actions that keep a decided request's row, with a rule for each way in which the program builds an
-- action.
use agentic_ai.Base.{sym, subst, String, ◌≡◌, Option, none, some}
use agentic_ai.Domain.Errors.{Result, ok, err}
use agentic_ai.Store.{Tables, ApprovalRow}
use agentic_ai.World.{Env, World, Action, rows, flush, assign, with_session, settle}
use agentic_ai.World.Preserves.{Invariant, IsPreserved, Preserves}
use agentic_ai.Final.Rows.{Final}

-- The row is committed, and the session's own changes keep it.
pub record Held (k : String) (a : ApprovalRow) (w : World) : Type 0 where
  pub seen : (t : Tables) → Final k a t → Final k a (w.pending t)
  pub kept : Final k a w.stored

-- Being held, as an invariant; after a raise at least the committed row is.
abbrev pub finality : String → ApprovalRow → Invariant
finality k a = record {
  Admits = λ env. Unit;
  Holds = Held k a;
  Kept = Final k a;
  keeps = λ w h. h.kept;
  opens = λ w h. record { seen = λ t e. e; kept = h };
  tables_only = λ w w' stored pending h. record {
    seen = subst (λ p. (t : Tables) → Final k a t → Final k a (p t)) (sym pending) h.seen;
    kept = rw stored h.kept;
  };
  committed = λ w h. record { seen = λ t e. e; kept = h.seen w.stored h.kept };
}

abbrev pub IsHeld : {A : Type 0} → String → ApprovalRow → Result A × World → Type 0
IsHeld k a o = IsPreserved (finality k a) o

abbrev pub Retains : (k : String) (a : ApprovalRow) {A : Type 0} → Action A → Type 0
Retains k a m = Preserves (finality k a) m

module _ (k : String) (a : ApprovalRow) where
  pub Retains-flush :
      (change : Tables → Tables)
      → ((t : Tables) → Final k a t → Final k a (change t))
      → Retains k a (flush change)
  unfolding flush
  Retains-flush change c = record {
    at = λ env x w h. settled env w h (env.refuses (change (rows w)));
  }
    where
      settled :
          (env : Env) (w : World)
          → Held k a w
          → (o : Option String) → IsHeld k a (settle o (λ t. change (w.pending t)) w)
      settled env w h none = record {
        holds = record { seen = λ t e. c (w.pending t) (h.seen t e); kept = h.kept };
      }
      settled env w h (some text) = record { holds = h.kept }

  pub Retains-assign :
      (change : Tables → Tables)
      → ((t : Tables) → Final k a t → Final k a (change t))
      → Retains k a (assign change)
  unfolding assign
  Retains-assign change c = record {
    at = λ env x w h. record {
      holds = record { seen = λ t e. c (w.pending t) (h.seen t e); kept = h.kept };
    };
  }

  -- A session of its own, beside the one that is open.
  pub Retains-session : {A : Type 0} (m : Action A) → Retains k a m → Retains k a (with_session m)
  unfolding with_session
  Retains-session {A = A} m r = record {
    at = λ env x w h.
        closed w h (m env (record w { pending = λ t. t }))
          (r.at env x (record w { pending = λ t. t }) (record { seen = λ t e. e; kept = h.kept }));
  }
    where
      closed :
          (w : World)
          → Held k a w
          → (o : Result A × World) → IsHeld k a o
          → IsHeld k a (o.0, record o.1 { pending = w.pending })
      closed w h (ok x, v) g = record { holds = record { seen = h.seen; kept = g.holds.kept } }
      closed w h (err e, v) g = record { holds = g.holds }

  -- Rows of other tables.
  pub Retains-others :
      (change : Tables → Tables)
      → ((t : Tables) → (change t).approvals ≡ t.approvals)
      → Retains k a (flush change)
  Retains-others change same = Retains-flush change (λ t e. rw (same t) e)
