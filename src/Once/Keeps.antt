-- ===== src/Once/Keeps.antt =====
-- The credits of one claim as an invariant of sessions, and the writes that have nothing to do with them.
use agentic_ai.Base.{ℕ, String, ◌≡◌, refl, sym, ap, ◌∙◌, subst, false, Option, none, some, arith}
use agentic_ai.Store.{Json, Tables, WorkflowRunRow, update_approval}
use agentic_ai.World.{World, rows, flush, assign}
use agentic_ai.World.Preserves.{Invariant, Preserves}
use agentic_ai.Repository.{add_key, add_approval, add_audit, upsert, decided}
use agentic_ai.Safety.Approval.{expired_row}
use agentic_ai.Preserved.Service.{Laws}
use agentic_ai.Preserved.Approval.{RowLaws}
use agentic_ai.Once.Rows.{IsOnce, add_key-IsOnce}

-- The session sees such tables, and such tables are committed; in local mode.
pub record Apart (w : World) : Type 0 where
  pub seen : IsOnce (rows w)
  pub kept : IsOnce w.stored

abbrev pub once : Invariant
once = record {
  Admits = λ env. env.settings.http_mode ≡ false;
  Holds = Apart;
  Kept = IsOnce;
  keeps = λ w h. h.kept;
  opens = λ w h. record { seen = h; kept = h };
  tables_only = λ w w' stored pending h. record {
    seen = subst IsOnce (sym (ap (λ p. p w.stored) pending) ∙ sym (ap w'.pending stored)) h.seen;
    kept = subst IsOnce (sym stored) h.kept;
  };
  committed = λ w h. record { seen = h.seen; kept = h.seen };
}

flush_once :
    (change : Tables → Tables)
    → ((t : Tables) → IsOnce t → IsOnce (change t))
    → Preserves once (flush change)
unfolding flush
flush_once change c = record { at = λ env x w h. ground (arith, h.seen, h.kept, c (rows w)) }

-- Changes of other tables.
others :
    (change : Tables → Tables)
    → ((t : Tables) → (change t).credits ≡ t.credits)
    → ((t : Tables) → (change t).idempotency_keys ≡ t.idempotency_keys)
    → (t : Tables) → IsOnce t
    → IsOnce (change t)
others change credits keys t h = record {
  distinct = rw (credits t) h.distinct;
  known = rw (credits t, keys t) h.known;
}

pub once-Laws : Laws once
once-Laws = record {
  keys = λ row. flush_once (add_key row) (add_key-IsOnce row);
  approvals =
      λ row. flush_once (add_approval row) (others (add_approval row) (λ t. refl) (λ t. refl));
  audits = λ row. flush_once (add_audit row) (others (add_audit row) (λ t. refl) (λ t. refl));
  workflows = workflow;
}
  where
    workflow :
        (o : Option WorkflowRunRow) (i r s : String) (j : Json) (at : ℕ)
        → Preserves once (flush (upsert o i r s j at))
    workflow none i r s j at =
        flush_once (upsert none i r s j at)
          (others (upsert none i r s j at) (λ t. refl) (λ t. refl))
    workflow (some row) i r s j at =
        flush_once (upsert (some row) i r s j at)
          (others (upsert (some row) i r s j at) (λ t. refl) (λ t. refl))

pub once-RowLaws : (j : String) → RowLaws once j
unfolding assign
once-RowLaws j = record {
  decides = λ d by at.
      flush_once (update_approval j (decided d by at))
        (others (update_approval j (decided d by at)) (λ t. refl) (λ t. refl));
  expires = record {
    at = λ env x w h. record {
      holds = record {
        seen = others (update_approval j expired_row) (λ t. refl) (λ t. refl) (rows w) h.seen;
        kept = h.kept;
      };
    };
  };
}
