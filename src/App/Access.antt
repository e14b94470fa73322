-- ===== src/App/Access.antt =====
-- Requests without credentials change nothing.
use agentic_ai.Base.{◌≡◌, refl, false, List, [], ◌∷◌, arith, Bool-cases, inl, inr, ◌∙◌, ap}
use agentic_ai.Base.Lists.{keep}
use agentic_ai.World.{Env}
use agentic_ai.App.{
  App, AppState, ApiRequest, post_chat, post_decision, post, post_all, is_authorized,
}

post_denied :
    (app : App) (env : Env) (r : ApiRequest) (s : AppState)
    → is_authorized app r ≡ false
    → (post app env r s).1 ≡ s
unfolding post is_authorized
post_denied app env (post_chat h m c i) s e = ground arith
post_denied app env (post_decision h k d by) s e = ground arith

-- Whatever requests are served, the state is the one that comes of the authorized requests among
-- them alone: the others change neither the database nor a caller's rate limit.
pub post_all-authorized :
    (app : App) (env : Env) (rs : List ApiRequest) (s : AppState)
    → post_all app env rs s ≡ post_all app env (keep (is_authorized app) rs) s
unfolding post_all
post_all-authorized app env [] s = refl
post_all-authorized app env (r ∷ rs) s = elim (Bool-cases (is_authorized app r)) [
  | inl granted ↦ rw granted (post_all-authorized app env rs (post app env r s).1)
  | inr denied ↦
      rw denied (
        ap (post_all app env rs) (post_denied app env r s denied)
        ∙ post_all-authorized app env rs s)
]
