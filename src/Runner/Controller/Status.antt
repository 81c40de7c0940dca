-- ===== src/Runner/Controller/Status.antt =====
-- controller.go: what the status says of the engine.
use woolwire.Base.{Option, Result, [], err, none, ok, some, ℕ, ◌≡◌}
use woolwire.Runner.Controller.{EngineArgs, status_ready, status_error, no_args, Controller}
use woolwire.Runner.Controller.Handlers.{Error}

-- The process that a launch ended with: it runs and the status is ready; or it is gone, and the
-- status is ready if it went before the launch's last section and an error if it went after it.
pub data Engine : Controller → ℕ → Type 0 where
  runs : {c : Controller} (p : ℕ) → c.status ≡ status_ready → c.engine ≡ some p → Engine c p
  gone_unnoticed : {c : Controller} → c.status ≡ status_ready → c.engine ≡ none → Engine c 0
  gone_noticed : {c : Controller} (p : ℕ) → c.status ≡ status_error → c.engine ≡ none → Engine c p

-- What a load that had to launch comes to: the model as it was asked for, or without its draft and
-- with a notice, or nothing at all and the error.
pub data LoadResult (args : EngineArgs) : Controller → Result Error (Option ℕ) → Type 0 where
  as_asked :
      {c : Controller} (p : ℕ)
      → Engine c p
      → c.loaded ≡ args
      → c.notice ≡ none
      → LoadResult args c (ok (some p))
  without_draft :
      {c : Controller} (p : ℕ)
      → Engine c p
      → c.loaded ≡ record args { draft_path = [] }
      → c.notice ≡ some args.draft_path
      → LoadResult args c (ok (some p))
  unloaded :
      {c : Controller} (e : Error)
      → c.status ≡ status_error
      → c.engine ≡ none
      → c.loaded ≡ no_args
      → LoadResult args c (err e)
