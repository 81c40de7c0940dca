-- ===== src/Runner/Controller/Handlers.antt =====
-- controller.go: the handlers, each from the lifecycle's gate to its release. Where a reference to a
-- file leads (`modelpath.Resolve`), and what a launch of the engine comes to, are arguments.
use woolwire.Base.{
  Bool, Bytes, List, Option, Result, [], codes, err, false, if◌then◌else◌, is_text, ite, leb_ℤ,
  length, negsuc, none, ok, pos, some, true, ℕ, ℤ, ℤ_discrete, ◌&&◌, ◌++◌, ◌==◌, ◌>>=◌, ◌||◌, ◌∷◌,
}
use woolwire.Identity.Decimal.{format_int}
use woolwire.Runner.ExtraArgs.{validate_extra_args}
use woolwire.Runner.Controller.{EngineArgs, Controller, is_status_ready, Launch, launch_engine}

-- `authMiddleware`
unfoldable pub is_authorized : Bytes → Bytes → Bool
is_authorized token header = length token == 0 || is_text header (codes "Bearer " ++ token)

-- The arguments of llama-server.
unfoldable pub engine_argv : EngineArgs → List Bytes
unfolding format_int
engine_argv args =
    codes "-m"
      ∷ args.model_path
      ∷ codes "-c"
      ∷ format_int args.context_limit
      ∷ codes "-t"
      ∷ format_int args.threads
      ∷ codes "--port"
      ∷ format_int (pos args.port)
      ∷ codes "--host"
      ∷ codes "127.0.0.1"
      ∷ (if length args.projector_path == 0
          then []
          else codes "--mmproj" ∷ args.projector_path ∷ [])
    ++ (if length args.draft_path == 0
        then []
        else codes "-md" ∷ args.draft_path ∷ codes "--spec-type" ∷ codes "draft-mtp" ∷ [])
    ++ elim args.gpu_layers [ some n ↦ codes "-ngl" ∷ format_int n ∷ [] | none ↦ [] ]
    ++ args.extra_args

pub record LoadModelRequest : Type 0 where
  pub model_id : Bytes
  pub filename : Bytes
  pub context_limit : ℤ
  pub threads : ℤ
  pub projector : Bytes
  pub draft_model : Bytes
  pub extra_args : List Bytes
  pub gpu_layers : Option ℤ

pub data Error : Type 0 where
  bad_reference weights_not_found projector_not_found draft_not_found bad_extra_args : Error
  launch_failed restart_failed : Error
  messages_required unsupported_role no_model_loaded other_model_loaded : Error

-- The clean name and the path of a file, or why there is none: the reference is bad, or the file is
-- not there.
abbrev pub Resolve : Type 0
Resolve = Bytes → Result Bool (Bytes × Bytes)

abbrev pub weights_error : Bool → Error
weights_error true = bad_reference
weights_error false = weights_not_found

unfoldable pub resolve_weights : Result Bool (Bytes × Bytes) → Result Error (Bytes × Bytes)
resolve_weights (ok r) = ok r
resolve_weights (err is_bad) = err (weights_error is_bad)

-- The path of a companion, or none for an empty reference.
unfoldable pub resolve_companion : Resolve → Error → Bytes → Result Error Bytes
resolve_companion resolve e reference =
    if length reference == 0
    then ok []
    else elim (resolve reference) [ ok (name, path) ↦ ok path | err is_bad ↦ err e ]

unfoldable pub default_gpu_layers : Bool → Option ℤ
default_gpu_layers has_gpu = if has_gpu then none else some (pos 0)

unfoldable pub chosen_gpu_layers : Bool → Option ℤ → Option ℤ
unfolding default_gpu_layers
chosen_gpu_layers has_gpu (some (pos n)) = some (pos n)
chosen_gpu_layers has_gpu (some (negsuc n)) = default_gpu_layers has_gpu
chosen_gpu_layers has_gpu none = default_gpu_layers has_gpu

abbrev pub or_default : ℤ → ℤ → ℤ
or_default n d = if leb_ℤ n (pos 0) then d else n

-- The launch that a request asks for.
unfoldable pub args_of : Controller → LoadModelRequest → Bytes × Bytes → Bytes → Bytes → EngineArgs
unfolding chosen_gpu_layers
args_of c req (name, path) projector draft = record {
  model_id = req.model_id;
  filename = name;
  model_path = path;
  context_limit = or_default req.context_limit (pos 4096);
  threads = or_default req.threads (pos 4);
  projector_path = projector;
  draft_path = draft;
  gpu_layers = chosen_gpu_layers c.has_gpu req.gpu_layers;
  extra_args = req.extra_args;
  port = c.engine_port;
}

unfoldable pub check_load : Resolve → LoadModelRequest → Controller → Result Error EngineArgs
unfolding resolve_weights resolve_companion args_of validate_extra_args
check_load resolve req c = do
  weights ← resolve_weights (resolve req.filename)
  projector ← resolve_companion resolve projector_not_found req.projector
  draft ← resolve_companion resolve draft_not_found req.draft_model
  let args = args_of c req weights projector draft
  elim (validate_extra_args args.extra_args) [ ok _ ↦ ok args | err _ ↦ err bad_extra_args ]

abbrev pub is_same_layers : Option ℤ → Option ℤ → Bool
is_same_layers none none = true
is_same_layers (some a) (some b) = ite (ℤ_discrete a b) true false
is_same_layers _ _ = false

abbrev pub is_same_texts : List Bytes → List Bytes → Bool
is_same_texts [] [] = true
is_same_texts (x ∷ xs) (y ∷ ys) = is_text x y && is_same_texts xs ys
is_same_texts _ _ = false

-- `reflect.DeepEqual` of two launches
unfoldable pub is_same_args : EngineArgs → EngineArgs → Bool
is_same_args a b =
    is_text a.model_id b.model_id
    && is_text a.filename b.filename
    && is_text a.model_path b.model_path
    && ite (ℤ_discrete a.context_limit b.context_limit) true false
    && ite (ℤ_discrete a.threads b.threads) true false
    && is_text a.projector_path b.projector_path
    && is_text a.draft_path b.draft_path
    && is_same_layers a.gpu_layers b.gpu_layers
    && is_same_texts a.extra_args b.extra_args
    && a.port == b.port

unfoldable pub is_loaded : EngineArgs → Controller → Bool
unfolding is_same_args
is_loaded args c =
    is_text c.loaded.model_id args.model_id
    && is_status_ready c.status
    && elim c.engine [ some p ↦ true | none ↦ false ]
    && is_same_args c.loaded args

unfoldable pub retry_answered : Bytes → Controller × Option ℕ → Controller × Result Error (Option ℕ)
retry_answered draft (c, some p) = (record c { notice = some draft }, ok (some p))
retry_answered draft (c, none) = (c, err launch_failed)

-- The second launch, without the draft; the notice names it.
unfoldable pub retry_launch :
    (EngineArgs → Launch) → EngineArgs → Controller → Controller × Result Error (Option ℕ)
unfolding launch_engine retry_answered
retry_launch launch args c =
    let undrafted = record args { draft_path = [] } in
    retry_answered args.draft_path (launch_engine (launch undrafted) undrafted c)

-- What follows the first launch.
unfoldable pub launched :
    (EngineArgs → Launch)
    → EngineArgs
    → Controller × Option ℕ
    → Controller × Result Error (Option ℕ)
unfolding retry_launch
launched retry args (c, some p) = (c, ok (some p))
launched retry args (c, none) =
    if length args.draft_path == 0 then (c, err launch_failed) else retry_launch retry args c

unfoldable pub load_checked :
    (EngineArgs → Launch)
    → (EngineArgs → Launch)
    → Result Error EngineArgs
    → Controller
    → Controller × Result Error (Option ℕ)
unfolding is_loaded launched launch_engine
load_checked launch retry (err e) c = (c, err e)
load_checked launch retry (ok args) c =
    if is_loaded args c
    then (c, ok none)
    else launched retry args (launch_engine (launch args) args c)

-- `handleLoadModel`: the process, or none for a model that is loaded already.
unfoldable pub handle_load_model :
    Resolve
    → (EngineArgs → Launch)
    → (EngineArgs → Launch)
    → LoadModelRequest
    → Controller
    → Controller × Result Error (Option ℕ)
unfolding check_load load_checked
handle_load_model resolve launch retry req c =
    load_checked launch retry (check_load resolve req c) c

unfoldable pub restarted : Controller × Option ℕ → Controller × Result Error Bool
restarted (c, some p) = (c, ok true)
restarted (c, none) = (c, err restart_failed)

unfoldable pub handle_restart_engine :
    (EngineArgs → Launch) → Controller → Controller × Result Error Bool
unfolding launch_engine restarted
handle_restart_engine launch c =
    if length c.loaded.model_id == 0 || length c.loaded.filename == 0
    then (c, ok false)
    else restarted (launch_engine (launch c.loaded) c.loaded c)
