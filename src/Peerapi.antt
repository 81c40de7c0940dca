-- ===== src/Peerapi.antt =====
-- internal/peerapi/inference.go: the requests of other members for inference. The bodies that JSON
-- decodes are arguments, as are the texts that it encodes; the caller is the authenticated one. The
-- keepalive ticks while a run goes on and after it; a refusal by the queue comes at once.
pub mod Refusals
mod Tests
use woolwire.Base.{
  Bool, Bytes, List, Option, Result, [], codes, err, fail_if, false, if◌then◌else◌, length, none,
  not, ok, or_fail, some, suc, zero, ℕ, ◌&&◌, ◌==◌, ◌>>=◌, ◌>>◌, ◌||◌, ◌∷◌,
}
use woolwire.Inference.Queue.{
  FairQueue, Admission, SubmitError, queue_closed, duplicate_request, member_queue_full,
  queue_overflow, refused, started, queued, cancel,
}
use woolwire.Inference.Prompt.{
  ChatMessage, HostedModelRecord, parse_thinking_level, ThinkingLevel, check_context_limit,
}
use woolwire.Inference.Prompt
use woolwire.Sse
use woolwire.Inference.Service.Requests.{execute, Work}
use woolwire.Sse.{Response, Stream, http_error, new_stream, send_json, send_raw, ping, stop}

pub record InferenceRequest : Type 0 where
  pub request_id : Bytes
  pub model_id : Bytes
  pub messages : List ChatMessage
  pub thinking : Bytes

-- While a run goes on, the model's next delta and the keepalive's next tick come in any order.
pub data Happening : Type 0 where
  delta : Bytes → Happening
  tick : Happening

-- Where the keepalive can still come between what the handler sends after a run.
pub data Moment : Type 0 where
  before_receipt before_last before_end : Moment

-- What stands around a request: the room, the hosted models, whether the connection can stream, the
-- texts that are JSON, what an admitted request comes to (its deltas and the ticks among them, and
-- its error or none), the ticks after it, and the receipt, where one is sent.
pub record Host : Type 0 where
  pub has_room : Bool
  pub get_hosted_model : Bytes → Option HostedModelRecord
  pub is_flusher : Bool
  pub encode_delta : Bytes → Bytes
  pub encode_error : Bytes → Bytes
  pub stats : Bytes
  pub run : Work → List Happening × Option Bytes
  pub ticks : Moment → ℕ
  pub receipt : Option Bytes

abbrev is_missing : InferenceRequest → Bool
is_missing req = length req.request_id == 0 || length req.model_id == 0 || length req.messages == 0

abbrev is_offered : HostedModelRecord → Bool
is_offered model = model.enabled && model.published

-- What the checks before the stream let through, or the text and the status of the answer. The text of
-- an exceeded context limit goes on with its numbers.
unfoldable pub check_request :
    Host
    → Option InferenceRequest
    → Result (Bytes × ℕ) (InferenceRequest × (HostedModelRecord × ThinkingLevel))
unfolding check_context_limit parse_thinking_level
check_request host request = do
  req ← or_fail request (codes "request payload too large or invalid", 400)
  fail_if (is_missing req) (codes "missing required fields", 400)
  fail_if (not host.has_room) (codes "room not found", 404)
  model ← or_fail (host.get_hosted_model req.model_id) (codes "model not found or unavailable", 404)
  fail_if (not (is_offered model)) (codes "model not found or unavailable", 404)
  elim (check_context_limit (some model) req.messages) [
    | ok _ ↦ ok tt
    | err _ ↦ err (codes "prompt exceeds the model's configured context limit", 413)
  ]
  level ← or_fail (parse_thinking_level req.thinking) (codes "unknown thinking level", 400)
  ok (req, (model, level))

-- The deltas of a run, each a frame of its own, and the pings among them.
unfoldable pub send_deltas : (Bytes → Bytes) → List Happening → Stream → Stream
unfolding send_json ping
send_deltas encode [] s = s
send_deltas encode (delta d ∷ hs) s = send_deltas encode hs (send_json [] (some (encode d)) s).0
send_deltas encode (tick ∷ hs) s = send_deltas encode hs (ping s).0

unfoldable pub ping_all : ℕ → Stream → Stream
unfolding ping
ping_all zero s = s
ping_all (suc n) s = ping_all n (ping s).0

unfoldable pub send_receipt : Option Bytes → Stream → Stream
unfolding send_json
send_receipt none s = s
send_receipt (some receipt) s = (send_json (codes "receipt") (some receipt) s).0

-- The end of a request: an error's frame, or the statistics, the receipt and the last frame.
unfoldable pub finish_stream : Host → Option Bytes → Stream → Stream
unfolding send_json send_raw send_receipt ping_all
finish_stream host (some e) s =
    ping_all (host.ticks before_end) (send_json (codes "error") (some (host.encode_error e)) s).0
finish_stream host none s =
    let reported =
      ping_all (host.ticks before_receipt) (send_json (codes "stats") (some host.stats) s).0 in
    let received = ping_all (host.ticks before_last) (send_receipt host.receipt reported) in
    ping_all (host.ticks before_end) (send_raw (codes "data: [DONE]\n\n") received).0

abbrev pub refusal : SubmitError → Option (Bytes × ℕ)
refusal member_queue_full = some (codes "member queue limit exceeded", 429)
refusal queue_overflow = some (codes "host queue is full", 503)
refusal duplicate_request = some (codes "duplicate request id", 409)
refusal queue_closed = none

-- The errors of the queue that have a status; any other is reported like an error of the run.
unfoldable pub answer_error : Host → Stream → Option (Bytes × ℕ) → Response
unfolding send_json http_error
answer_error host s (some (message, code)) = http_error message code s.response
answer_error host s none =
    (send_json (codes "error") (some (host.encode_error (codes "queue is closed"))) s).0.response

unfoldable pub answer_run : Host → List Happening × Option Bytes → Stream → Response
unfolding send_deltas finish_stream stop
answer_run host (happenings, e) s =
    (stop (finish_stream host e (send_deltas host.encode_delta happenings s))).response

unfoldable pub answer_execution : Host → Stream → Result Prompt.Error (Admission × Work) → Response
unfolding send_json answer_error answer_run
answer_execution host s (err e) =
    (send_json (codes "error") (some (host.encode_error [])) s).0.response
answer_execution host s (ok (refused e, work)) = answer_error host s (refusal e)
answer_execution host s (ok (started h, work)) = answer_run host (host.run work) s
answer_execution host s (ok (queued h, work)) = answer_run host (host.run work) s

unfoldable pub serve_stream :
    Host
    → Bytes
    → FairQueue
    → InferenceRequest × (HostedModelRecord × ThinkingLevel)
    → Response
    → Result Sse.Error Stream
    → Response × FairQueue
unfolding answer_execution execute http_error
serve_stream host caller q (req, (model, level)) r (err e) =
    (http_error (codes "streaming unsupported") 500 r, q)
serve_stream host caller q (req, (model, level)) r (ok s) = (
  answer_execution host s (execute q caller req.request_id (some model) req.messages level).1,
  (execute q caller req.request_id (some model) req.messages level).0,
)

unfoldable pub serve_checked :
    Host
    → Bytes
    → FairQueue
    → Response
    → Result (Bytes × ℕ) (InferenceRequest × (HostedModelRecord × ThinkingLevel))
    → Response × FairQueue
unfolding serve_stream http_error new_stream
serve_checked host caller q r (err (message, code)) = (http_error message code r, q)
serve_checked host caller q r (ok checked) =
    serve_stream host caller q checked r (new_stream host.is_flusher r)

-- `handleInference`, with the response as the handler gets it and the queue as it leaves it once
-- the request is admitted.
unfoldable pub handle_inference :
    Host → Bytes → Option InferenceRequest → FairQueue → Response → Response × FairQueue
unfolding check_request serve_checked
handle_inference host caller request q r =
    serve_checked host caller q r (check_request host request)

-- `handleCancelInference`: the status, and whether a request was cancelled.
unfoldable pub handle_cancel_inference : Bytes → Option Bytes → FairQueue → FairQueue × (ℕ × Bool)
unfolding cancel
handle_cancel_inference caller request_id q = elim request_id [
  | none ↦ (q, (400, false))
  | some id ↦ if length id == 0 then (q, (400, false)) else (
    (cancel q id caller).0,
    (if (cancel q id caller).1 then 200 else 404, (cancel q id caller).1),
  )
]
