-- ===== src/Peerapi/Tests.antt =====
-- Requests of other members, and the theorems of the stream and of the handler on them.
use woolwire.Base.{
  Bytes, [], bytes_dec, codes, false, if◌then◌else◌, is_text, none, pos, refl, some, true,
  ℕ_discrete, ◌++◌, ◌∷◌, ◌≡◌,
}
use woolwire.Base.Maps.{lookup, put, delete}
use woolwire.Inference.Limits.{default_limits, normalize_limits}
use woolwire.Inference.Queue.{FairQueue, new_fair_queue, submit, key_dec, stats, member_queue_full}
use woolwire.Inference.Prompt.{
  HostedModelRecord, thinking_default, check_context_limit, parse_thinking_level,
}
use woolwire.Inference.Service.Requests.{work_of, execute}
use woolwire.Sse.{Stream, new_response, new_stream, http_error, send_raw}
use woolwire.Sse.Frames
use woolwire.Sse.Frames.{frame, breaks, send_all, sent, send_all-sent}
use woolwire.Peerapi.{InferenceRequest, Host, delta, tick, check_request, handle_inference}
use woolwire.Peerapi.Refusals.{
  handle_inference-Rejected, handle_inference-Refused, handle_inference-Streamed, run_chunks,
}

program : Unit {0}
unfolding default_limits normalize_limits new_fair_queue submit lookup put delete bytes_dec key_dec
    stats ℕ_discrete execute work_of check_context_limit parse_thinking_level new_stream http_error
    send_raw check_request handle_inference
program = tt

abbrev gemma : HostedModelRecord
gemma = record {
  id = codes "g";
  name = codes "Gemma";
  model_type = codes "external";
  endpoint_url = codes "http://localhost:1";
  api_key = [];
  context_limit = pos 0;
  max_tokens = pos 0;
  enabled = true;
  published = true;
  revision = pos 1;
  backend_model = [];
  allow_private_network = true;
  filename = [];
  threads = pos 0;
  gpu_layers = none;
  projector = [];
  draft_model = [];
  extra_args = [];
  supports_thinking = true;
}

abbrev host : Host
host = record {
  has_room = true;
  get_hosted_model = λ id. if is_text id (codes "g") then some gemma else none;
  is_flusher = true;
  encode_delta = λ d. d;
  encode_error = λ e. e;
  stats = codes "s";
  run = λ _. (delta (codes "Hi") ∷ tick ∷ delta (codes "!") ∷ [], none);
  ticks = λ _. 1;
  receipt = some (codes "r");
}

abbrev asked : Bytes → InferenceRequest
asked id = record {
  request_id = id;
  model_id = codes "g";
  messages = record { role = codes "user"; content = codes "hi" } ∷ [];
  thinking = [];
}

abbrev empty_queue : FairQueue
empty_queue = new_fair_queue default_limits

-- One request of the member runs, and one waits.
abbrev full_queue : FairQueue
full_queue = (submit (submit empty_queue (codes "ann") (codes "1")).0 (codes "ann") (codes "2")).0

handle_inference-Rejected_run :
    ((handle_inference host (codes "ann") none empty_queue new_response).1 ≡ empty_queue)
    × ((handle_inference host (codes "ann") none empty_queue new_response).0.status ≡ some 400)
    × ((handle_inference host (codes "ann") none empty_queue new_response).0.body
        ≡ (codes "request payload too large or invalid" ++ 10 ∷ []) ∷ [])
unfolding check_request
handle_inference-Rejected_run =
    handle_inference-Rejected host (codes "ann") none empty_queue new_response
      (codes "request payload too large or invalid") 400 (refl, refl, refl) refl

handle_inference-Refused_example :
    ((handle_inference host
        (codes "ann")
        (some (asked (codes "3")))
        full_queue
        new_response).0.status
      ≡ some 200)
    × ((handle_inference host
          (codes "ann")
          (some (asked (codes "3")))
          full_queue
          new_response).0.body
        ≡ (codes "member queue limit exceeded" ++ 10 ∷ []) ∷ [])
unfolding program
handle_inference-Refused_example =
    handle_inference-Refused host (codes "ann") (some (asked (codes "3"))) full_queue new_response
      (asked (codes "3")) gemma thinking_default member_queue_full
      (work_of (codes "ann") gemma (asked (codes "3")).messages thinking_default)
      (codes "member queue limit exceeded") 429 (refl, refl, refl) refl refl refl refl

handle_inference-Streamed_example :
    (handle_inference host (codes "ann") (some (asked (codes "1"))) empty_queue new_response).0.body
    ≡ run_chunks host (delta (codes "Hi") ∷ tick ∷ delta (codes "!") ∷ [])
unfolding program
handle_inference-Streamed_example =
    handle_inference-Streamed host (codes "ann") (some (asked (codes "1"))) empty_queue new_response
      (asked (codes "1")) gemma thinking_default 0
      (work_of (codes "ann") gemma (asked (codes "1")).messages thinking_default)
      (delta (codes "Hi") ∷ tick ∷ delta (codes "!") ∷ []) (refl, refl, refl) refl refl refl refl

abbrev opened_stream : Stream
opened_stream = record {
  response = record { status = some 200; body = []; broken = false };
  closed = false;
}

send_all-sent_example :
    (send_all
      (frame (codes "a") ∷ Frames.tick ∷ breaks ∷ frame (codes "b") ∷ [])
      opened_stream).response.body
    ≡ sent (frame (codes "a") ∷ Frames.tick ∷ breaks ∷ frame (codes "b") ∷ [])
unfolding program
send_all-sent_example =
    send_all-sent new_response opened_stream
      (frame (codes "a") ∷ Frames.tick ∷ breaks ∷ frame (codes "b") ∷ []) refl refl
