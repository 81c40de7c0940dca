-- ===== src/Peerapi/Refusals.antt =====
-- inference.go: what another member's request gets for an answer.
use mathlib.Core.List.{append-nil, append_assoc}
use woolwire.Base.{
  Bytes, List, Option, [], ap, codes, err, false, map, none, ok, refl, some, subst, suc, sym, true,
  zero, ℕ, ◌++◌, ◌∙◌, ◌∷◌, ◌≡◌,
}
use woolwire.Inference.Queue.{FairQueue, SubmitError, refused, started}
use woolwire.Inference.Prompt.{HostedModelRecord, ThinkingLevel}
use woolwire.Inference.Service.Requests.{execute, Work}
use woolwire.Sse.{
  Response, Stream, http_error, write_header, write_chunk, new_stream, send_json, send_raw,
  frame_of, ping, stop,
}
use woolwire.Sse.Frames.{is_over, opened, send_raw-live, http_error-open}
use woolwire.Peerapi.{
  InferenceRequest, Host, Happening, delta, tick, before_receipt, before_last, before_end,
  check_request, send_deltas, ping_all, send_receipt, finish_stream, refusal, answer_error,
  answer_run, answer_execution, serve_stream, serve_checked, handle_inference,
}

-- A response that nothing has been written to.
abbrev pub IsFresh : Response → Type 0
IsFresh r = (r.status ≡ none) × (r.body ≡ []) × (r.broken ≡ false)

http_error-fresh :
    (message : Bytes) (code : ℕ) (r : Response)
    → IsFresh r
    → ((http_error message code r).status ≡ some code)
      × ((http_error message code r).body ≡ (message ++ 10 ∷ []) ∷ [])
unfolding http_error write_chunk write_header
http_error-fresh message code r (p, q, b) = rw (p, q, b) (refl, refl)

pub handle_inference-Rejected :
    (host : Host) (caller : Bytes) (request : Option InferenceRequest) (q : FairQueue)
    (r : Response) (message : Bytes) (code : ℕ)
    → IsFresh r
    → check_request host request ≡ err (message, code)
    → ((handle_inference host caller request q r).1 ≡ q)
      × ((handle_inference host caller request q r).0.status ≡ some code)
      × ((handle_inference host caller request q r).0.body ≡ (message ++ 10 ∷ []) ∷ [])
unfolding handle_inference serve_checked
handle_inference-Rejected host caller request q r message code f e =
    rw e (let h = http_error-fresh message code r f in (refl, h.0, h.1))

answer_error-open :
    (host : Host) (r : Response) (s : Stream) (message : Bytes) (code : ℕ) (o : Option (Bytes × ℕ))
    → IsFresh r
    → new_stream true r ≡ ok s
    → o ≡ some (message, code)
    → ((answer_error host s o).status ≡ some 200)
      × ((answer_error host s o).body ≡ (message ++ 10 ∷ []) ∷ [])
unfolding answer_error
answer_error-open host r s message code o (p, b, k) n m = rw m (
    let h = http_error-open r s message code p k n in
    (h.0, h.1 ∙ ap (λ z. z ++ (message ++ 10 ∷ []) ∷ []) b))

served_refused :
    (host : Host) (caller : Bytes) (q : FairQueue) (r : Response) (req : InferenceRequest)
    (model : HostedModelRecord) (level : ThinkingLevel) (e : SubmitError) (work : Work)
    (message : Bytes) (code : ℕ)
    → IsFresh r
    → (execute q caller req.request_id (some model) req.messages level).1 ≡ ok (refused e, work)
    → refusal e ≡ some (message, code)
    → ((serve_stream host caller q (req, (model, level)) r (new_stream true r)).0.status ≡ some 200)
      × ((serve_stream host caller q (req, (model, level)) r (new_stream true r)).0.body
          ≡ (message ++ 10 ∷ []) ∷ [])
unfolding serve_stream answer_execution new_stream
served_refused host caller q r req model level e work message code f x m =
    rw x (answer_error-open host r _ message code (refusal e) f refl m)

-- If a request that passed the checks on a connection that can stream is refused by the queue
-- because the member's queue or the host's is full or the request is a duplicate, the answer on a
-- fresh response has the status 200, and its body is only the text of the refusal as a line that
-- is no frame.
pub handle_inference-Refused :
    (host : Host) (caller : Bytes) (request : Option InferenceRequest) (q : FairQueue)
    (r : Response) (req : InferenceRequest) (model : HostedModelRecord) (level : ThinkingLevel)
    (e : SubmitError) (work : Work) (message : Bytes) (code : ℕ)
    → IsFresh r
    → host.is_flusher ≡ true
    → check_request host request ≡ ok (req, (model, level))
    → (execute q caller req.request_id (some model) req.messages level).1 ≡ ok (refused e, work)
    → refusal e ≡ some (message, code)
    → ((handle_inference host caller request q r).0.status ≡ some 200)
      × ((handle_inference host caller request q r).0.body ≡ (message ++ 10 ∷ []) ∷ [])
unfolding handle_inference serve_checked
handle_inference-Refused host caller request q r req model level e work message code f l c x m =
    rw (c, l) (served_refused host caller q r req model level e work message code f x m)

-- The frame of a text that is JSON, under no event's name.
abbrev pub delta_frame : Host → Bytes → Bytes
delta_frame host d = frame_of [] (host.encode_delta d)

-- A stream that has been sent these frames after `body`.
abbrev Shows : Stream → List Bytes → Type 0
Shows s frames = (s.response.body ≡ frames) × (is_over s ≡ false)

send-Shows :
    (event payload : Bytes) (s : Stream) (frames : List Bytes)
    → Shows s frames
    → Shows (send_json event (some payload) s).0 (frames ++ frame_of event payload ∷ [])
unfolding send_json
send-Shows event payload s frames (p, q) =
    let k = send_raw-live (frame_of event payload) s q in
    (k.0 ∙ ap (λ z. z ++ frame_of event payload ∷ []) p, k.1)

abbrev pub ping_chunk : Bytes
ping_chunk = codes ": ping\n\n"

ping-Shows :
    (s : Stream) (frames : List Bytes)
    → Shows s frames
    → Shows (ping s).0 (frames ++ ping_chunk ∷ [])
unfolding ping
ping-Shows s frames (p, q) =
    let k = send_raw-live ping_chunk s q in (k.0 ∙ ap (λ z. z ++ ping_chunk ∷ []) p, k.1)

-- What happens in a run, as a chunk of the body.
abbrev pub shown : Host → Happening → Bytes
shown host (delta d) = delta_frame host d
shown host tick = ping_chunk

send_deltas-Shows :
    (host : Host) (hs : List Happening) (s : Stream) (frames : List Bytes)
    → Shows s frames
    → Shows (send_deltas host.encode_delta hs s) (frames ++ map (shown host) hs)
unfolding send_deltas
send_deltas-Shows host [] s frames h = subst (Shows s) (sym (append-nil frames)) h
send_deltas-Shows host (delta d ∷ hs) s frames h =
    subst (Shows (send_deltas host.encode_delta (delta d ∷ hs) s))
      (append_assoc frames (delta_frame host d ∷ []) (map (shown host) hs))
      (send_deltas-Shows host hs (send_json [] (some (host.encode_delta d)) s).0
        (frames ++ delta_frame host d ∷ []) (send-Shows [] (host.encode_delta d) s frames h))
send_deltas-Shows host (tick ∷ hs) s frames h =
    subst (Shows (send_deltas host.encode_delta (tick ∷ hs) s))
      (append_assoc frames (ping_chunk ∷ []) (map (shown host) hs))
      (send_deltas-Shows host hs (ping s).0 (frames ++ ping_chunk ∷ []) (ping-Shows s frames h))

abbrev pub pings : ℕ → List Bytes
pings zero = []
pings (suc n) = ping_chunk ∷ pings n

ping_all-Shows :
    (n : ℕ) (s : Stream) (frames : List Bytes)
    → Shows s frames
    → Shows (ping_all n s) (frames ++ pings n)
unfolding ping_all
ping_all-Shows zero s frames h = subst (Shows s) (sym (append-nil frames)) h
ping_all-Shows (suc n) s frames h =
    subst (Shows (ping_all (suc n) s)) (append_assoc frames (ping_chunk ∷ []) (pings n))
      (ping_all-Shows n (ping s).0 (frames ++ ping_chunk ∷ []) (ping-Shows s frames h))

abbrev pub receipt_frames : Option Bytes → List Bytes
receipt_frames (some receipt) = frame_of (codes "receipt") receipt ∷ []
receipt_frames none = []

-- The chunks of a run that has come to its end, each ping where its tick came.
abbrev pub run_chunks : Host → List Happening → List Bytes
run_chunks host hs =
    map (shown host) hs
    ++ (frame_of (codes "stats") host.stats
        ∷ (pings (host.ticks before_receipt)
            ++ (receipt_frames host.receipt
                ++ (pings (host.ticks before_last)
                    ++ (codes "data: [DONE]\n\n" ∷ pings (host.ticks before_end))))))

send_receipt-Shows :
    (host : Host) (o : Option Bytes) (s : Stream) (frames : List Bytes)
    → Shows s frames
    → Shows (send_receipt o s) (frames ++ receipt_frames o)
unfolding send_receipt
send_receipt-Shows host none s frames h = subst (Shows s) (sym (append-nil frames)) h
send_receipt-Shows host (some receipt) s frames h = send-Shows (codes "receipt") receipt s frames h

regroup :
    (a : List Bytes) (b : Bytes) (c d e : List Bytes) (f : Bytes) (g : List Bytes)
    → (((((a ++ b ∷ []) ++ c) ++ d) ++ e) ++ f ∷ []) ++ g ≡ a ++ (b ∷ (c ++ (d ++ (e ++ (f ∷ g)))))
regroup a b c d e f g =
    append_assoc ((((a ++ b ∷ []) ++ c) ++ d) ++ e) (f ∷ []) g
    ∙ append_assoc (((a ++ b ∷ []) ++ c) ++ d) e (f ∷ g)
    ∙ append_assoc ((a ++ b ∷ []) ++ c) d (e ++ (f ∷ g))
    ∙ append_assoc (a ++ b ∷ []) c (d ++ (e ++ (f ∷ g)))
    ∙ append_assoc a (b ∷ []) (c ++ (d ++ (e ++ (f ∷ g))))

send_last-Shows :
    (s : Stream) (frames : List Bytes)
    → Shows s frames
    → Shows (send_raw (codes "data: [DONE]\n\n") s).0 (frames ++ codes "data: [DONE]\n\n" ∷ [])
send_last-Shows s frames (p, q) =
    let k = send_raw-live (codes "data: [DONE]\n\n") s q in
    (k.0 ∙ ap (λ z. z ++ codes "data: [DONE]\n\n" ∷ []) p, k.1)

finish_stream-Shows :
    (host : Host) (s : Stream) (frames : List Bytes)
    → Shows s frames
    → Shows (finish_stream host none s) (
        (((((frames ++ frame_of (codes "stats") host.stats ∷ [])
                ++ pings (host.ticks before_receipt))
              ++ receipt_frames host.receipt)
            ++ pings (host.ticks before_last))
          ++ codes "data: [DONE]\n\n" ∷ [])
        ++ pings (host.ticks before_end))
unfolding finish_stream
finish_stream-Shows host s frames h =
    let body = frames ++ frame_of (codes "stats") host.stats ∷ [] in
    let stats = (send_json (codes "stats") (some host.stats) s).0 in
    let reported = ping_all (host.ticks before_receipt) stats in
    let received = ping_all (host.ticks before_last) (send_receipt host.receipt reported) in
    let told = body ++ pings (host.ticks before_receipt) in
    let a =
      ping_all-Shows (host.ticks before_receipt) stats body
        (send-Shows (codes "stats") host.stats s frames h) in
    let b = send_receipt-Shows host host.receipt reported told a in
    let c =
      ping_all-Shows (host.ticks before_last) (send_receipt host.receipt reported)
        (told ++ receipt_frames host.receipt) b in
    let d =
      send_last-Shows received
        ((told ++ receipt_frames host.receipt) ++ pings (host.ticks before_last)) c in
    ping_all-Shows (host.ticks before_end) (send_raw (codes "data: [DONE]\n\n") received).0
      (((told ++ receipt_frames host.receipt) ++ pings (host.ticks before_last))
        ++ codes "data: [DONE]\n\n" ∷ [])
      d

answer_run-chunks :
    (host : Host) (hs : List Happening) (s : Stream)
    → Shows s []
    → (answer_run host (hs, none) s).body ≡ run_chunks host hs
unfolding answer_run stop
answer_run-chunks host hs s h =
    (finish_stream-Shows host (send_deltas host.encode_delta hs s) (map (shown host) hs)
      (send_deltas-Shows host hs s [] h)).0
    ∙ regroup (map (shown host) hs) (frame_of (codes "stats") host.stats)
        (pings (host.ticks before_receipt)) (receipt_frames host.receipt)
        (pings (host.ticks before_last)) (codes "data: [DONE]\n\n") (pings (host.ticks before_end))

opened-Shows : (r : Response) (s : Stream) → IsFresh r → new_stream true r ≡ ok s → Shows s []
opened-Shows r s (p, b, k) n = let (x, y) = opened r s k n in (x ∙ b, y)

served_run :
    (host : Host) (caller : Bytes) (q : FairQueue) (r : Response) (req : InferenceRequest)
    (model : HostedModelRecord) (level : ThinkingLevel) (h : ℕ) (work : Work)
    (happenings : List Happening)
    → IsFresh r
    → (execute q caller req.request_id (some model) req.messages level).1 ≡ ok (started h, work)
    → host.run work ≡ (happenings, none)
    → (serve_stream host caller q (req, (model, level)) r (new_stream true r)).0.body
      ≡ run_chunks host happenings
unfolding serve_stream answer_execution new_stream
served_run host caller q r req model level h work happenings f x w =
    rw (x, w) (answer_run-chunks host happenings _ (opened-Shows r _ f refl))

-- If a request that passed the checks on a connection that can stream is started at once and its
-- run ends without an error, then, wherever the keepalive ticks during the run and after it, the
-- body of a fresh response is exactly the deltas' frames in their order, the statistics, the
-- receipt if there is one and the last frame, with a ping as a chunk of its own at the place of
-- each tick.
pub handle_inference-Streamed :
    (host : Host) (caller : Bytes) (request : Option InferenceRequest) (q : FairQueue)
    (r : Response) (req : InferenceRequest) (model : HostedModelRecord) (level : ThinkingLevel)
    (h : ℕ) (work : Work) (happenings : List Happening)
    → IsFresh r
    → host.is_flusher ≡ true
    → check_request host request ≡ ok (req, (model, level))
    → (execute q caller req.request_id (some model) req.messages level).1 ≡ ok (started h, work)
    → host.run work ≡ (happenings, none)
    → (handle_inference host caller request q r).0.body ≡ run_chunks host happenings
unfolding handle_inference serve_checked
handle_inference-Streamed host caller request q r req model level h work happenings f l c x w =
    rw (c, l) (served_run host caller q r req model level h work happenings f x w)
