-- ===== src/Sse.antt =====
-- internal/sse/sse.go: one stream of server-sent events on one response. A response of net/http sends
-- its status once, with the first write, flush or WriteHeader, and later statuses are ignored; each
-- write is one chunk of its body, and fails when the connection is gone. Deadlines are left out.
pub mod Frames
use woolwire.Base.{
  Bool, Bytes, List, Option, Result, [], codes, err, false, if◌then◌else◌, length, none, ok, some,
  true, ℕ, ◌++◌, ◌==◌, ◌∷◌,
}

pub record Response : Type 0 where
  pub status : Option ℕ
  pub body : List Bytes
  pub broken : Bool

abbrev pub new_response : Response
new_response = record { status = none; body = []; broken = false }

abbrev pub status_ok : ℕ
status_ok = 200

unfoldable pub write_header : ℕ → Response → Response
write_header code r = record r { status = elim r.status [ some c ↦ some c | none ↦ some code ] }

-- A write that fails reaches nobody.
unfoldable pub write_chunk : Bytes → Response → Response
unfolding write_header
write_chunk chunk r =
    if r.broken then r else record (write_header status_ok r) { body = r.body ++ chunk ∷ [] }

unfoldable pub flush : Response → Response
unfolding write_header
flush r = write_header status_ok r

-- `http.Error`
unfoldable pub http_error : Bytes → ℕ → Response → Response
unfolding write_header write_chunk
http_error message code r = write_chunk (message ++ 10 ∷ []) (write_header code r)

pub record Stream : Type 0 where
  pub response : Response
  pub closed : Bool

pub data Error : Type 0 where
  streaming_unsupported stream_closed write_failed marshal_failed : Error

unfoldable pub new_stream : Bool → Response → Result Error Stream
unfolding flush
new_stream is_flusher r =
    if is_flusher
    then ok (record { response = flush r; closed = false })
    else err streaming_unsupported

unfoldable pub send_raw : Bytes → Stream → Stream × Result Error (Unit {0})
unfolding write_chunk flush
send_raw frame s =
    if s.closed
    then (s, err stream_closed)
    else if s.response.broken
    then (s, err write_failed)
    else (record s { response = flush (write_chunk frame s.response) }, ok tt)

-- A frame of a payload that is JSON already, under an event's name or none.
unfoldable pub frame_of : Bytes → Bytes → Bytes
frame_of event payload =
    if length event == 0
    then codes "data: " ++ payload ++ codes "\n\n"
    else codes "event: " ++ event ++ codes "\ndata: " ++ payload ++ codes "\n\n"

unfoldable pub send_json : Bytes → Option Bytes → Stream → Stream × Result Error (Unit {0})
unfolding send_raw frame_of
send_json event (some payload) s = send_raw (frame_of event payload) s
send_json event none s = (s, err marshal_failed)

-- One tick of `keepalive`.
unfoldable pub ping : Stream → Stream × Result Error (Unit {0})
unfolding send_raw
ping s = send_raw (codes ": ping\n\n") s

unfoldable pub stop : Stream → Stream
stop s = record s { closed = true }
