-- ===== src/Sse/Frames.antt =====
-- sse.go: what the sends of a stream leave in its response.
use mathlib.Core.List.{append-nil, append_assoc}
use woolwire.Base.{
  Bool, Bytes, List, [], ap, arith, codes, false, none, ok, refl, some, sym, true, ℕ, ◌++◌, ◌||◌,
  ◌∙◌, ◌∷◌, ◌≡◌,
}
use woolwire.Sse.{
  Response, Stream, write_header, write_chunk, flush, http_error, new_stream, send_raw, ping, stop,
}

-- The handler and the keepalive, in any order: frames, pings, a broken connection, and the end.
pub data Send : Type 0 where
  frame : Bytes → Send
  tick : Send
  breaks : Send
  stops : Send

abbrev pub send : Send → Stream → Stream
send (frame f) s = (send_raw f s).0
send tick s = (ping s).0
send breaks s = record s { response = record s.response { broken = true } }
send stops s = stop s

abbrev pub send_all : List Send → Stream → Stream
send_all [] s = s
send_all (x ∷ xs) s = send_all xs (send x s)

-- The chunks of what is sent before the stream ends or breaks.
abbrev pub sent : List Send → List Bytes
sent [] = []
sent (frame f ∷ xs) = f ∷ sent xs
sent (tick ∷ xs) = codes ": ping\n\n" ∷ sent xs
sent (breaks ∷ xs) = []
sent (stops ∷ xs) = []

-- A stream that takes nothing any more.
abbrev pub is_over : Stream → Bool
is_over s = s.closed || s.response.broken

-- A send to a stream that is over, or not.
pub send_raw-over :
    (f : Bytes) (s : Stream)
    → is_over s ≡ true
    → ((send_raw f s).0.response.body ≡ s.response.body) × (is_over (send_raw f s).0 ≡ true)
unfolding send_raw
send_raw-over f s h = ground (arith, h)

pub send_raw-live :
    (f : Bytes) (s : Stream)
    → is_over s ≡ false
    → ((send_raw f s).0.response.body ≡ s.response.body ++ f ∷ [])
      × (is_over (send_raw f s).0 ≡ false)
unfolding send_raw write_chunk flush write_header
send_raw-live f s h = ground (arith, h)

send-over :
    (x : Send) (s : Stream)
    → is_over s ≡ true
    → ((send x s).response.body ≡ s.response.body) × (is_over (send x s) ≡ true)
unfolding ping stop
send-over (frame f) s h = send_raw-over f s h
send-over tick s h = send_raw-over (codes ": ping\n\n") s h
send-over breaks s h = (refl, ground (arith, h))
send-over stops s h = (refl, ground (arith, h))

send_all-over :
    (xs : List Send) (s : Stream)
    → is_over s ≡ true
    → (send_all xs s).response.body ≡ s.response.body
send_all-over [] s h = refl
send_all-over (x ∷ xs) s h = let k = send-over x s h in send_all-over xs (send x s) k.1 ∙ k.0

send_all-live :
    (xs : List Send) (s : Stream)
    → is_over s ≡ false
    → (send_all xs s).response.body ≡ s.response.body ++ sent xs
unfolding ping stop
send_all-live [] s h = sym (append-nil s.response.body)
send_all-live (frame f ∷ xs) s h =
    let k = send_raw-live f s h in
    send_all-live xs (send_raw f s).0 k.1
    ∙ ap (λ b. b ++ sent xs) k.0
    ∙ append_assoc s.response.body (f ∷ []) (sent xs)
send_all-live (tick ∷ xs) s h =
    let k = send_raw-live (codes ": ping\n\n") s h in
    send_all-live xs (ping s).0 k.1
    ∙ ap (λ b. b ++ sent xs) k.0
    ∙ append_assoc s.response.body (codes ": ping\n\n" ∷ []) (sent xs)
send_all-live (breaks ∷ xs) s h =
    send_all-over xs (send breaks s) (ground (arith, h)) ∙ sym (append-nil s.response.body)
send_all-live (stops ∷ xs) s h =
    send_all-over xs (send stops s) refl ∙ sym (append-nil s.response.body)

pub opened :
    (r : Response) (s : Stream)
    → r.broken ≡ false
    → new_stream true r ≡ ok s
    → (s.response.body ≡ r.body) × (is_over s ≡ false)
unfolding new_stream flush write_header
opened r s b e = ground (arith, b, e)

-- Whatever the order of frames, keepalive ticks, a broken connection and the end of a stream that
-- was opened on an unbroken connection, its response's body is what it was and then the frames and
-- ticks, whole and in their order, that came before the first break or end.
pub send_all-sent :
    (r : Response) (s : Stream) (xs : List Send)
    → r.broken ≡ false
    → new_stream true r ≡ ok s
    → (send_all xs s).response.body ≡ r.body ++ sent xs
send_all-sent r s xs b e =
    let (p, q) = opened r s b e in send_all-live xs s q ∙ ap (λ z. z ++ sent xs) p

pub stream_of :
    (r : Response) (s : Stream)
    → r.status ≡ none
    → r.broken ≡ false
    → new_stream true r ≡ ok s
    → (s.response.status ≡ some 200) × ((s.response.broken ≡ false) × (s.response.body ≡ r.body))
unfolding new_stream flush write_header
stream_of r s n b e = ground (arith, n, b, e)

http_error_late :
    (message : Bytes) (code : ℕ) (r : Response) (body : List Bytes)
    → r.status ≡ some 200
    → r.broken ≡ false
    → r.body ≡ body
    → ((http_error message code r).status ≡ some 200)
      × ((http_error message code r).body ≡ body ++ (message ++ 10 ∷ []) ∷ [])
unfolding http_error write_chunk write_header
http_error_late message code r body p q k = rw (q, p, k) (refl, refl)

-- An error that comes once the stream is open does not get its status: the text of the error is one
-- more chunk of the stream.
pub http_error-open :
    (r : Response) (s : Stream) (message : Bytes) (code : ℕ)
    → r.status ≡ none
    → r.broken ≡ false
    → new_stream true r ≡ ok s
    → ((http_error message code s.response).status ≡ some 200)
      × ((http_error message code s.response).body ≡ r.body ++ (message ++ 10 ∷ []) ∷ [])
http_error-open r s message code n b e =
    let k = stream_of r s n b e in http_error_late message code s.response r.body k.0 k.1.0 k.1.1
