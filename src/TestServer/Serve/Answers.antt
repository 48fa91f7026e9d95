-- ===== src/TestServer/Serve/Answers.antt =====
-- The loop answers each request that it accepts exactly once, in order.
use pyads_agile.Prelude.{
  ◌≡◌, refl, List, [], ◌∷◌, ◌++◌, ltb, length, Error, Result, ok, err, arith, Bool-cases, inl, inr,
  ◌⊎◌, ap, ◌∙◌, sym, ok_inj,
}
use pyads_agile.Python.Bytes.{Bytes, to_le}
use pyads_agile.Python.Exec.{Exec}
use pyads_agile.TestServer.Packet.{
  AmsPacket, AmsResponseData, construct_request, construct_response, response_header,
}
use pyads_agile.TestServer.Packet.Framing.{
  IsFramed, IsReply, construct_request-construct_response, construct_request_lossless,
  construct_response_fits,
}
use pyads_agile.TestServer.Serve.{
  Status, listening, closed, crashed, Session, send_response, reply_to, receive, run,
}

-- What a frame owes to the request that it answers.
pub record Answers (request : AmsPacket) (bs : Bytes) : Type 0 where
  pub target_net_id :
      (construct_request bs).ams_header.target_net_id ≡ request.ams_header.source_net_id
  pub target_port : (construct_request bs).ams_header.target_port ≡ request.ams_header.source_port
  pub source_net_id :
      (construct_request bs).ams_header.source_net_id ≡ request.ams_header.target_net_id
  pub source_port : (construct_request bs).ams_header.source_port ≡ request.ams_header.target_port
  pub command_id : (construct_request bs).ams_header.command_id ≡ request.ams_header.command_id
  pub invoke_id : (construct_request bs).ams_header.invoke_id ≡ request.ams_header.invoke_id
  pub ams_length :
      (construct_request bs).ams_header.ams_length
      ≡ to_le 4 (length (construct_request bs).ams_header.payload)

-- The sent frames answer the requests of the history one by one.
abbrev pub AllAnswered : List AmsPacket → List Bytes → Type 0
AllAnswered [] [] = Unit
AllAnswered (r ∷ rs) (b ∷ bs) = Answers r b × AllAnswered rs bs
AllAnswered _ _ = ⊥

AllAnswered-append :
    (rs : List AmsPacket) (bs : List Bytes) (r : AmsPacket) (b : Bytes)
    → AllAnswered rs bs
    → Answers r b
    → AllAnswered (rs ++ r ∷ []) (bs ++ b ∷ [])
AllAnswered-append [] [] r b h a = (a, tt)
AllAnswered-append [] (x ∷ bs) r b h a = absurd h
AllAnswered-append (x ∷ rs) [] r b h a = absurd h
AllAnswered-append (x ∷ rs) (y ∷ bs) r b h a = (h.0, AllAnswered-append rs bs r b h.1 a)

-- All requests are answered, but for the last one where handling it ended the thread.
abbrev pub Answered : Status → List AmsPacket → List Bytes → Type 0
Answered (crashed e) history sent =
    (rs : List AmsPacket) × (r : AmsPacket) × (history ≡ rs ++ r ∷ []) × AllAnswered rs sent
Answered _ history sent = AllAnswered history sent

abbrev pub IsAnswered : {S : Type 0} → Session S → Type 0
IsAnswered s = Answered s.status s.request_history s.sent

-- What the loop expects of a handler: replies to framed requests have fields of the right widths.
pub record Replies {S : Type 0} (handle : AmsPacket → Exec S AmsResponseData) : Type 0 where
  pub is_reply :
      (request : AmsPacket) (s : S) {response : AmsResponseData}
      → IsFramed request.ams_header
      → (handle request s).0 ≡ ok response
      → IsReply response

construct_response-Answers :
    (response : AmsResponseData) (request : AmsPacket) (bs : Bytes)
    → IsFramed request.ams_header
    → IsReply response
    → construct_response response request ≡ ok bs
    → Answers request bs
unfolding response_header
construct_response-Answers response request bs f r e =
    let small = construct_response_fits response request f r e in
    let (bs', built, parsed) = construct_request-construct_response response request f r small in
    let p = ap construct_request (ok_inj (sym e ∙ built)) ∙ parsed in
    record {
      target_net_id = ap (λ q. q.ams_header.target_net_id) p;
      target_port = ap (λ q. q.ams_header.target_port) p;
      source_net_id = ap (λ q. q.ams_header.source_net_id) p;
      source_port = ap (λ q. q.ams_header.source_port) p;
      command_id = ap (λ q. q.ams_header.command_id) p;
      invoke_id = ap (λ q. q.ams_header.invoke_id) p;
      ams_length =
          ap (λ q. q.ams_header.ams_length) p
          ∙ sym (ap (λ q. to_le 4 (length q.ams_header.payload)) p);
    }

Status-cases : (s : Status) → (s ≡ listening) ⊎ (s ≡ closed) ⊎ ((e : Error) × (s ≡ crashed e))
Status-cases listening = inl refl
Status-cases closed = inr (inl refl)
Status-cases (crashed e) = inr (inr (e, refl))

module _ {S : Type 0} (handle : AmsPacket → Exec S AmsResponseData) where
  send_response-IsAnswered :
      (request : AmsPacket) (response : AmsResponseData) (frame : Result Bytes) (s : Session S)
      (history : List AmsPacket)
      → s.status ≡ listening
      → s.request_history ≡ history ++ request ∷ []
      → construct_response response request ≡ frame
      → IsFramed request.ams_header
      → IsReply response
      → AllAnswered history s.sent
      → IsAnswered (send_response frame s)
  unfolding send_response
  send_response-IsAnswered request response (ok bs) s history l e c f r h =
      rw (l, e)
        (AllAnswered-append history s.sent request bs h
          (construct_response-Answers response request bs f r c))
  send_response-IsAnswered request response (err x) s history l e c f r h = (history, request, e, h)

  reply_to-IsAnswered :
      (request : AmsPacket) (r : Result AmsResponseData) (s : Session S) (history : List AmsPacket)
      → s.status ≡ listening
      → s.request_history ≡ history ++ request ∷ []
      → IsFramed request.ams_header
      → ((response : AmsResponseData) → r ≡ ok response → IsReply response)
      → AllAnswered history s.sent
      → IsAnswered (reply_to request r s)
  unfolding reply_to
  reply_to-IsAnswered request (ok response) s history l e f good h =
      send_response-IsAnswered request response _ s history l e refl f (good response refl) h
  reply_to-IsAnswered request (err x) s history l e f good h = (history, request, e, h)

  module _ (replies : Replies handle) where
    receive-IsAnswered :
        (chunk : Bytes) (s : Session S)
        → s.status ≡ listening
        → AllAnswered s.request_history s.sent
        → IsAnswered (receive handle chunk s)
    unfolding receive
    receive-IsAnswered [] s l h = h
    receive-IsAnswered (b ∷ bs) s l h = elim (Bool-cases (ltb (length (b ∷ bs)) 38)) [
      | inl short ↦ rw (short, l) h
      | inr long ↦
          let request = construct_request (b ∷ bs) in
          let framed = (construct_request_lossless (b ∷ bs) (ground arith)).0 in
          rw long (
            reply_to-IsAnswered request (handle request s.handler).0 _ s.request_history l refl
              framed (λ response e. replies.is_reply request s.handler framed e) h)
    ]

    -- From a session in which every request was answered, the loop over any chunks from the client
    -- ends in one in which every request of the history was answered by exactly one frame, in order,
    -- but for the last request where its handling raised; it is needed that the handler's replies to
    -- framed requests have fields of the right widths.
    pub run-IsAnswered :
        (chunks : List Bytes) (s : Session S) → IsAnswered s → IsAnswered (run handle chunks s)
    unfolding run
    run-IsAnswered [] s h = h
    run-IsAnswered (chunk ∷ chunks) s h = elim (Status-cases s.status) [
      | inl l ↦
          rw (l, run)
            (run-IsAnswered chunks (receive handle chunk s)
              (receive-IsAnswered chunk s l (rw l at h)))
      | inr (inl c) ↦ rw (c, run) h
      | inr (inr (e, c)) ↦ rw (c, run) h
    ]
