-- ===== src/TestServer/Serve.antt =====
-- `AdsClientConnection.run` of src/pyads/testserver/testserver.py: the loop of the thread that
-- serves one client, over any request handler.
pub mod Answers
use pyads_agile.Prelude.{ℕ, List, [], ◌∷◌, ◌++◌, ltb, if◌then◌else◌, length, Error, Result, ok, err}
use pyads_agile.Python.Bytes.{Bytes}
use pyads_agile.Python.Exec.{Exec}
use pyads_agile.TestServer.Packet.{
  AmsPacket, AmsResponseData, construct_request, construct_response,
}

-- The thread waits for data, has left its loop, or was ended by an exception.
pub data Status : Type 0 where
  listening closed : Status
  crashed : Error → Status

pub record Session (S : Type 0) : Type 0 where
  pub status : Status
  pub request_history : List AmsPacket
  pub handler : S
  pub sent : List Bytes

module _ {S : Type 0} where
  -- `construct_response` and `client.send`
  pub send_response : Result Bytes → Session S → Session S
  send_response (ok bs) s = record s { sent = s.sent ++ bs ∷ [] }
  send_response (err e) s = record s { status = crashed e }

  pub reply_to : AmsPacket → Result AmsResponseData → Session S → Session S
  unfolding send_response
  reply_to request (ok response) s = send_response (construct_response response request) s
  reply_to request (err e) s = record s { status = crashed e }

  pub delegate : (AmsPacket → Exec S AmsResponseData) → AmsPacket → Session S → Session S
  unfolding reply_to
  delegate handle request s =
      let (r, handler') = handle request s.handler in
      reply_to request r
        (record s { request_history = s.request_history ++ request ∷ []; handler = handler' })

  -- one round of the loop, with what `recvfrom` gave
  unfoldable pub receive : (AmsPacket → Exec S AmsResponseData) → Bytes → Session S → Session S
  unfolding delegate
  receive handle [] s = record s { status = closed }
  receive handle (b ∷ bs) s =
      if ltb (length (b ∷ bs)) 38 then s else delegate handle (construct_request (b ∷ bs)) s

  -- the loop, over what the client sends
  unfoldable pub run : (AmsPacket → Exec S AmsResponseData) → List Bytes → Session S → Session S
  unfolding receive
  run handle [] s = s
  run handle (chunk ∷ chunks) s = elim s.status [
    | listening ↦ run handle chunks (receive handle chunk s)
    | closed ↦ s
    | crashed e ↦ s
  ]
