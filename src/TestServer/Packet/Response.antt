-- ===== src/TestServer/Packet/Response.antt =====
-- What a handler of src/pyads/testserver owes to a request in its response: the flags, the error
-- codes, and the commands that it knows.
use pyads_agile.Prelude.{
  ℕ, ◌+◌, ◌*◌, ◌/◌, ◌≡◌, ◌∙◌, ap, [], ◌∷◌, ◌&&◌, leb, if◌then◌else◌, length, take, Bool, Bool-cases,
  inl, inr,
}
use pyads_agile.Python.Bytes.{Bytes, to_le, of_le, length-to_le}
use pyads_agile.TestServer.Packet.{AmsPacket, AmsResponseData}
use pyads_agile.TestServer.Packet.Framing.{IsFramed, IsReply}

-- The ADS commands, from READ_DEVICE_INFO to READ_WRITE.
abbrev pub is_known : ℕ → Bool
is_known id = leb 1 id && leb id 9

-- The flags of a response: those of the request, with the response bit set.
abbrev pub response_flags : Bytes → Bytes
response_flags flags = to_le 2 (of_le flags / 2 * 2 + 1)

-- What a response has to do with the request that it answers.
pub record IsResponse (request : AmsPacket) (response : AmsResponseData) : Type 0 where
  pub state_flags : response.state_flags ≡ response_flags request.ams_header.state_flags
  pub error_code : response.error_code ≡ (
      if is_known (of_le request.ams_header.command_id)
      then request.ams_header.error_code
      else 8 ∷ 0 ∷ 0 ∷ 0 ∷ [])
  pub content :
      take 4 response.content
      ≡ (if is_known (of_le request.ams_header.command_id) then 0 ∷ 0 ∷ 0 ∷ 0 ∷ [] else [])

pub IsResponse-IsReply :
    (request : AmsPacket) (response : AmsResponseData)
    → IsFramed request.ams_header
    → IsResponse request response
    → IsReply response
IsResponse-IsReply request response framed r = record {
  state_flags = ap length r.state_flags ∙ length-to_le 2 _;
  error_code =
      ap length r.error_code ∙ elim (Bool-cases (is_known (of_le request.ams_header.command_id))) [
        | inl k ↦ rw k framed.error_code
        | inr k ↦ rw k
      ];
}
