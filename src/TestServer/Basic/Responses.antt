-- ===== src/TestServer/Basic/Responses.antt =====
-- The responses of `BasicHandler`.
use Prim.Native.Nat.{bit_or}
use pyads_agile.Prelude.{
  ℕ, ◌+◌, ◌*◌, ◌/◌, ◌≡◌, ◌≢◌, refl, sym, ◌∙◌, ap, [], ◌∷◌, Option, none, some, Result, ok, arith,
  Bool-cases, inl, inr, if◌then◌else◌, true, false, take, ok_inj, >>=-eq-ok,
}
use pyads_agile.Python.Bits.{bit_or-one}
use pyads_agile.Python.Bytes.{Bytes, pack, unpack, to_le, pack-eq, unpack-eq}
use pyads_agile.TestServer.Packet.{AmsPacket, AmsResponseData}
use pyads_agile.TestServer.Packet.Response.{is_known, IsResponse, IsResponse-IsReply}
use pyads_agile.TestServer.Serve.Answers.{Replies}
use pyads_agile.TestServer.Basic.{response_content, respond, handle_request}

response_content_known :
    (id : ℕ) (payload : Bytes) → is_known id ≡ true → response_content id payload ≢ none
unfolding response_content
response_content_known id payload h = ground arith

response_content_unknown :
    (id : ℕ) (payload : Bytes) → is_known id ≡ false → response_content id payload ≡ none
unfolding response_content
response_content_unknown id payload h = ground arith

module _ (state error_code : Bytes) {response : AmsResponseData} where
  respond_flags :
      (chosen : Option (Result Bytes))
      → respond state error_code chosen ≡ ok response
      → response.state_flags ≡ state
  unfolding respond
  respond_flags none e = cc
  respond_flags (some m) e = let (content, _, e') = >>=-eq-ok m _ e in cc

  respond_chosen :
      (chosen : Option (Result Bytes))
      → chosen ≢ none
      → respond state error_code chosen ≡ ok response
      → (response.error_code ≡ error_code) × (take 4 response.content ≡ 0 ∷ 0 ∷ 0 ∷ 0 ∷ [])
  unfolding respond
  respond_chosen none n e = absurd (n refl)
  respond_chosen (some m) n e =
      let (content, _, e') = >>=-eq-ok m _ e in
      (ap (λ r. r.error_code) (sym (ok_inj e')), ap (λ r. take 4 r.content) (sym (ok_inj e')))

  respond_unknown :
      respond state error_code none ≡ ok response
      → (response.error_code ≡ 8 ∷ 0 ∷ 0 ∷ 0 ∷ []) × (take 4 response.content ≡ [])
  unfolding respond
  respond_unknown e =
      (ap (λ r. r.error_code) (sym (ok_inj e)), ap (λ r. take 4 r.content) (sym (ok_inj e)))

  respond_codes :
      (id : ℕ) (payload : Bytes)
      → (respond state error_code (response_content id payload)) ≡ ok response
      → (response.error_code ≡ (if is_known id then error_code else 8 ∷ 0 ∷ 0 ∷ 0 ∷ []))
        × (take 4 response.content ≡ (if is_known id then 0 ∷ 0 ∷ 0 ∷ 0 ∷ [] else []))
  respond_codes id payload e = elim (Bool-cases (is_known id)) [
    | inl k ↦ rw k (respond_chosen _ (response_content_known id payload k) e)
    | inr k ↦ rw k (respond_unknown (rw (response_content_unknown id payload k) at e))
  ]

-- Whenever the basic handler returns, its response has the flags and the error codes that the
-- advanced handler's would have: the response bit is set, a known command gets the error code back
-- before a payload that starts with the error code 0, and any other gets the error code 8.
pub basic_handler-IsResponse :
    (request : AmsPacket) {response : AmsResponseData}
    → handle_request request ≡ ok response
    → IsResponse request response
unfolding handle_request
basic_handler-IsResponse request {response} e =
    let header = request.ams_header in
    let (id, unpacked, e₁) = >>=-eq-ok (unpack 2 header.command_id) _ e in
    let (flags, unpacked', e₂) = >>=-eq-ok (unpack 2 header.state_flags) _ e₁ in
    let (state, packed, e₃) = >>=-eq-ok (pack 2 (bit_or flags 1)) _ e₂ in
    let this = unpack-eq 2 header.command_id unpacked in
    let codes = respond_codes state header.error_code id header.payload e₃ in
    record {
      state_flags =
          respond_flags state header.error_code (response_content id header.payload) e₃
          ∙ pack-eq 2 (bit_or flags 1) packed
          ∙ ap (to_le 2) (bit_or-one flags)
          ∙ ap (λ n. to_le 2 (n / 2 * 2 + 1)) (unpack-eq 2 header.state_flags unpacked');
      error_code = rw this at codes.0;
      content = rw this at codes.1;
    }

pub basic_handler-Replies :
    {S : Type 0} → Replies {S = S} (λ request s. (handle_request request, s))
basic_handler-Replies = record {
  is_reply = λ request s framed e.
      IsResponse-IsReply request _ framed (basic_handler-IsResponse request e);
}
