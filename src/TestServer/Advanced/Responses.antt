-- ===== src/TestServer/Advanced/Responses.antt =====
-- The header and the error codes of the responses of `AdvancedHandler.handle_request`.
use Prim.Native.Nat.{bit_or}
use pyads_agile.Prelude.{
  ℕ, ◌+◌, ◌*◌, ◌/◌, ◌≡◌, refl, sym, ◌∙◌, ap, [], ◌∷◌, Option, none, some, ok, arith, if◌then◌else◌,
  take, Bool-cases, inl, inr, true, false, ok_inj, ◌≢◌,
}
use pyads_agile.Python.Bits.{bit_or-one}
use pyads_agile.Python.Bytes.{Bytes, pack, unpack, to_le, pack-eq, unpack-eq}
use pyads_agile.Python.Exec.{pure, >>=-eq-ok, lift->>=-eq-ok}
use pyads_agile.TestServer.Packet.{AmsPacket, AmsResponseData}
use pyads_agile.TestServer.Packet.Response.{is_known, IsResponse, IsResponse-IsReply}
use pyads_agile.TestServer.Serve.Answers.{Replies}
use pyads_agile.TestServer.Advanced.{Handler, Action, run_command, respond, handle_request}

run_command_known : (id : ℕ) (payload : Bytes) → is_known id ≡ true → run_command id payload ≢ none
unfolding run_command
run_command_known id payload h = ground arith

run_command_unknown :
    (id : ℕ) (payload : Bytes) → is_known id ≡ false → run_command id payload ≡ none
unfolding run_command
run_command_unknown id payload h = ground arith

module _ (state error_code : Bytes) (h : Handler) {response : AmsResponseData} where
  respond_flags :
      (chosen : Option (Action Bytes))
      → (respond state error_code chosen h).0 ≡ ok response
      → response.state_flags ≡ state
  unfolding respond pure
  respond_flags none e = cc
  respond_flags (some m) e = let (content, _, e') = >>=-eq-ok m _ h e in cc

  respond_chosen :
      (chosen : Option (Action Bytes))
      → chosen ≢ none
      → (respond state error_code chosen h).0 ≡ ok response
      → (response.error_code ≡ error_code) × (take 4 response.content ≡ 0 ∷ 0 ∷ 0 ∷ 0 ∷ [])
  unfolding respond pure
  respond_chosen none n e = absurd (n refl)
  respond_chosen (some m) n e =
      let (content, _, e') = >>=-eq-ok m _ h e in
      (ap (λ r. r.error_code) (sym (ok_inj e')), ap (λ r. take 4 r.content) (sym (ok_inj e')))

  respond_unknown :
      (respond state error_code none h).0 ≡ ok response
      → (response.error_code ≡ 8 ∷ 0 ∷ 0 ∷ 0 ∷ []) × (take 4 response.content ≡ [])
  unfolding respond pure
  respond_unknown e =
      (ap (λ r. r.error_code) (sym (ok_inj e)), ap (λ r. take 4 r.content) (sym (ok_inj e)))

  respond_codes :
      (id : ℕ) (payload : Bytes)
      → (respond state error_code (run_command id payload) h).0 ≡ ok response
      → (response.error_code ≡ (if is_known id then error_code else 8 ∷ 0 ∷ 0 ∷ 0 ∷ []))
        × (take 4 response.content ≡ (if is_known id then 0 ∷ 0 ∷ 0 ∷ 0 ∷ [] else []))
  respond_codes id payload e = elim (Bool-cases (is_known id)) [
    | inl k ↦ rw k (respond_chosen _ (run_command_known id payload k) e)
    | inr k ↦ rw k (respond_unknown (rw (run_command_unknown id payload k) at e))
  ]

-- Whenever the handler returns, the response bit is set and the other flags are the request's; a
-- known command gets the request's error code back before a payload that starts with the error code
-- 0, and any other command gets the error code 8 and no payload.
pub handle_request-IsResponse :
    (request : AmsPacket) (h : Handler) {response : AmsResponseData}
    → (handle_request request h).0 ≡ ok response
    → IsResponse request response
unfolding handle_request
handle_request-IsResponse request h {response} e =
    let header = request.ams_header in
    let (id, unpacked, e₁) = lift->>=-eq-ok (unpack 2 header.command_id) _ h e in
    let (flags, unpacked', e₂) = lift->>=-eq-ok (unpack 2 header.state_flags) _ h e₁ in
    let (state, packed, e₃) = lift->>=-eq-ok (pack 2 (bit_or flags 1)) _ h e₂ in
    let this = unpack-eq 2 header.command_id unpacked in
    let codes = respond_codes state header.error_code h id header.payload e₃ in
    record {
      state_flags =
          respond_flags state header.error_code h (run_command id header.payload) e₃
          ∙ pack-eq 2 (bit_or flags 1) packed
          ∙ ap (to_le 2) (bit_or-one flags)
          ∙ ap (λ n. to_le 2 (n / 2 * 2 + 1)) (unpack-eq 2 header.state_flags unpacked');
      error_code = rw this at codes.0;
      content = rw this at codes.1;
    }

-- So `AdvancedHandler` is a handler that the serving loop can rely on.
pub handle_request-Replies : Replies handle_request
handle_request-Replies = record {
  is_reply = λ request h framed e.
      IsResponse-IsReply request _ framed (handle_request-IsResponse request h e);
}
