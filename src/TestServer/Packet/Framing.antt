-- ===== src/TestServer/Packet/Framing.antt =====
-- Frames: what `construct_response` builds, `construct_request` takes apart again.
use pyads_agile.Prelude.{
  ℕ, ◌+◌, ◌^◌, ◌≤◌, ◌<◌, ◌≡◌, refl, sym, ap, [], ◌∷◌, ◌++◌, length, take, drop, length-append,
  take-append-drop, >>=-eq-ok, ok_inj, length-slice, slice-drop, slice_at, drop-append_left, ◌∙◌,
  arith, ok, append_assoc,
}
use pyads_agile.Python.Bytes.{Bytes, to_le, length-to_le, pack, pack-eq-ok, pack_fits}
use pyads_agile.TestServer.Packet.{
  AmsHeader, AmsPacket, AmsResponseData, construct_request, join_header, response_header,
  construct_response,
}

-- The widths of the fixed fields of an AMS header.
pub record IsFramed (h : AmsHeader) : Type 0 where
  pub target_net_id : length h.target_net_id ≡ 6
  pub target_port : length h.target_port ≡ 2
  pub source_net_id : length h.source_net_id ≡ 6
  pub source_port : length h.source_port ≡ 2
  pub command_id : length h.command_id ≡ 2
  pub state_flags : length h.state_flags ≡ 2
  pub ams_length : length h.ams_length ≡ 4
  pub error_code : length h.error_code ≡ 4
  pub invoke_id : length h.invoke_id ≡ 4

-- A header behind six bytes of TCP header is found again, field by field.
pub construct_request-join_header :
    (t : Bytes) (h : AmsHeader)
    → length t ≡ 4
    → IsFramed h
    → construct_request ((0 ∷ 0 ∷ []) ++ (t ++ join_header h))
      ≡ record { tcp_header = record { tcp_length = t }; ams_header = h }
unfolding construct_request join_header
construct_request-join_header t h lt f =
    let whole : Bytes = (0 ∷ 0 ∷ []) ++ (t ++ join_header h) in
    let p0 : Bytes = (0 ∷ 0 ∷ []) ++ t in
    let e0 : whole ≡ p0 ++ join_header h = refl in
    let l0 : length p0 ≡ 6 = omega (arith, length-append (0 ∷ 0 ∷ []) t) in
    let p1 : Bytes = p0 ++ h.target_net_id in
    let l1 : length p1 ≡ 12 = omega (arith, length-append p0 h.target_net_id) in
    let e1 = e0 ∙ sym (append_assoc p0 h.target_net_id _) in
    let p2 : Bytes = p1 ++ h.target_port in
    let l2 : length p2 ≡ 14 = omega (arith, length-append p1 h.target_port) in
    let e2 = e1 ∙ sym (append_assoc p1 h.target_port _) in
    let p3 : Bytes = p2 ++ h.source_net_id in
    let l3 : length p3 ≡ 20 = omega (arith, length-append p2 h.source_net_id) in
    let e3 = e2 ∙ sym (append_assoc p2 h.source_net_id _) in
    let p4 : Bytes = p3 ++ h.source_port in
    let l4 : length p4 ≡ 22 = omega (arith, length-append p3 h.source_port) in
    let e4 = e3 ∙ sym (append_assoc p3 h.source_port _) in
    let p5 : Bytes = p4 ++ h.command_id in
    let l5 : length p5 ≡ 24 = omega (arith, length-append p4 h.command_id) in
    let e5 = e4 ∙ sym (append_assoc p4 h.command_id _) in
    let p6 : Bytes = p5 ++ h.state_flags in
    let l6 : length p6 ≡ 26 = omega (arith, length-append p5 h.state_flags) in
    let e6 = e5 ∙ sym (append_assoc p5 h.state_flags _) in
    let p7 : Bytes = p6 ++ h.ams_length in
    let l7 : length p7 ≡ 30 = omega (arith, length-append p6 h.ams_length) in
    let e7 = e6 ∙ sym (append_assoc p6 h.ams_length _) in
    let p8 : Bytes = p7 ++ h.error_code in
    let l8 : length p8 ≡ 34 = omega (arith, length-append p7 h.error_code) in
    let e8 = e7 ∙ sym (append_assoc p7 h.error_code _) in
    let p9 : Bytes = p8 ++ h.invoke_id in
    let l9 : length p9 ≡ 38 = omega (arith, length-append p8 h.invoke_id) in
    let e9 = e8 ∙ sym (append_assoc p8 h.invoke_id _) in
    λ i. record {
      tcp_header = record {
        tcp_length = slice_at 2 6 whole (0 ∷ 0 ∷ []) t _ refl refl (omega arith) i;
      };
      ams_header = record {
        target_net_id = slice_at 6 12 whole p0 h.target_net_id _ e0 l0 (omega arith) i;
        target_port = slice_at 12 14 whole p1 h.target_port _ e1 l1 (omega arith) i;
        source_net_id = slice_at 14 20 whole p2 h.source_net_id _ e2 l2 (omega arith) i;
        source_port = slice_at 20 22 whole p3 h.source_port _ e3 l3 (omega arith) i;
        command_id = slice_at 22 24 whole p4 h.command_id _ e4 l4 (omega arith) i;
        state_flags = slice_at 24 26 whole p5 h.state_flags _ e5 l5 (omega arith) i;
        ams_length = slice_at 26 30 whole p6 h.ams_length _ e6 l6 (omega arith) i;
        error_code = slice_at 30 34 whole p7 h.error_code _ e7 l7 (omega arith) i;
        invoke_id = slice_at 34 38 whole p8 h.invoke_id _ e8 l8 (omega arith) i;
        payload = (ap (drop 38) e9 ∙ drop-append_left 38 p9 h.payload l9) i;
      };
    }

-- Every frame of 38 bytes or more has a header of the right widths, and no byte of it is lost.
pub construct_request_lossless :
    (bs : Bytes)
    → 38 ≤ length bs
    → IsFramed (construct_request bs).ams_header
      × (take 6 bs ++ join_header (construct_request bs).ams_header ≡ bs)
unfolding construct_request join_header
construct_request_lossless bs h = (
  record {
    target_net_id = length-slice 6 12 6 bs (omega arith) refl;
    target_port = length-slice 12 14 2 bs (omega arith) refl;
    source_net_id = length-slice 14 20 6 bs (omega arith) refl;
    source_port = length-slice 20 22 2 bs (omega arith) refl;
    command_id = length-slice 22 24 2 bs (omega arith) refl;
    state_flags = length-slice 24 26 2 bs (omega arith) refl;
    ams_length = length-slice 26 30 4 bs (omega arith) refl;
    error_code = length-slice 30 34 4 bs (omega arith) refl;
    invoke_id = length-slice 34 38 4 bs (omega arith) refl;
  },
  rw
      (
        slice-drop 34 38 bs (omega arith),
        slice-drop 30 34 bs (omega arith),
        slice-drop 26 30 bs (omega arith),
        slice-drop 24 26 bs (omega arith),
        slice-drop 22 24 bs (omega arith),
        slice-drop 20 22 bs (omega arith),
        slice-drop 14 20 bs (omega arith),
        slice-drop 12 14 bs (omega arith),
        slice-drop 6 12 bs (omega arith),
      )
      (take-append-drop 6 bs),
)

-- What a response to a request has to look like for its frame to be well formed.
pub record IsReply (response : AmsResponseData) : Type 0 where
  pub state_flags : length response.state_flags ≡ 2
  pub error_code : length response.error_code ≡ 4

length-join_header : (h : AmsHeader) → IsFramed h → length (join_header h) ≡ 32 + length h.payload
unfolding join_header
length-join_header h f = simp length-append (omega arith)

response_header-IsFramed :
    (response : AmsResponseData) (h : AmsHeader) (n : ℕ)
    → IsFramed h
    → IsReply response
    → IsFramed (response_header response h (to_le 4 n))
unfolding response_header
response_header-IsFramed response h n f r = record {
  target_net_id = f.source_net_id;
  target_port = f.source_port;
  source_net_id = f.target_net_id;
  source_port = f.target_port;
  command_id = f.command_id;
  state_flags = r.state_flags;
  ams_length = length-to_le 4 n;
  error_code = r.error_code;
  invoke_id = f.invoke_id;
}

-- A well-formed response that fits 32 bits becomes a frame, and the frame parses back to the
-- request's header with source and target exchanged, the response's flags, error code and content,
-- and both length fields right.
pub construct_request-construct_response :
    (response : AmsResponseData) (request : AmsPacket)
    → IsFramed request.ams_header
    → IsReply response
    → 32 + length response.content < 2 ^ 32
    → (bs : Bytes) × (construct_response response request ≡ ok bs)
      × (construct_request bs ≡ record {
        tcp_header = record { tcp_length = to_le 4 (32 + length response.content) };
        ams_header =
            response_header response request.ams_header (to_le 4 (length response.content));
      })
unfolding construct_response
construct_request-construct_response response request f r small =
    let n = length response.content in
    let h = response_header response request.ams_header (to_le 4 n) in
    let framed = response_header-IsFramed response request.ams_header n f r in
    let size : length (join_header h) ≡ 32 + n =
      unfold response_header in length-join_header h framed in
    (
      (0 ∷ 0 ∷ []) ++ (to_le 4 (32 + n) ++ join_header h),
      rw (pack-eq-ok 4 n (omega arith), size, pack-eq-ok 4 (32 + n) small),
      construct_request-join_header (to_le 4 (32 + n)) h (length-to_le 4 (32 + n)) framed,
    )

-- Only a response that fits 32 bits becomes a frame.
pub construct_response_fits :
    (response : AmsResponseData) (request : AmsPacket) {bs : Bytes}
    → IsFramed request.ams_header
    → IsReply response
    → construct_response response request ≡ ok bs
    → 32 + length response.content < 2 ^ 32
unfolding construct_response
construct_response_fits response request f r e =
    let n = length response.content in
    let (ams, packed, e') = >>=-eq-ok (pack 4 n) _ e in
    let (tcp, packed', _) = >>=-eq-ok (pack 4 (length (join_header (header ams)))) _ e' in
    let known : ams ≡ to_le 4 n = ok_inj (sym packed ∙ pack-eq-ok 4 n (pack_fits 4 n packed)) in
    let size : length (join_header (header ams)) ≡ 32 + n = rw known (sizes n) in
    pack_fits 4 (32 + n) (rw size at packed')
  where
    header : Bytes → AmsHeader
    header ams = response_header response request.ams_header ams

    sizes : (n : ℕ) → length (join_header (header (to_le 4 n))) ≡ 32 + length response.content
    sizes n =
        unfold response_header in
        length-join_header (header (to_le 4 n)) (response_header-IsFramed response _ n f r)
