-- ===== src/TestServer/Packet.antt =====
-- The packets of src/pyads/testserver/handler.py, and the parsing and building of frames in
-- src/pyads/testserver/testserver.py.
pub mod Framing
pub mod Response
use pyads_agile.Prelude.{ℕ, ◌++◌, [], ◌∷◌, length, slice, drop, Result, ok, ◌>>=◌}
use pyads_agile.Python.Bytes.{Bytes, pack}

-- `AmsTcpHeader`
pub record AmsTcpHeader : Type 0 where
  pub tcp_length : Bytes

-- `AmsHeader`; the field `data` is `payload` here
pub record AmsHeader : Type 0 where
  pub target_net_id : Bytes
  pub target_port : Bytes
  pub source_net_id : Bytes
  pub source_port : Bytes
  pub command_id : Bytes
  pub state_flags : Bytes
  pub ams_length : Bytes
  pub error_code : Bytes
  pub invoke_id : Bytes
  pub payload : Bytes

-- `AmsPacket`
pub record AmsPacket : Type 0 where
  pub tcp_header : AmsTcpHeader
  pub ams_header : AmsHeader

-- `AmsResponseData`
pub record AmsResponseData : Type 0 where
  pub state_flags : Bytes
  pub error_code : Bytes
  pub content : Bytes

unfoldable pub construct_request : Bytes → AmsPacket
construct_request request_bytes = record {
  tcp_header = record { tcp_length = slice 2 6 request_bytes };
  ams_header = record {
    target_net_id = slice 6 12 request_bytes;
    target_port = slice 12 14 request_bytes;
    source_net_id = slice 14 20 request_bytes;
    source_port = slice 20 22 request_bytes;
    command_id = slice 22 24 request_bytes;
    state_flags = slice 24 26 request_bytes;
    ams_length = slice 26 30 request_bytes;
    error_code = slice 30 34 request_bytes;
    invoke_id = slice 34 38 request_bytes;
    payload = drop 38 request_bytes;
  };
}

-- the fields of a header, joined
unfoldable pub join_header : AmsHeader → Bytes
join_header h =
    h.target_net_id
    ++ (h.target_port
        ++ (h.source_net_id
            ++ (h.source_port
                ++ (h.command_id
                    ++ (h.state_flags
                        ++ (h.ams_length ++ (h.error_code ++ (h.invoke_id ++ h.payload))))))))

-- The response goes back to the source, so source and target change places.
unfoldable pub response_header : AmsResponseData → AmsHeader → Bytes → AmsHeader
response_header response request packed_length = record {
  target_net_id = request.source_net_id;
  target_port = request.source_port;
  source_net_id = request.target_net_id;
  source_port = request.target_port;
  command_id = request.command_id;
  state_flags = response.state_flags;
  ams_length = packed_length;
  error_code = response.error_code;
  invoke_id = request.invoke_id;
  payload = response.content;
}

unfoldable pub construct_response : AmsResponseData → AmsPacket → Result Bytes
construct_response response request = do
  packed_length ← pack 4 (length response.content)
  let header = join_header (response_header response request.ams_header packed_length)
  tcp_length ← pack 4 (length header)
  ok ((0 ∷ 0 ∷ []) ++ (tcp_length ++ header))
