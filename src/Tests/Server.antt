-- ===== src/Tests/Server.antt =====
-- The test server on concrete packets.
use pyads_agile.Prelude.{
  All, ℕ, ◌≡◌, refl, List, [], ◌∷◌, ◌++◌, some, if◌then◌else◌, ok, take, replicate, arith,
}
use pyads_agile.Python.Bytes.{Bytes, to_le, of_le, pack, unpack}
use pyads_agile.Python.Exec.{◌>>=◌}
use pyads_agile.TestServer.Packet.{
  AmsHeader, AmsPacket, AmsResponseData, construct_request, construct_response, join_header,
  response_header,
}
use pyads_agile.TestServer.Packet.Framing.{
  IsFramed, construct_request-construct_response, construct_request_lossless,
}
use pyads_agile.TestServer.Packet.Response.{IsResponse}
use pyads_agile.TestServer.Variable.{Variable, contains, remove, write}
use pyads_agile.TestServer.Store.{Entry, find}
use pyads_agile.TestServer.Store.Laws.{IsDict, same_key}
use pyads_agile.TestServer.Serve.{listening, Session, run}
use pyads_agile.TestServer.Serve.Answers.{IsAnswered, run-IsAnswered}
use pyads_agile.TestServer.Advanced.{
  Handler, handle_request, handle_read, handle_write, read_write_value, handle_delete_devicenote,
  run_command, read_value, get_variable_by_indices, respond,
}
use pyads_agile.TestServer.Advanced.Keeps.{Evolves}
use pyads_agile.TestServer.Advanced.Evolves.{handle_request-Evolves}
use pyads_agile.TestServer.Advanced.Values.{read_payload, write_payload, read_after_write, IsPlain}
use pyads_agile.TestServer.Advanced.Sums.{
  Item, requests_of, values_of, encode_requests, written, sum_write_batch,
}
use pyads_agile.TestServer.Advanced.Responses.{handle_request-IsResponse, handle_request-Replies}
use pyads_agile.TestServer.Advanced.Notifications.{calls_of, calls_of-write, delete_takes_first}
use pyads_agile.TestServer.Basic
use pyads_agile.TestServer.Basic.Responses.{basic_handler-IsResponse}

-- a READ of 4 bytes at index group 0x4020, offset 4
abbrev read_header : AmsHeader
read_header = record {
  target_net_id = 127 ∷ 0 ∷ 0 ∷ 1 ∷ 1 ∷ 1 ∷ [];
  target_port = 83 ∷ 3 ∷ [];
  source_net_id = 10 ∷ 0 ∷ 0 ∷ 7 ∷ 1 ∷ 1 ∷ [];
  source_port = 48 ∷ 117 ∷ [];
  command_id = 2 ∷ 0 ∷ [];
  state_flags = 4 ∷ 0 ∷ [];
  ams_length = 12 ∷ 0 ∷ 0 ∷ 0 ∷ [];
  error_code = 0 ∷ 0 ∷ 0 ∷ 0 ∷ [];
  invoke_id = 9 ∷ 0 ∷ 0 ∷ 0 ∷ [];
  payload = 32 ∷ 64 ∷ 0 ∷ 0 ∷ 4 ∷ 0 ∷ 0 ∷ 0 ∷ 4 ∷ 0 ∷ 0 ∷ 0 ∷ [];
}

abbrev read_request : AmsPacket
read_request = record {
  tcp_header = record { tcp_length = 44 ∷ 0 ∷ 0 ∷ 0 ∷ [] };
  ams_header = read_header;
}

read_header-IsFramed : IsFramed read_header
read_header-IsFramed = record {
  target_net_id = refl;
  target_port = refl;
  source_net_id = refl;
  source_port = refl;
  command_id = refl;
  state_flags = refl;
  ams_length = refl;
  error_code = refl;
  invoke_id = refl;
}

abbrev pub variable_at : ℕ → ℕ → ℕ → List ℕ → Variable
variable_at handle group offset notes = record {
  name = 120 ∷ handle ∷ [];
  value = 1 ∷ 2 ∷ 3 ∷ 4 ∷ [];
  ads_type = 19;
  symbol_type = 85 ∷ [];
  handle = handle;
  index_group = group;
  index_offset = offset;
  comment = [];
  notifications = notes;
  notification_count = 11;
}

abbrev entry_at : ℕ → ℕ → ℕ → Entry
entry_at handle group offset = record {
  group = group;
  offset = offset;
  var = variable_at handle group offset (10 ∷ []);
}

-- two variables, both with a notification of handle 10, and one callback
abbrev pub two_variables : Handler
two_variables = record {
  store = entry_at 10000 0x4020 4 ∷ entry_at 10001 0x4020 8 ∷ [];
  callbacks = record { address = 1; notification = 10 } ∷ [];
  now = 0;
  events = [];
}

two_variables-IsDict : IsDict two_variables.store
unfolding find
two_variables-IsDict = (refl, (refl, tt))

abbrev reply : AmsResponseData
reply = record {
  state_flags = 5 ∷ 0 ∷ [];
  error_code = 0 ∷ 0 ∷ 0 ∷ 0 ∷ [];
  content = 0 ∷ 0 ∷ 0 ∷ 0 ∷ 4 ∷ 0 ∷ 0 ∷ 0 ∷ 1 ∷ 2 ∷ 3 ∷ 4 ∷ [];
}

reads_four_bytes : (handle_request read_request two_variables).0 ≡ ok reply
unfolding handle_request ◌>>=◌ unpack pack of_le to_le run_command handle_read read_value
    get_variable_by_indices find respond
reads_four_bytes = refl

construct_request-construct_response_example :
    (bs : Bytes) × (construct_response reply read_request ≡ ok bs)
    × (construct_request bs ≡ record {
      tcp_header = record { tcp_length = to_le 4 44 };
      ams_header = response_header reply read_header (to_le 4 12);
    })
construct_request-construct_response_example =
    construct_request-construct_response reply read_request read_header-IsFramed
      (record { state_flags = refl; error_code = refl }) (omega arith)

construct_request_lossless_example :
    IsFramed (construct_request (replicate 40 7)).ams_header
    × (take 6 (replicate 40 7) ++ join_header (construct_request (replicate 40 7)).ams_header
        ≡ replicate 40 7)
construct_request_lossless_example = construct_request_lossless (replicate 40 7) (omega arith)

abbrev start : Session Handler
start = record { status = listening; request_history = []; handler = two_variables; sent = [] }

run-IsAnswered_example :
    IsAnswered (run handle_request (replicate 40 7 ∷ replicate 3 0 ∷ [] ∷ []) start)
run-IsAnswered_example =
    run-IsAnswered handle_request handle_request-Replies (replicate 40 7 ∷ replicate 3 0 ∷ [] ∷ [])
      start tt

handle_request-Evolves_example : Evolves two_variables (handle_request read_request two_variables).1
handle_request-Evolves_example =
    handle_request-Evolves read_request two_variables two_variables-IsDict

abbrev memory_group : ℕ
memory_group = 0x4020

memory_group-IsPlain : IsPlain memory_group
memory_group-IsPlain = record {
  not_value_by_handle = λ e. omega (arith, e);
  not_release_handle = λ e. omega (arith, e);
  not_upload = λ e. omega (arith, e);
  not_upload_info = λ e. omega (arith, e);
  not_handle_by_name = λ e. omega (arith, e);
  not_info_by_name = λ e. omega (arith, e);
  not_sum_read = λ e. omega (arith, e);
  not_sum_write = λ e. omega (arith, e);
}

pub stored_first : find 0x4020 4 two_variables.store ≡ some (variable_at 10000 0x4020 4 (10 ∷ []))
unfolding find
stored_first = refl

pub stored_second : find 0x4020 8 two_variables.store ≡ some (variable_at 10001 0x4020 8 (10 ∷ []))
unfolding find
stored_second = refl

read_after_write_example :
    let (r, h') = handle_write (write_payload 0x4020 4 (9 ∷ 8 ∷ [])) two_variables in
    (r ≡ ok [])
    × ((handle_read (read_payload 0x4020 4 1) h').0 ≡ ok (to_le 4 1 ++ 9 ∷ []))
    × ((k p : ℕ)
        → find k p h'.store ≡ (
            if same_key 0x4020 4 k p
            then some (record (variable_at 10000 0x4020 4 (10 ∷ [])) { value = 9 ∷ 8 ∷ [] })
            else find k p two_variables.store))
read_after_write_example =
    read_after_write two_variables 0x4020 4 1 (variable_at 10000 0x4020 4 (10 ∷ [])) (9 ∷ 8 ∷ [])
      stored_first memory_group-IsPlain (omega arith) (omega arith) (omega arith) (omega arith)

abbrev batch : List Item
batch =
    record { group = 0x4020; offset = 8; value = 7 ∷ [] }
    ∷ record { group = 0x4020; offset = 4; value = 6 ∷ 5 ∷ [] }
    ∷ record { group = 0x4020; offset = 8; value = 4 ∷ [] }
    ∷ []

sum_write_batch_example :
    let (r, h') =
      read_write_value 0xF081 3 0
        (encode_requests (requests_of batch) ++ values_of batch)
        two_variables in
    (r ≡ ok (replicate 12 0))
    × ((k p : ℕ) → find k p h'.store ≡ written batch k p (find k p two_variables.store))
sum_write_batch_example =
    sum_write_batch batch 0 two_variables
      (
        record { group = omega arith; offset = omega arith; size = omega arith },
        (
          record { group = omega arith; offset = omega arith; size = omega arith },
          (record { group = omega arith; offset = omega arith; size = omega arith }, tt),
        ),
      )
      ((_, stored_second), ((_, stored_first), ((_, stored_second), tt)))

handle_request-IsResponse_example : IsResponse read_request reply
handle_request-IsResponse_example =
    handle_request-IsResponse read_request two_variables reads_four_bytes

-- the reply of the basic handler to the same request
abbrev basic_reply : AmsResponseData
basic_reply = record {
  state_flags = 5 ∷ 0 ∷ [];
  error_code = 0 ∷ 0 ∷ 0 ∷ 0 ∷ [];
  content = 0 ∷ 0 ∷ 0 ∷ 0 ∷ 4 ∷ 0 ∷ 0 ∷ 0 ∷ 15 ∷ 15 ∷ 15 ∷ 0 ∷ [];
}

reads_filler : Basic.handle_request read_request ≡ ok basic_reply
unfolding Basic.handle_request unpack pack of_le to_le Basic.response_content Basic.handle_read
    Basic.respond Basic.filler
reads_filler = refl

basic_handler-IsResponse_example : IsResponse read_request basic_reply
basic_handler-IsResponse_example = basic_handler-IsResponse read_request reads_filler

calls_of-write_example :
    All
      (λ e. e.sample ≡ 9 ∷ [])
      (write 0 two_variables.callbacks (9 ∷ []) (variable_at 10000 0x4020 4 (10 ∷ []))).1
    × (calls_of 1 10
          (write 0 two_variables.callbacks (9 ∷ []) (variable_at 10000 0x4020 4 (10 ∷ []))).1
        ≡ 1)
calls_of-write_example =
    calls_of-write 0 1 10 two_variables.callbacks (9 ∷ []) (variable_at 10000 0x4020 4 (10 ∷ []))

delete_takes_first_example :
    let h' = (handle_delete_devicenote (to_le 4 10) two_variables).1 in
    (find 0x4020 4 h'.store ≡ some (variable_at 10000 0x4020 4 []))
    × (find 0x4020 8 h'.store ≡ some (variable_at 10001 0x4020 8 (10 ∷ [])))
unfolding contains remove
delete_takes_first_example =
    delete_takes_first two_variables (entry_at 10000 0x4020 4) (entry_at 10001 0x4020 8 ∷ []) 0x4020
      8 10 (variable_at 10001 0x4020 8 (10 ∷ [])) refl (omega arith) refl refl (unfold find in refl)
