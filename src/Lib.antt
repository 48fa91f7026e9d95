-- ===== src/Lib.antt =====
-- pyads is a Python client for the ADS protocol of TwinCAT controllers, with a test server that plays
-- the controller. This library models the parts below as executable functions over bytes and states
-- their correctness. Paths are from the repository's root.
--
-- Files:
--   Prelude, Prelude/*: helpers on lists and numbers, Python's exceptions as a result type.
--   Python, Python/*: struct.pack and struct.unpack for little-endian integers (Bytes), UTF-8 (Utf8),
--     UTF-16 (Utf16), dicts (Dict), signed integers (Int), bit_or (Bits), code that reads and
--     writes an object and may raise (Exec).
--   TestServer/Packet, Packet/*: the packets of src/pyads/testserver/handler.py and
--     construct_request and construct_response of src/pyads/testserver/testserver.py.
--   TestServer/Variable: PLCVariable of src/pyads/testserver/advanced_handler.py and dt_to_filetime of
--     src/pyads/filetimes.py.
--   TestServer/Store: the dict of variables, the searches through it, the lists of sum commands.
--   TestServer/Advanced, Advanced/*: AdvancedHandler; each command is a function of the same name, and
--     handle_request dispatches on the command id.
--   TestServer/Basic: BasicHandler of src/pyads/testserver/basic_handler.py.
--   TestServer/Serve, Serve/Answers: AdsClientConnection.run of src/pyads/testserver/testserver.py, over
--     any request handler.
--   Structure, Structure/*: size_of_structure, dict_from_bytes and bytes_from_dict of src/pyads/ads.py
--     (Codec), the Python values and definitions they work on (Value), scalars in the formats of
--     DATATYPE_MAP of src/pyads/constants.py (Scalar), STRING and WSTRING with
--     find_wstring_null_terminator of src/pyads/utils.py (Texts).
--   Client/Request: adsSyncReadReqEx2, adsSyncWriteReqEx and adsSyncReadWriteReqEx2 of
--     src/pyads/pyads_ex.py over the ADS library, which is a parameter.
--   Client/Handles, Handles/Balance: adsGetHandle, adsReleaseHandle, adsSyncReadByNameEx and
--     adsSyncWriteByNameEx of the same file, with the calls of the library that they make.
--   Client/Notifications, Notifications/Callbacks: adsSyncAddDeviceNotificationReqEx and
--     adsSyncDelDeviceNotificationReqEx of the same file, with callback_store.
--   Client/Sums, Sums/*: adsSumWrite of the same file: writes into the buffer (Splices, Texts), one value
--     (Encodes), and the batch at the test server (Batches).
--   Async/Queue: _submit, _worker_main and aclose of src/pyads/async_connection.py as a step relation; its
--     children name what one step can do (Effects) and prove the order of the calls (Order), that the
--     connection sees a sequential program (Serial), what becomes of futures (Futures, Drain, Stranded)
--     and how closing ends (Closes).
--   Async/StepChain, StepChain/*: AsyncStepChainRpcObject of the same file, with StepChainConfig of
--     src/pyads/rpc_interface.py: the names of the status (Membership, Symbols, Structures), its
--     evaluation and the wait (Completion, Waiting, Waiting/*), the request ids (Requests), and the wait
--     that notifications wake (Notify, Notify/*), with the notifications of src/pyads/connection.py
--     (Notify/Handles).
--   Async/StepChain/Config, Config/Names: _resolve_stepchain_config of src/pyads/rpc_interface.py.
--   Connection, Connection/*: read_list_by_name and write_list_by_name of src/pyads/connection.py, with the
--     slice generators of src/pyads/ads.py (Calls, Slices), the symbol cache (Symbols, Truths) and the reads (Lists).
--   Connection/Lifecycle, Lifecycle/Ports: open and close of the same file, over an interface of the router.
--   Tests: runs on concrete inputs, and instances of the results.
--
-- How the parts interact: the serving loop parses each chunk of bytes into a packet, hands it to a
-- handler, which changes its variables and may raise, and frames what the handler returns. A write to a
-- variable calls the callbacks that the client registered, in the order of callback_store. The
-- structures are the values that a client exchanges with a controller through such reads and writes. An
-- asynchronous connection hands the calls of many tasks to one worker thread, which makes them on a
-- synchronous connection; a step chain is such a call whose end is seen by polling.
--
-- Conventions: a byte is a number, a Python int of the wire has its width written out, and packing one
-- that does not fit raises. An exception leaves the changes that were made before it. An object that a
-- dict holds is changed by storing the changed record under its key.
--
-- Bounds: the rounds of a slice generator are as many as the list has elements, which is enough because
-- each round takes one at least; no other function of the model needs fuel. Loops are structural recursion on the list they go
-- through, or on the number of requests that a sum command names, on a structure
-- definition, or on the size of an array.
--
-- Not modelled: sockets, the threads of the server, select and logging; the memory behind ctypes
-- structures; time zones (the time of a notification is a number of seconds in the handler's
-- state); how a platform converts floats, which is a parameter of the structures, requests and sum
-- writes; of the client functions sum reads, routes and ports; of the connection all but the
-- lists, open and close; symbols, RPC objects and the decorators of RPC interfaces; net ids; the
-- methods of the asynchronous connection that only pass their arguments on; an event loop that is
-- closed while calls are under way.
pub mod Prelude
pub mod Python
pub mod TestServer
pub mod Structure
pub mod Client
pub mod Async
pub mod Connection
mod Tests
