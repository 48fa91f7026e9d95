-- ===== src/TestServer/Advanced/Evolves.antt =====
-- What no request can change in an `AdvancedHandler`, for every packet, well formed or not, and
-- whether or not handling it raises.
use pyads_agile.Prelude.{
  ℕ, List, [], ◌∷◌, Option, none, some, ◌==◌, if◌then◌else◌, take, drop, Bool, true, false,
}
use pyads_agile.Python.Bytes.{Bytes}
use pyads_agile.Python.Exec.{pure, ◌>>=◌, ◌>>◌}
use pyads_agile.TestServer.Packet.{AmsPacket}
use pyads_agile.TestServer.Store.{find, SumRequest}
use pyads_agile.TestServer.Store.Laws.{IsDict}
use pyads_agile.TestServer.Advanced.Keeps.{
  Evolves, Keeps, Keeps-pure, Keeps-if, Keeps-bind, get_variable_by_indices-Keeps, keeps_rules,
  write_indices-Keeps, write_handle-Keeps, unregister_handle-Keeps, register_indices-Keeps,
  Keeps-search, then_Evolves, write_at-Evolves,
}
use pyads_agile.TestServer.Advanced.{
  Handler, Action, get_variable_by_indices, write_at, handle_read_device_info, read_value,
  handle_read, write_value, handle_write, sum_write, sum_read, read_write_value, handle_read_write,
  handle_read_state, handle_add_devicenote, handle_delete_devicenote, run_command, respond,
  handle_request,
}

read_value-Keeps : (g o n : ℕ) → Keeps (read_value g o n)
unfolding read_value
read_value-Keeps g o n = search keeps_rules depth 12

handle_read-Keeps : (payload : Bytes) → Keeps (handle_read payload)
unfolding handle_read
handle_read-Keeps payload = search (keeps_rules, read_value-Keeps) depth 14

write_value-Keeps : (g o : ℕ) (value : Bytes) → Keeps (write_value g o value)
unfolding write_value
write_value-Keeps g o value = Keeps-if (g == 0xF006) _ _ (Keeps-pure []) (
    Keeps-if (g == 0xF005) _ _ (write_handle-Keeps _ (Keeps-pure []) o value)
      (write_indices-Keeps _ (Keeps-pure []) g o value))

handle_write-Keeps : (payload : Bytes) → Keeps (handle_write payload)
unfolding handle_write
handle_write-Keeps payload = search (keeps_rules, write_value-Keeps) depth 14

sum_write-Keeps : (rs : List SumRequest) (rest : Bytes) → Keeps (sum_write rs rest)
unfolding sum_write
sum_write-Keeps [] rest = Keeps-pure tt
sum_write-Keeps (r ∷ rs) rest =
    write_indices-Keeps _ (sum_write-Keeps rs (drop r.size rest)) r.group r.offset
      (take r.size rest)

sum_read-Keeps : (rs : List SumRequest) → Keeps (sum_read rs)
unfolding sum_read
sum_read-Keeps [] = Keeps-pure []
sum_read-Keeps (r ∷ rs) =
    Keeps-bind _ _ (get_variable_by_indices-Keeps r.group r.offset)
      λ var. Keeps-bind _ _ (sum_read-Keeps rs) λ rest. Keeps-pure _

write_back-Keeps :
    (g o n : ℕ) (value : Bytes)
    → Keeps (do var ← get_variable_by_indices g o; write_at g o var value; pure (take n var.value))
unfolding get_variable_by_indices
write_back-Keeps g o n value =
    Keeps-search (find g o) _
      λ var h d f. then_Evolves h _ _ (write_at-Evolves h g o var d f value) (λ _. Keeps-pure _)

read_write_value-Keeps : (g o n : ℕ) (value : Bytes) → Keeps (read_write_value g o n value)
unfolding read_write_value
read_write_value-Keeps g o n value =
    search (keeps_rules, sum_write-Keeps, sum_read-Keeps, write_back-Keeps) depth 14

handle_read_write-Keeps : (payload : Bytes) → Keeps (handle_read_write payload)
unfolding handle_read_write
handle_read_write-Keeps payload = search (keeps_rules, read_write_value-Keeps) depth 14

handle_add_devicenote-Keeps : (payload : Bytes) → Keeps (handle_add_devicenote payload)
unfolding handle_add_devicenote
handle_add_devicenote-Keeps payload = search (keeps_rules, register_indices-Keeps) depth 14

handle_delete_devicenote-Keeps : (payload : Bytes) → Keeps (handle_delete_devicenote payload)
unfolding handle_delete_devicenote
handle_delete_devicenote-Keeps payload = search (keeps_rules, unregister_handle-Keeps) depth 14

handle_read_device_info-Keeps : Keeps handle_read_device_info
unfolding handle_read_device_info
handle_read_device_info-Keeps = Keeps-pure _

handle_read_state-Keeps : Keeps handle_read_state
unfolding handle_read_state
handle_read_state-Keeps = search keeps_rules depth 8

-- the command that was chosen, if any, keeps the handler
data KeepsAny : Option (Action Bytes) → Type 0 where
  no_command : KeepsAny none
  command : (m : Action Bytes) → Keeps m → KeepsAny (some m)

KeepsAny-if :
    (b : Bool) (c d : Option (Action Bytes))
    → KeepsAny c
    → KeepsAny d
    → KeepsAny (if b then c else d)
KeepsAny-if true c d kc kd = kc
KeepsAny-if false c d kc kd = kd

ruleset command_rules = (
  no_command, command, KeepsAny-if, Keeps-pure, handle_read_device_info-Keeps, handle_read-Keeps,
  handle_write-Keeps, handle_read_write-Keeps, handle_read_state-Keeps, handle_add_devicenote-Keeps,
  handle_delete_devicenote-Keeps,
)

run_command-Keeps : (id : ℕ) (payload : Bytes) → KeepsAny (run_command id payload)
unfolding run_command
run_command-Keeps id payload = search command_rules depth 14

respond-Keeps :
    (state error_code : Bytes) {chosen : Option (Action Bytes)}
    → KeepsAny chosen
    → Keeps (respond state error_code chosen)
unfolding respond
respond-Keeps state error_code no_command = Keeps-pure _
respond-Keeps state error_code (command m k) = Keeps-bind m _ k λ content. Keeps-pure _

handle_request-Keeps : (request : AmsPacket) → Keeps (handle_request request)
unfolding handle_request
handle_request-Keeps request = search (keeps_rules, respond-Keeps, run_command-Keeps) depth 14

-- Whatever the packet, and whether or not the handler raises: the variables, their keys, names,
-- types and handles stay what they were, no key stands twice, and callbacks are only added to the
-- log.
pub handle_request-Evolves :
    (request : AmsPacket) (h : Handler) → IsDict h.store → Evolves h (handle_request request h).1
handle_request-Evolves request = (handle_request-Keeps request).at
