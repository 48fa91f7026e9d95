-- ===== src/Tests/Handles.antt =====
-- Reads and writes by name at a device with one variable.
use pyads_agile.Prelude.{
  ℕ, ◌≡◌, refl, [], ◌∷◌, true, none, ok, err, overflow_error, ◌==◌, if◌then◌else◌,
}
use pyads_agile.Python.Bytes.{Bytes, to_le, of_le, unpack}
use pyads_agile.Python.Int.{pos, unpack_unsigned}
use pyads_agile.Python.Exec.{◌>>=◌}
use pyads_agile.Python.Utf8
use pyads_agile.Structure.Value.{int_value, plc_uint}
use pyads_agile.Structure.Scalar.{FloatOps, unpack_format}
use pyads_agile.Client.Request.{
  DataType, single_type, Library, Client, read_call, write_call, ads_sync_read_req_ex2,
  ads_sync_write_req_ex, ads_sync_read_write_req_ex2, answered, get_value_from_ctype_data,
  data_bytes, c_value, exchange, send,
}
use pyads_agile.Client.Handles.{
  ads_get_handle, ads_release_handle, ads_sync_read_by_name_ex, ads_sync_write_by_name_ex,
  as_handle,
}
use pyads_agile.Client.Handles.Balance.{
  get_call, release_call, read_by_name_releases, write_by_name_releases,
}

abbrev pub no_floats : FloatOps
no_floats = record { of_int = λ z. err overflow_error; narrow = λ x. ok 0; widen = λ n. 0 }

-- The device holds one number under the handle 66. It answers a read with an error code where the
-- number is 0, and takes every write for one of the number.
abbrev pub one_variable : Library ℕ
one_variable = record {
  read = λ g o n d. (
    if d == 0
        then record { error_code = 1793; bytes_read = 0; written = [] }
        else record { error_code = 0; bytes_read = n; written = to_le n d },
    d,
  );
  write = λ g o bs d. (0, if g == 0xF005 then of_le bs else d);
  read_write = λ g o n bs d. (record { error_code = 0; bytes_read = n; written = to_le n 66 }, d);
  add_notification = λ g o d. ((0, 5), d);
  delete_notification = λ n d. (0, d);
}

abbrev pub device_with : ℕ → Client ℕ
device_with d = record { device = d; calls = []; callback_store = [] }

abbrev uint : DataType
uint = single_type plc_uint

abbrev pub variable_name : Utf8.Text
variable_name = 97 ∷ []

reads_513 :
    (ads_sync_read_by_name_ex no_floats
      (λ x. 0)
      one_variable
      variable_name
      uint
      none
      true
      (device_with 513)).0
    ≡ ok (int_value (pos 513))
unfolding ads_sync_read_by_name_ex ◌>>=◌ ads_get_handle ads_sync_read_write_req_ex2 exchange
    answered get_value_from_ctype_data unpack_format unpack_unsigned unpack of_le to_le as_handle
    ads_sync_read_req_ex2 ads_release_handle ads_sync_write_req_ex send data_bytes c_value
    Utf8.encode
reads_513 = refl

read_by_name_releases_example :
    (handle : ℕ) × (bs : Bytes) × ((ads_get_handle no_floats
        (λ x. 0)
        one_variable
        variable_name
        (device_with 513)).0
      ≡ ok handle)
    × ((ads_sync_read_by_name_ex no_floats
          (λ x. 0)
          one_variable
          variable_name
          uint
          none
          true
          (device_with 513)).1.calls
        ≡ get_call bs ∷ read_call 0xF005 handle 2 ∷ release_call handle ∷ [])
read_by_name_releases_example =
    read_by_name_releases no_floats (λ x. 0) one_variable variable_name uint true (device_with 513)
      reads_513

writes_number :
    (ads_sync_write_by_name_ex no_floats
      (λ x. 0)
      one_variable
      variable_name
      (int_value (pos 513))
      uint
      none
      (device_with 0)).0
    ≡ ok tt
unfolding ads_sync_write_by_name_ex ◌>>=◌ ads_get_handle ads_sync_read_write_req_ex2 exchange
    answered get_value_from_ctype_data unpack_format unpack_unsigned unpack of_le to_le as_handle
    ads_release_handle ads_sync_write_req_ex send data_bytes c_value Utf8.encode
writes_number = refl

write_by_name_releases_example :
    (handle : ℕ) × (bs sent : Bytes) × ((ads_get_handle no_floats
        (λ x. 0)
        one_variable
        variable_name
        (device_with 0)).0
      ≡ ok handle)
    × (data_bytes no_floats (λ x. 0) uint (int_value (pos 513)) ≡ ok sent)
    × ((ads_sync_write_by_name_ex no_floats
          (λ x. 0)
          one_variable
          variable_name
          (int_value (pos 513))
          uint
          none
          (device_with 0)).1.calls
        ≡ get_call bs ∷ write_call 0xF005 handle sent ∷ release_call handle ∷ [])
write_by_name_releases_example =
    write_by_name_releases no_floats (λ x. 0) one_variable variable_name (int_value (pos 513)) uint
      (device_with 0) writes_number
