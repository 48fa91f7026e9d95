-- ===== src/Client/Handles.antt =====
-- Handles of variables: `adsGetHandle`, `adsReleaseHandle`, `adsSyncReadByNameEx` and
-- `adsSyncWriteByNameEx` of src/pyads/pyads_ex.py.
pub mod Balance
use pyads_agile.Prelude.{ℕ, Bool, Option, none, some, Result, ok, err, type_error}
use pyads_agile.Python.Int.{ℤ, pos, negsuc}
use pyads_agile.Python.Utf8.{Text}
use pyads_agile.Python.Exec.{Exec, pure, raise, lift, ◌>>=◌, ◌>>◌}
use pyads_agile.Structure.Value.{Value, int_value, plc_udint}
use pyads_agile.Structure.Scalar.{FloatOps}
use pyads_agile.Client.Request.{
  DataType, single_type, Library, Client, ads_sync_read_req_ex2, ads_sync_write_req_ex,
  ads_sync_read_write_req_ex2,
}

module _ (ops : FloatOps) (to_single : ℕ → ℕ) {D : Type 0} (library : Library D) where
  -- a UDINT is read as a number that is not negative
  unfoldable pub as_handle : Value → Exec (Client D) ℕ
  as_handle (int_value (pos n)) = pure n
  as_handle v = raise type_error

  unfoldable pub ads_get_handle : Text → Exec (Client D) ℕ
  unfolding as_handle
  ads_get_handle data_name =
      ads_sync_read_write_req_ex2 ops to_single library 0xF003 0 (single_type plc_udint) data_name
      >>= as_handle

  unfoldable pub ads_release_handle : ℕ → Exec (Client D) Unit
  ads_release_handle handle =
      ads_sync_write_req_ex ops to_single library 0xF006 0 (int_value (pos handle))
        (single_type plc_udint)

  unfoldable pub ads_sync_read_by_name_ex :
      Text → DataType → Option ℕ → Bool → Exec (Client D) Value
  ads_sync_read_by_name_ex data_name data_type none check_length = do
    handle ← ads_get_handle data_name
    v ← ads_sync_read_req_ex2 ops to_single library 0xF005 handle data_type check_length
    ads_release_handle handle
    pure v
  ads_sync_read_by_name_ex data_name data_type (some handle) check_length =
      ads_sync_read_req_ex2 ops to_single library 0xF005 handle data_type check_length

  unfoldable pub ads_sync_write_by_name_ex :
      Text → Value → DataType → Option ℕ → Exec (Client D) Unit
  ads_sync_write_by_name_ex data_name v data_type none = do
    handle ← ads_get_handle data_name
    ads_sync_write_req_ex ops to_single library 0xF005 handle v data_type
    ads_release_handle handle
  ads_sync_write_by_name_ex data_name v data_type (some handle) =
      ads_sync_write_req_ex ops to_single library 0xF005 handle v data_type
