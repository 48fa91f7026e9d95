-- ===== src/Tests/Notifications.antt =====
-- Notifications at a device that gives out the notification handle 5.
use pyads_agile.Prelude.{◌≡◌, refl, [], ◌∷◌, some, ok, err, key_error}
use pyads_agile.Python.Bytes.{to_le, of_le, unpack}
use pyads_agile.Python.Int.{unpack_unsigned}
use pyads_agile.Python.Exec.{◌>>=◌}
use pyads_agile.Python.Utf8
use pyads_agile.Structure.Scalar.{unpack_format}
use pyads_agile.Client.Request.{
  delete_call, ads_sync_read_write_req_ex2, answered, get_value_from_ctype_data, exchange,
}
use pyads_agile.Client.Handles.{ads_get_handle, as_handle}
use pyads_agile.Client.Notifications.{
  by_name, resolve, register, ads_sync_add_device_notification_req_ex,
  ads_sync_del_device_notification_req_ex,
}
use pyads_agile.Client.Notifications.Callbacks.{delete_notification_undoes, delete_unknown_raises}
use pyads_agile.Tests.Handles.{no_floats, one_variable, device_with, variable_name}

adds_5 :
    (ads_sync_add_device_notification_req_ex no_floats
      (λ x. 0)
      one_variable
      1
      (by_name variable_name)
      7
      (device_with 0)).0
    ≡ ok (5, some 66)
unfolding ads_sync_add_device_notification_req_ex resolve register ◌>>=◌ ads_get_handle
    ads_sync_read_write_req_ex2 exchange answered get_value_from_ctype_data unpack_format
    unpack_unsigned unpack of_le to_le as_handle Utf8.encode
adds_5 = refl

delete_notification_undoes_example :
    (ads_sync_del_device_notification_req_ex no_floats
      (λ x. 0)
      one_variable
      1
      5
      (some 66)
      (ads_sync_add_device_notification_req_ex no_floats
        (λ x. 0)
        one_variable
        1
        (by_name variable_name)
        7
        (device_with 0)).1).1.callback_store
    ≡ []
delete_notification_undoes_example =
    delete_notification_undoes no_floats (λ x. 0) one_variable 1 7 (by_name variable_name)
      (device_with 0) adds_5 refl

delete_unknown_raises_example :
    ((ads_sync_del_device_notification_req_ex no_floats
        (λ x. 0)
        one_variable
        1
        5
        (some 66)
        (device_with 0)).0
      ≡ err key_error)
    × ((ads_sync_del_device_notification_req_ex no_floats
          (λ x. 0)
          one_variable
          1
          5
          (some 66)
          (device_with 0)).1.calls
        ≡ delete_call 5 ∷ [])
delete_unknown_raises_example =
    delete_unknown_raises no_floats (λ x. 0) one_variable 1 5 (some 66) (device_with 0) refl
