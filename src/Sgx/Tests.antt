-- ===== src/Sgx/Tests.antt =====
-- The error messages at concrete inputs.
use sgx_erlang_extension.Prelude.{◌≡◌, [], ◌∷◌}
use sgx_erlang_extension.Sgx.Codes.{Status}
use sgx_erlang_extension.Sgx.Errors.{
  sgx_errlist, error_code, print_error_message, find_entry, message_of, print_error_message-find,
}

unlisted : print_error_message (Status.other 5) ≡ error_code (Status.other 5) ∷ []
unfolding sgx_errlist
unlisted = print_error_message-find (Status.other 5)

print_error_message-find_run :
    print_error_message Status.error_device_busy
    ≡ message_of Status.error_device_busy (find_entry Status.error_device_busy sgx_errlist)
print_error_message-find_run = print_error_message-find Status.error_device_busy
