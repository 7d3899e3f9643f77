-- ===== src/Counter.antt =====
-- The counter that every prototype offers to Erlang: `static int32_t a`, with `ecall_increment` and
-- `ecall_return_a` inside the enclave (erlang-c-node/Enclave/EnclavedErlangCFunc/Test.cpp, and the
-- same in erlang-nif), the wrappers `my_increment` and `my_return_a` of the application
-- (App/EnclavedErlangCFunc/Test.c), and the versions without an enclave
-- (without-sgx/*/App/EnclavedErlangCFunc/Test.c).
pub mod Laws
mod Tests
use sgx_erlang_extension.Prelude.{ℕ, zero, suc, ◌+◌, ◌%◌, ◌^◌, if◌then◌else◌}
use sgx_erlang_extension.Process.{Run, returned, aborted, pure, ◌>>=◌, ◌>>◌}
use sgx_erlang_extension.Sgx.{success, eq_status}
use sgx_erlang_extension.Sgx.Bridge.{Bridge}

-- The enclave's data: the bit pattern of `static int32_t a`.
pub record Enclave : Type 0 where
  pub a : ℕ

abbrev pub initial : Enclave
initial = record { a = 0 }

-- `a++`. Past INT32_MAX, where C leaves the result open, the pattern wraps round as the processor's
-- addition does.
unfoldable pub ecall_increment : Enclave → Unit {0} × Enclave
ecall_increment e = (tt, record e { a = (e.a + 1) % 2 ^ 32 })

unfoldable pub ecall_return_a : Enclave → ℕ × Enclave
ecall_return_a e = (e.a, e)

-- The application's wrappers, over the bridge into the enclave.
module _ (bridge : Bridge Enclave) where
  unfoldable pub my_increment : Run Enclave (Unit {0})
  my_increment e =
      let ((ret, _), e') = bridge.call ecall_increment e in
      (if eq_status ret success then returned tt else aborted, e')

  unfoldable pub my_return_a : Run Enclave ℕ
  my_return_a e =
      let ((ret, a), e') = bridge.call ecall_return_a e in
      (if eq_status ret success then returned a else aborted, e')

-- The versions without SGX: the counter is a variable of the application itself.
unfoldable pub plain_increment : Run Enclave (Unit {0})
plain_increment e = (returned tt, record e { a = (e.a + 1) % 2 ^ 32 })

unfoldable pub plain_return_a : Run Enclave ℕ
plain_return_a e = (returned e.a, e)

-- `n` calls of a wrapper in a row; the first that does not return ends them.
unfoldable pub repeat_call : ℕ → Run Enclave (Unit {0}) → Run Enclave (Unit {0})
repeat_call zero f = pure tt
repeat_call (suc n) f = f >> repeat_call n f
