-- ===== src/Sgx/Bridge.antt =====
-- Calls into the enclave. The proxies in `Enclave_u.c` are generated by the build, and the SDK
-- carries the call out, so the bridge is a parameter.
use sgx_erlang_extension.Prelude.{◌≡◌, refl, true}
use sgx_erlang_extension.Sgx.Codes.{Status, eq_status, success}

-- `call f e` is a call of the trusted function `f` at the enclave's state `e`: the status that
-- `sgx_ecall` returns, what then stands in the out parameter, and the state after it. The SDK
-- documents that `SGX_SUCCESS` means that the function has run; after any other status nothing is
-- assumed of the out parameter or of the enclave.
pub record Bridge (E : Type 0) : Type 1 where
  pub call : {A : Type 0} → (E → A × E) → E → (Status × A) × E
  pub call_success :
      {A : Type 0} (f : E → A × E) (e : E)
      → eq_status (call f e).0.0 success ≡ true
      → (((call f e).0.1 ≡ (f e).0) × ((call f e).1 ≡ (f e).1))

-- A bridge that always succeeds, and one to an enclave that is lost.
abbrev pub working : {E : Type 0} → Bridge E
working = record {
  call = λ f e. ((success, (f e).0), (f e).1);
  call_success = λ f e h. (refl, refl);
}

lost_call_success :
    {E A : Type 0} (f : E → A × E) (e : E)
    → eq_status Status.error_enclave_lost success ≡ true
    → (((f e).0 ≡ (f e).0) × (e ≡ (f e).1))
lost_call_success f e h = cc

unfoldable pub lost : {E : Type 0} → Bridge E
unfolding lost_call_success
lost = record {
  call = λ f e. ((Status.error_enclave_lost, (f e).0), e);
  call_success = lost_call_success;
}
