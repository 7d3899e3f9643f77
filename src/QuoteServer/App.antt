-- ===== src/QuoteServer/App.antt =====
-- `ecdsa_quote_verification` of QuoteVerificationServer/App/App.cpp.
use sgx_erlang_extension.Prelude.{
  ℕ, none, some, Bool, true, false, ◌||◌, not, List, ℤ, negsuc, ◌==◌, if◌then◌else◌,
}
use sgx_erlang_extension.Sgx.{success, eq_status}
use sgx_erlang_extension.Sgx.Bridge.{Bridge}
use sgx_erlang_extension.Sgx.Sdk.{Sdk}
use sgx_erlang_extension.QuoteServer.Enclave.{Trusted, Evidence, is_null}
use sgx_erlang_extension.QuoteServer.Dcap.{
  is_ql_success, QvResult, ReportInfo, Outputs, Identity, no_identity, Dcap,
}
use sgx_erlang_extension.QuoteServer.Calls.{
  State, rand_nonce, check_result, say, at, get_target_info, set_policy, allocate_supplemental,
  call_verify_quote, evidence, call_verify_report, cannot_load, identity_failed, identity_found,
}

module _ (sdk : Sdk) (dcap : Dcap sdk.World) where
  open sdk use {World, destroy_enclave}
  open dcap use {free_qve_identity, time}

  unfoldable pub free_identity : Identity → World → World
  free_identity identity w =
      if not (is_null identity.qveid.bytes)
        || (not (is_null identity.qveid_issue_chain.bytes)
            || not (is_null identity.root_ca_crl.bytes))
      then free_qve_identity identity w
      else w

  -- The end of the function.
  unfoldable pub clean_up : ℕ → Identity → ℤ → State World → ℤ × State World
  clean_up eid identity ret s =
      let w = free_identity identity s.world in
      (ret, at (if eid == 0 then w else destroy_enclave eid w) s)

  -- The return where the identity cannot be had.
  unfoldable pub give_up : ℕ → Identity → State World → ℤ × State World
  give_up eid identity s =
      (negsuc 0, at (destroy_enclave eid (free_qve_identity identity s.world)) s)

  -- The untrusted verification after the call of the library.
  unfoldable pub end_untrusted : Outputs × State World → ℤ × State World
  end_untrusted (out, s) =
      let (ret, line) = check_result out.verification_result in
      clean_up 0 no_identity ret (say line s)

  unfoldable pub verify_untrusted : List ℕ → State World → ℤ × State World
  verify_untrusted quote s₀ =
      let ((size, p), s₁) = allocate_supplemental dcap s₀ in
      let (current_time, w) = time s₁.world in
      end_untrusted (call_verify_quote dcap quote current_time none (size, p) (at w s₁))

module _ (sdk : Sdk) (dcap : Dcap sdk.World) (bridge : Bridge sdk.World) (trusted : Trusted) where
  open sdk use {World, create_enclave}
  open dcap use {get_qve_identity, time}

  -- From the check of the report on.
  unfoldable pub with_identity : ℕ → Evidence → QvResult → Identity → State World → ℤ × State World
  with_identity eid e result identity s =
      let (ret, line) = check_result result in
      clean_up sdk dcap eid identity ret (say line (call_verify_report bridge trusted e s))

  -- From `sgx_qv_get_qve_identity` on, with the date and the size of the supplemental data.
  unfoldable pub authenticate : ℕ → List ℕ → ℕ → ℕ → Outputs → State World → ℤ × State World
  authenticate eid quote current_time size out s =
      let ((qpl_ret, identity), w) = get_qve_identity no_identity s.world in
      if not (is_ql_success qpl_ret)
      then give_up sdk dcap eid identity (say (identity_failed qpl_ret) (at w s))
      else with_identity eid (evidence dcap quote current_time size out identity)
          out.verification_result identity (say identity_found (at w s))

  -- The trusted verification once the target info has been asked for. `uninit` is what stands in the
  -- report before anything is written to it.
  unfoldable pub with_target_info : ReportInfo → ℕ → List ℕ → List ℕ × State World → ℤ × State World
  with_target_info uninit eid quote (target_info, s₁) =
      let ((size, p), s₂) = allocate_supplemental dcap (set_policy dcap s₁) in
      let (current_time, w) = time s₂.world in
      let info = record uninit { nonce = rand_nonce; app_enclave_target_info = target_info } in
      let (out, s₃) = call_verify_quote dcap quote current_time (some info) (size, p) (at w s₂) in
      authenticate eid quote current_time size out s₃

  -- The trusted verification once the enclave `eid` has been created.
  unfoldable pub verify_trusted : ReportInfo → ℕ → List ℕ → State World → ℤ × State World
  verify_trusted uninit eid quote s =
      with_target_info uninit eid quote (get_target_info bridge trusted s)

  unfoldable pub ecdsa_quote_verification :
      ReportInfo → List ℕ → Bool → State World → ℤ × State World
  ecdsa_quote_verification uninit quote false s = verify_untrusted sdk dcap quote s
  ecdsa_quote_verification uninit quote true s =
      let ((sgx_ret, eid), w) = create_enclave s.world in
      if not (eq_status sgx_ret success)
      then (negsuc 0, say (cannot_load sgx_ret) (at w s))
      else verify_trusted uninit eid quote (at w s)
