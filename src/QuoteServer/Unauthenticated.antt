-- ===== src/QuoteServer/Unauthenticated.antt =====
-- What the quote server's application makes of the check of the report.
use sgx_erlang_extension.Prelude.{ℕ, ◌≡◌, refl, ap, ◌∙◌, Bool, true, false, List, arith}
use sgx_erlang_extension.Sgx.Bridge.{Bridge}
use sgx_erlang_extension.Sgx.Sdk.{Sdk}
use sgx_erlang_extension.QuoteServer.Enclave.{Trusted, ecall_get_target_info}
use sgx_erlang_extension.QuoteServer.Dcap.{ReportInfo, Outputs, Dcap}
use sgx_erlang_extension.QuoteServer.Calls.{State, at, note_target_info, get_target_info}
use sgx_erlang_extension.QuoteServer.App.{
  with_identity, clean_up, authenticate, with_target_info, verify_trusted, ecdsa_quote_verification,
}

module _ (sdk : Sdk) (dcap : Dcap sdk.World) (bridge : Bridge sdk.World) (t u : Trusted) where
  open sdk use {World, create_enclave}

  same_target_info :
      (s : State World)
      → t.self_target ≡ u.self_target
      → get_target_info bridge t s ≡ get_target_info bridge u s
  unfolding get_target_info ecall_get_target_info
  same_target_info s h =
      ap (λ p. note_target_info (bridge.call (λ (w : World). (p, w)) s.world) s) h

  authenticate_same :
      (eid : ℕ) (quote : List ℕ) (date size : ℕ) (out : Outputs) (s : State World)
      → (authenticate sdk dcap bridge t eid quote date size out s).0
        ≡ (authenticate sdk dcap bridge u eid quote date size out s).0
  unfolding authenticate with_identity clean_up
  authenticate_same eid quote date size out s = ground arith

  with_target_info_same :
      (uninit : ReportInfo) (eid : ℕ) (quote : List ℕ) (p : List ℕ × State World)
      → (with_target_info sdk dcap bridge t uninit eid quote p).0
        ≡ (with_target_info sdk dcap bridge u uninit eid quote p).0
  unfolding with_target_info
  with_target_info_same uninit eid quote p = authenticate_same eid quote _ _ _ _

  verify_trusted_same :
      (uninit : ReportInfo) (eid : ℕ) (quote : List ℕ) (s : State World)
      → t.self_target ≡ u.self_target
      → (verify_trusted sdk dcap bridge t uninit eid quote s).0
        ≡ (verify_trusted sdk dcap bridge u uninit eid quote s).0
  unfolding verify_trusted
  verify_trusted_same uninit eid quote s h =
      with_target_info_same uninit eid quote (get_target_info bridge t s)
      ∙ ap (λ p. (with_target_info sdk dcap bridge u uninit eid quote p).0) (same_target_info s h)

  -- The check of the report does not bear on what is returned: with two trusted sides that agree
  -- on the target info, however they judge the report and the identity of the enclave that made
  -- it, `ecdsa_quote_verification` returns the same for every quote.
  pub ecdsa_quote_verification_same :
      (uninit : ReportInfo) (quote : List ℕ) (use_qve : Bool) (s : State World)
      → t.self_target ≡ u.self_target
      → (ecdsa_quote_verification sdk dcap bridge t uninit quote use_qve s).0
        ≡ (ecdsa_quote_verification sdk dcap bridge u uninit quote use_qve s).0
  unfolding ecdsa_quote_verification
  ecdsa_quote_verification_same uninit quote false s h = refl
  ecdsa_quote_verification_same uninit quote true s h =
      let e =
        verify_trusted_same uninit (create_enclave s.world).0.1 quote
          (at (create_enclave s.world).1 s) h in
      ground arith
