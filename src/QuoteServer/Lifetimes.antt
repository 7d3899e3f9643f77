-- ===== src/QuoteServer/Lifetimes.antt =====
-- The enclave of the quote server's application.
use sgx_erlang_extension.Prelude.{ℕ, ◌≡◌, ◌≢◌, true, false, List, ℤ, arith, Bool-cases, inl, inr}
use sgx_erlang_extension.Sgx.{success, eq_status}
use sgx_erlang_extension.Sgx.Bridge.{Bridge}
use sgx_erlang_extension.Sgx.Sdk.{Sdk}
use sgx_erlang_extension.QuoteServer.Enclave.{Trusted, Evidence}
use sgx_erlang_extension.QuoteServer.Dcap.{
  is_ql_success, QvResult, ReportInfo, Outputs, Identity, no_identity, Dcap,
}
use sgx_erlang_extension.QuoteServer.Calls.{State}
use sgx_erlang_extension.QuoteServer.App.{
  free_identity, give_up, with_identity, clean_up, authenticate, with_target_info, verify_trusted,
  ecdsa_quote_verification,
}

module _ (sdk : Sdk) (dcap : Dcap sdk.World) where
  open sdk use {World, is_live, destroy_gone}

  clean_up_destroys :
      (eid : ℕ) (identity : Identity) (ret : ℤ) (s : State World)
      → eid ≢ 0
      → is_live (clean_up sdk dcap eid identity ret s).1.world eid ≡ false
  unfolding clean_up
  clean_up_destroys eid identity ret s h =
      ground (arith, destroy_gone (free_identity sdk dcap identity s.world) eid)

  give_up_destroys :
      (eid : ℕ) (identity : Identity) (s : State World)
      → is_live (give_up sdk dcap eid identity s).1.world eid ≡ false
  unfolding give_up
  give_up_destroys eid identity s = destroy_gone _ eid

module _ (sdk : Sdk) (dcap : Dcap sdk.World) (bridge : Bridge sdk.World) (trusted : Trusted) where
  open sdk use {World, create_enclave, is_live, create_failed}

  with_identity_destroys :
      (eid : ℕ) (e : Evidence) (r : QvResult) (identity : Identity) (s : State World)
      → eid ≢ 0
      → is_live (with_identity sdk dcap bridge trusted eid e r identity s).1.world eid ≡ false
  unfolding with_identity
  with_identity_destroys eid e r identity s h = clean_up_destroys sdk dcap eid identity _ _ h

  authenticate_destroys :
      (eid : ℕ) (quote : List ℕ) (date size : ℕ) (out : Outputs) (s : State World)
      → eid ≢ 0
      → is_live (authenticate sdk dcap bridge trusted eid quote date size out s).1.world eid ≡ false
  unfolding authenticate
  authenticate_destroys eid quote date size out s h =
      elim (Bool-cases (is_ql_success (dcap.get_qve_identity no_identity s.world).0.0)) [
        | inl k ↦ rw k (with_identity_destroys eid _ _ _ _ h)
        | inr k ↦ rw k (give_up_destroys sdk dcap eid _ _)
      ]

  verify_trusted_destroys :
      (uninit : ReportInfo) (eid : ℕ) (quote : List ℕ) (s : State World)
      → eid ≢ 0
      → is_live (verify_trusted sdk dcap bridge trusted uninit eid quote s).1.world eid ≡ false
  unfolding verify_trusted with_target_info
  verify_trusted_destroys uninit eid quote s h = authenticate_destroys eid quote _ _ _ _ h

  -- If the trusted verification creates its enclave, under an identifier other than 0, then the
  -- enclave is no longer live when it returns, whichever of the calls after that fail.
  pub ecdsa_quote_verification_destroys :
      (uninit : ReportInfo) (quote : List ℕ) (s : State World)
      → eq_status (create_enclave s.world).0.0 success ≡ true
      → (create_enclave s.world).0.1 ≢ 0
      → is_live
          (ecdsa_quote_verification sdk dcap bridge trusted uninit quote true s).1.world
          (create_enclave s.world).0.1
        ≡ false
  unfolding ecdsa_quote_verification
  ecdsa_quote_verification_destroys uninit quote s k h =
      rw k (verify_trusted_destroys uninit (create_enclave s.world).0.1 quote _ h)
