-- ===== src/QuoteServer/Verdicts.antt =====
-- What the quote server's application returns for a quote.
use sgx_erlang_extension.Prelude.{
  ℕ, ◌%◌, ◌^◌, ◌≡◌, ap, ◌∙◌, ◌↔◌, ◌⊎◌, Option, Bool, true, false, ◌&&◌, not, List, take, length, ℤ,
  pos, negsuc, if◌then◌else◌, arith,
}
use sgx_erlang_extension.Sgx.{success, eq_status}
use sgx_erlang_extension.Sgx.Bridge.{Bridge}
use sgx_erlang_extension.Sgx.Sdk.{Sdk}
use sgx_erlang_extension.QuoteServer.Enclave.{Trusted}
use sgx_erlang_extension.QuoteServer.Dcap.{
  is_ql_success, QvResult, result_ok, other_result, ReportInfo, Outputs, no_identity, Dcap,
}
use sgx_erlang_extension.QuoteServer.Calls.{State, check_result, at, call_verify_quote}
use sgx_erlang_extension.QuoteServer.App.{
  give_up, with_identity, clean_up, end_untrusted, authenticate, with_target_info, verify_trusted,
  verify_untrusted, ecdsa_quote_verification,
}

-- The libraries' answers for a quote do not change along a run: the result of the verification, and
-- whether the identity of the quote verification enclave can be had.
pub record Settled {World : Type 0} (dcap : Dcap World) (quote : List ℕ) : Type 0 where
  pub result : QvResult
  pub found : Bool
  pub verifies :
      (date size : ℕ) (out : Outputs) (w : World)
      → (dcap.verify_quote
          (take (length quote % 2 ^ 32) quote)
          date
          size
          out
          w).0.1.verification_result
        ≡ result
  pub finds : (w : World) → is_ql_success (dcap.get_qve_identity no_identity w).0.0 ≡ found

check_result-ok : (r : QvResult) → ((check_result r).0 ≡ pos 0) ↔ (r ≡ result_ok)
unfolding check_result
check_result-ok r = elim r [ other_result n ↦ ground arith | _ ↦ ground arith ]

-- What is returned for a result: `-1` wherever the trusted verification has no enclave or no identity.
abbrev pub expected : Bool → Bool → Bool → QvResult → ℤ
expected use_qve created found r =
    if use_qve && not (created && found) then negsuc 0 else (check_result r).0

expected-ok :
    (use_qve created found : Bool) (r : QvResult)
    → (expected use_qve created found r ≡ pos 0)
      ↔ ((r ≡ result_ok) × ((use_qve ≡ false) ⊎ ((created ≡ true) × (found ≡ true))))
expected-ok use_qve created found r = ground (arith, check_result-ok r)

module _ {World : Type 0} {dcap : Dcap World} {quote : List ℕ} (settled : Settled dcap quote) where
  pub call_verify_quote_result :
      (date : ℕ) (info : Option ReportInfo) (buffer : ℕ × Option (List ℕ)) (s : State World)
      → (call_verify_quote dcap quote date info buffer s).0.verification_result ≡ settled.result
  unfolding call_verify_quote
  call_verify_quote_result date info buffer s = settled.verifies date buffer.0 _ s.world

module _ (sdk : Sdk) (dcap : Dcap sdk.World) {quote : List ℕ} (settled : Settled dcap quote) where
  open sdk use {World, create_enclave}

  verify_untrusted_result :
      (s : State World) → (verify_untrusted sdk dcap quote s).0 ≡ (check_result settled.result).0
  unfolding verify_untrusted end_untrusted clean_up
  verify_untrusted_result s =
      ap (λ r. (check_result r).0) (call_verify_quote_result settled _ _ _ _)

  module _ (bridge : Bridge World) (trusted : Trusted) where
    authenticate_result :
        (eid date size : ℕ) (out : Outputs) (s : State World)
        → (authenticate sdk dcap bridge trusted eid quote date size out s).0
          ≡ (if settled.found then (check_result out.verification_result).0 else negsuc 0)
    unfolding authenticate with_identity give_up clean_up
    authenticate_result eid date size out s = ground (arith, settled.finds s.world)

    verify_trusted_result :
        (uninit : ReportInfo) (eid : ℕ) (s : State World)
        → (verify_trusted sdk dcap bridge trusted uninit eid quote s).0
          ≡ (if settled.found then (check_result settled.result).0 else negsuc 0)
    unfolding verify_trusted with_target_info
    verify_trusted_result uninit eid s =
        authenticate_result eid _ _ _ _
        ∙ ap (λ r. if settled.found then (check_result r).0 else negsuc 0)
            (call_verify_quote_result settled _ _ _ _)

    ecdsa_quote_verification-expected :
        (uninit : ReportInfo) (use_qve : Bool) (s : State World)
        → (ecdsa_quote_verification sdk dcap bridge trusted uninit quote use_qve s).0
          ≡ expected use_qve
              (eq_status (create_enclave s.world).0.0 success)
              settled.found
              settled.result
    unfolding ecdsa_quote_verification
    ecdsa_quote_verification-expected uninit false s = verify_untrusted_result s
    ecdsa_quote_verification-expected uninit true s = ground (
      arith,
      verify_trusted_result uninit (create_enclave s.world).0.1 (at (create_enclave s.world).1 s),
    )

    -- Where the library's result for a quote and whether the identity of the quote verification
    -- enclave can be had do not change along the run, `ecdsa_quote_verification` returns 0
    -- exactly if that result is OK and, in the trusted mode, the enclave is created and the
    -- identity is had.
    pub ecdsa_quote_verification-result_ok :
        (uninit : ReportInfo) (use_qve : Bool) (s : State World)
        → ((ecdsa_quote_verification sdk dcap bridge trusted uninit quote use_qve s).0 ≡ pos 0) ↔ (
            (settled.result ≡ result_ok)
            × ((use_qve ≡ false)
                ⊎ ((eq_status (create_enclave s.world).0.0 success ≡ true)
                    × (settled.found ≡ true))))
    ecdsa_quote_verification-result_ok uninit use_qve s =
        rw (ecdsa_quote_verification-expected uninit use_qve s) (expected-ok _ _ _ _)
