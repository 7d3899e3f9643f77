-- ===== src/ServiceProvider/Invariant.antt =====
-- An invariant of the service provider, and messages 0 and 1.
use sgx_erlang_extension.Prelude.{
  ℕ, ◌≡◌, refl, ◌≢◌, ◌⊎◌, inl, Option, none, some, Bool, true, List, take, [], arith,
}
use sgx_erlang_extension.Process.{crashed}
use sgx_erlang_extension.ServiceProvider.Libcrypto.{Libcrypto, Library}
use sgx_erlang_extension.ServiceProvider.Ias.{
  ias_enroll, ias_get_sigrl, ias_verify_attestation_evidence,
}
use sgx_erlang_extension.ServiceProvider.State.{Sp, ias_group, initial_sp}
use sgx_erlang_extension.ServiceProvider.Msg0.{sp_ra_proc_msg0_req}
use sgx_erlang_extension.ServiceProvider.Msg1.{sp_ra_proc_msg1_req}
use sgx_erlang_extension.ServiceProvider.Keeps.{with_ecc-Kept}

module _ {lib : Libcrypto} where
  -- The group pointer is NULL or that of the table, it is set once the provider is registered, and no
  -- ECC context is open.
  pub record Inv (s : Sp lib) : Type 0 where
    pub known : (s.group ≡ none) ⊎ (s.group ≡ some (ias_group lib))
    pub grouped : s.g_is_sp_registered ≡ true → s.group ≡ some (ias_group lib)
    pub closed : s.library.contexts ≡ 0

  pub initial_sp-Inv : (w : lib.World) → Inv (initial_sp lib w)
  initial_sp-Inv w = record { known = inl refl; grouped = λ h. cc; closed = refl }

  pub msg0-Inv : (msg0 : Option (List ℕ)) (s : Sp lib) → Inv s → Inv (sp_ra_proc_msg0_req msg0 s).1
  unfolding sp_ra_proc_msg0_req ias_enroll
  msg0-Inv none s v = v
  msg0-Inv (some msg0) s v = ground arith

  pub msg0_returns :
      (msg0 : Option (List ℕ)) (s : Sp lib) → (sp_ra_proc_msg0_req msg0 s).0 ≢ crashed
  unfolding sp_ra_proc_msg0_req ias_enroll
  msg0_returns none s = λ h. cc
  msg0_returns (some msg0) s = λ h. ground arith

  pub msg1-Inv :
      (supplied : Bool) (msg1 : Option (List ℕ)) (s : Sp lib)
      → Inv s
      → Inv (sp_ra_proc_msg1_req supplied msg1 s).1
        × ((sp_ra_proc_msg1_req supplied msg1 s).0 ≢ crashed)
  unfolding sp_ra_proc_msg1_req ias_get_sigrl
  msg1-Inv supplied none s v = (v, λ h. cc)
  msg1-Inv supplied (some msg1) s v = ground (
    arith,
    with_ecc-Kept supplied (take 64 msg1) []
        (record s { g_sp_db = record s.g_sp_db { g_a = take 64 msg1 } }),
  )

  pub ias_verify_attestation_evidence-contexts :
      (quote : List ℕ) (l : Library lib)
      → (ias_verify_attestation_evidence lib quote l).1.contexts ≡ l.contexts
  unfolding ias_verify_attestation_evidence
  ias_verify_attestation_evidence-contexts quote l = ground arith
