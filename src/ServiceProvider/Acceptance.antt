-- ===== src/ServiceProvider/Acceptance.antt =====
-- Which messages 3 the service provider accepts, and what it then answers.
use sgx_erlang_extension.Prelude.{
  ℕ, ◌+◌, ◌≡◌, refl, ◌≤◌, some, Bool, true, false, not, List, ◌++◌, ℤ, pos, is_zero, length, drop,
  zeros, bytes_eq, bytes_eq→eq, bytes_eq_refl, ltb, arith, if◌then◌else◌, Option-cases, inl, inr,
}
use sgx_erlang_extension.ServiceProvider.Libcrypto.{Libcrypto, Library, Hashes}
use sgx_erlang_extension.ServiceProvider.Steps.{ok, fail, go_on, crash_if, fail_if}
use sgx_erlang_extension.ServiceProvider.Ias.{
  is_quote_ok, is_pse_ok, AttReport, PlatformInfoBlob, blob_bytes, ias_verify_attestation_evidence,
}
use sgx_erlang_extension.ServiceProvider.State.{Sp, SpDbItem, Response, ias_group, g_secret}
use sgx_erlang_extension.ServiceProvider.Msg3.{
  AttResult, msg3_mac, msg3_g_a, msg3_ps_sec_prop, quote_report_data, report_data, check_msg3,
  check_report_data, compare_report_data, verify_quote, make_result,
}

module _ {lib : Libcrypto} (hashes : Hashes lib) where
  -- The report data that bind a quote to the session.
  abbrev pub bound : SpDbItem → List ℕ
  bound db = hashes.digest ((db.g_a ++ db.g_b) ++ db.vk_key) ++ zeros 32

  pub report_data_lem :
      (s : Sp lib)
      → report_data s ≡ (ok (bound s.g_sp_db), record s { sha_contexts = s.sha_contexts + 1 })
  unfolding report_data
  report_data_lem s =
      let c₁ = hashes.step s.g_sp_db.g_a hashes.start in
      let c₂ = hashes.step s.g_sp_db.g_b c₁ in
      let c₃ = hashes.step s.g_sp_db.vk_key c₂ in
      ground (
        arith,
        hashes.init_start,
        hashes.absorbed_start,
        hashes.update_step s.g_sp_db.g_a hashes.start,
        hashes.update_step s.g_sp_db.g_b c₁,
        hashes.update_step s.g_sp_db.vk_key c₂,
        hashes.absorbed_step s.g_sp_db.g_a hashes.start,
        hashes.absorbed_step s.g_sp_db.g_b c₁,
        hashes.absorbed_step s.g_sp_db.vk_key c₂,
        hashes.hash_digest c₃,
      )

  -- The message comes from the holder of the session's SMK key, for this session's g_a.
  abbrev pub Authentic : SpDbItem → List ℕ → Type 0
  Authentic db msg3 =
      (db.g_a ≡ msg3_g_a msg3) × (lib.cmac db.smk_key (drop 16 msg3) ≡ some (msg3_mac msg3))

  -- The state after the message has been checked.
  abbrev pub noted : List ℕ → Sp lib → Sp lib
  noted msg3 s = record s { g_sp_db = record s.g_sp_db { ps_sec_prop = msg3_ps_sec_prop msg3 } }

  pub check_msg3-Authentic :
      (msg3 : List ℕ) (s : Sp lib) → (check_msg3 msg3 s).0 ≡ ok tt → Authentic s.g_sp_db msg3
  unfolding check_msg3
  check_msg3-Authentic msg3 s h = elim (Option-cases (lib.cmac s.g_sp_db.smk_key (drop 16 msg3))) [
    | inl n ↦ ground arith
    | inr (mac, e) ↦
        ground (arith, bytes_eq→eq s.g_sp_db.g_a (msg3_g_a msg3), bytes_eq→eq (msg3_mac msg3) mac)
  ]

  pub Authentic-check_msg3 :
      (msg3 : List ℕ) (s : Sp lib)
      → Authentic s.g_sp_db msg3
      → check_msg3 msg3 s ≡ (ok tt, noted msg3 s)
  unfolding check_msg3
  Authentic-check_msg3 msg3 s h =
      ground (arith, bytes_eq_refl (msg3_g_a msg3), bytes_eq_refl (msg3_mac msg3))

  -- The server's report on a quote.
  abbrev pub verified : List ℕ → Sp lib → (ℤ × AttReport) × Library lib
  verified quote s = ias_verify_attestation_evidence lib quote s.library

  abbrev pub Bound : SpDbItem → List ℕ → Type 0
  Bound db quote = (432 ≤ length quote) × (bound db ≡ quote_report_data quote)

  -- The state after the quote has been checked.
  abbrev pub counted : List ℕ → Sp lib → Sp lib
  counted quote s = record s { library = (verified quote s).1; sha_contexts = s.sha_contexts + 1 }

  abbrev pub hashed : Sp lib → Sp lib
  hashed s = record s { sha_contexts = s.sha_contexts + 1 }

  -- Two guards, of which the first crashes and the second fails.
  two_guards :
      (short same : Bool) (n : ℤ) (s : Sp lib)
      → (go_on (crash_if short s) λ _. fail_if (not same) n).0 ≡ ok tt
      → (short ≡ false) × (same ≡ true)
  two_guards true same n s h = cc
  two_guards false true n s h = (refl, refl)
  two_guards false false n s h = cc

  pub compare_report_data-Bound :
      (quote expected : List ℕ) (s : Sp lib)
      → (compare_report_data quote expected s).0 ≡ ok tt
      → (432 ≤ length quote) × (expected ≡ quote_report_data quote)
  unfolding compare_report_data
  compare_report_data-Bound quote expected s h =
      let (l, e) =
        two_guards (ltb (length quote) 432) (bytes_eq expected (quote_report_data quote)) _ s h in
      (ground arith, bytes_eq→eq expected (quote_report_data quote) e)

  pub Bound-compare_report_data :
      (quote expected : List ℕ) (s : Sp lib)
      → 432 ≤ length quote
      → expected ≡ quote_report_data quote
      → compare_report_data quote expected s ≡ (ok tt, s)
  unfolding compare_report_data
  Bound-compare_report_data quote expected s l e =
      ground (arith, bytes_eq_refl (quote_report_data quote))

  pub check_report_data_lem :
      (quote : List ℕ) (s : Sp lib)
      → check_report_data quote s ≡ compare_report_data quote (bound s.g_sp_db) (hashed s)
  unfolding check_report_data
  check_report_data_lem quote s = rw (report_data_lem s)

  -- The steps on the group, once it is known.
  pub verify_quote_lem :
      (quote : List ℕ) (s : Sp lib)
      → s.group ≡ some (ias_group lib)
      → verify_quote quote s ≡ (
        if is_zero (verified quote s).0.0 then ok (verified quote s).0.1 else fail (pos 4),
        record s { library = (verified quote s).1 },
      )
  unfolding verify_quote
  verify_quote_lem quote s g = ground arith

  pub verified_report :
      (quote : List ℕ) (s : Sp lib)
      → (is_quote_ok (verified quote s).0.1.status ≡ true)
        × (is_pse_ok (verified quote s).0.1.pse_status ≡ true)
  unfolding ias_verify_attestation_evidence
  verified_report quote s = ground arith

  -- The encryption of the secret.
  abbrev pub sealed : SpDbItem → ℤ × List ℕ × List ℕ
  sealed db = lib.gcm_encrypt db.sk_key g_secret (zeros 12)

  -- The response that carries the secret.
  abbrev pub answer : SpDbItem → PlatformInfoBlob → List ℕ → Response AttResult
  answer db blob mac = record {
    type = 4;
    status = (0, 0);
    size = 145;
    body = record {
      platform_info_blob = blob;
      mac = mac;
      payload_size = 8;
      payload_tag = (sealed db).2;
      payload = (sealed db).1;
    };
  }

  abbrev pub IsAnswer : SpDbItem → PlatformInfoBlob → Response AttResult → Type 0
  IsAnswer db blob r =
      (lib.cmac db.mk_key (blob_bytes blob) ≡ some r.body.mac)
      × ((sealed db).0 ≡ pos 0)
      × (r ≡ answer db blob r.body.mac)

  pub is_zero→eq : (n : ℤ) → is_zero n ≡ true → n ≡ pos 0
  is_zero→eq n h = ground arith

  pub make_result-IsAnswer :
      (report : AttReport) (s : Sp lib) (r : Response AttResult)
      → is_quote_ok report.status ≡ true
      → is_pse_ok report.pse_status ≡ true
      → (make_result report s).0 ≡ ok r
      → IsAnswer s.g_sp_db report.info_blob r
  unfolding make_result
  make_result-IsAnswer report s r q p h =
      elim (Option-cases (lib.cmac s.g_sp_db.mk_key (blob_bytes report.info_blob))) [
        | inl n ↦ ground arith
        | inr (mac, e) ↦ ground (arith, is_zero→eq (sealed s.g_sp_db).0)
      ]

  pub IsAnswer-make_result :
      (report : AttReport) (s : Sp lib) (r : Response AttResult)
      → is_quote_ok report.status ≡ true
      → is_pse_ok report.pse_status ≡ true
      → IsAnswer s.g_sp_db report.info_blob r
      → make_result report s ≡ (ok r, s)
  unfolding make_result
  IsAnswer-make_result report s r q p h = ground arith
