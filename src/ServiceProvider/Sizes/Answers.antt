-- ===== src/ServiceProvider/Sizes/Answers.antt =====
-- The sizes of what an answer to message 1 carries.
use sgx_erlang_extension.Prelude.{
  ℕ, ◌≡◌, sym, ap, ◌∙◌, some, true, List, [], length, take, pos, arith,
}
use sgx_erlang_extension.Process.{returned}
use sgx_erlang_extension.ServiceProvider.Libcrypto.{Libcrypto}
use sgx_erlang_extension.ServiceProvider.Steps.{ok}
use sgx_erlang_extension.ServiceProvider.State.{Sp, Response, ias_group}
use sgx_erlang_extension.ServiceProvider.Msg1.{
  Msg2, derive_keys, exchange_keys, sp_ra_proc_msg1_req,
}
use sgx_erlang_extension.ServiceProvider.Exchanged.{
  assemble_msg2-IsMsg2, assemble_msg2_db, stored, answering, exchange_keys-answering, opened,
  msg1-exchange,
}
use sgx_erlang_extension.ServiceProvider.Sizes.{Sizes, Sized}
use sgx_erlang_extension.ServiceProvider.Sizes.Msg1.{exchange_keys-Sized, noted-Sized}

module _ {lib : Libcrypto} where
  -- What an answer shares with the state after it and with the SPID.
  abbrev pub Shares : List ℕ → Sp lib → Response Msg2 → Type 0
  Shares spid t r = (r.body.g_b ≡ t.g_sp_db.g_b) × (r.body.spid ≡ spid) × (r.body.kdf_id ≡ 2)

  derive_keys_spid :
      (dh_key : List ℕ) (s : Sp lib) → (derive_keys true dh_key s).1.g_spid ≡ s.g_spid
  unfolding derive_keys
  derive_keys_spid dh_key s = ground arith

  answering-Shares :
      (dh_key sig_rl : List ℕ) (s : Sp lib) (r : Response Msg2)
      → (answering dh_key sig_rl s).0 ≡ ok r
      → Shares s.g_spid (answering dh_key sig_rl s).1 r
  answering-Shares dh_key sig_rl s r h = ground (
    arith,
    derive_keys_spid dh_key s,
    assemble_msg2-IsMsg2 sig_rl (derive_keys true dh_key s).1 r,
    assemble_msg2_db sig_rl (derive_keys true dh_key s).1,
  )

  exchange_keys-Shares :
      (g_a sig_rl : List ℕ) (s : Sp lib) (r : Response Msg2)
      → (exchange_keys true g_a sig_rl s).0 ≡ ok r
      → Shares s.g_spid (exchange_keys true g_a sig_rl s).1 r
  exchange_keys-Shares g_a sig_rl s r h =
      let (pair, dh_key, k, e) = exchange_keys-answering g_a sig_rl s r h in
      rw e (answering-Shares dh_key sig_rl (stored pair s) r (sym (ap (λ p. p.0) e) ∙ h))

module _ {lib : Libcrypto} (sizes : Sizes lib) where
  pub msg1_answer_fields :
      (msg1 : List ℕ) (s : Sp lib) (r : Response Msg2)
      → length msg1 ≡ 68
      → Sized s.g_sp_db
      → (s.g_is_sp_registered ≡ true → s.group ≡ some (ias_group lib))
      → (sp_ra_proc_msg1_req true (some msg1) s).0 ≡ returned (pos 0, some r)
      → (length r.body.g_b ≡ 64) × (r.body.spid ≡ s.g_spid) × (r.body.kdf_id ≡ 2)
  msg1_answer_fields msg1 s r l v g h =
      let (a, e) = msg1-exchange msg1 s r g h in
      let (b, spid, kdf_id) =
        exchange_keys-Shares (take 64 msg1) [] (opened (take 64 msg1) s) r a in
      let u =
        exchange_keys-Sized sizes true (take 64 msg1) [] (opened (take 64 msg1) s)
          (noted-Sized msg1 s.g_sp_db l v) in
      (ap length b ∙ u.g_b_sized, spid, kdf_id)
