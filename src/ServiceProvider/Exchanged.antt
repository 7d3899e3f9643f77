-- ===== src/ServiceProvider/Exchanged.antt =====
-- Message 1 as a whole, `sp_ra_proc_msg1_req` of service_provider/service_provider.cpp with
-- SUPPLIED_KEY_DERIVATION: what an answer says, and the keys behind it.
use sgx_erlang_extension.Prelude.{
  ℕ, ◌≡◌, refl, sym, ◌∙◌, ap, some, true, List, [], pos, take, arith, Option-cases, inl, inr,
}
use sgx_erlang_extension.Process.{returned}
use sgx_erlang_extension.Sgx.{success}
use sgx_erlang_extension.Sgx.Sha256.{Digests}
use sgx_erlang_extension.IsvEnclave.{Crypto, key_derivation}
use sgx_erlang_extension.ServiceProvider.Libcrypto.{Libcrypto, Hashes, open_ecc}
use sgx_erlang_extension.ServiceProvider.Steps.{Steps, ok, go_on, ◌>>◌}
use sgx_erlang_extension.ServiceProvider.Ias.{ias_get_sigrl}
use sgx_erlang_extension.ServiceProvider.State.{Sp, SpDbItem, Response, ias_group}
use sgx_erlang_extension.ServiceProvider.Msg1.{
  Msg2, cmaced, derive_keys, assemble_msg2, exchange_keys, with_ecc, sp_ra_proc_msg1_req,
}
use sgx_erlang_extension.ServiceProvider.KeyExchange.{
  keys, with_keys, derive_keys_lem, key_derivation-with_keys,
}

-- What is written into message 2, from the stored data `db` and the SPID.
abbrev pub IsMsg2 : Libcrypto → SpDbItem → List ℕ → Response Msg2 → Type 0
IsMsg2 lib db spid r =
    (r.body.g_b ≡ db.g_b)
    × (r.body.spid ≡ spid)
    × (r.body.kdf_id ≡ 2)
    × (lib.cmac db.smk_key (cmaced db.g_b spid 2 r.body.sign_x r.body.sign_y) ≡ some r.body.mac)

module _ {lib : Libcrypto} where
  pub assemble_msg2-IsMsg2 :
      (sig_rl : List ℕ) (s : Sp lib) (r : Response Msg2)
      → (assemble_msg2 true sig_rl s).0 ≡ ok r
      → IsMsg2 lib s.g_sp_db s.g_spid r
  unfolding assemble_msg2
  assemble_msg2-IsMsg2 sig_rl s r h = ground arith

  pub assemble_msg2_db :
      (sig_rl : List ℕ) (s : Sp lib) → (assemble_msg2 true sig_rl s).1.g_sp_db ≡ s.g_sp_db
  unfolding assemble_msg2
  assemble_msg2_db sig_rl s = ground arith

  -- The key pair that has been made, and the state with it.
  abbrev pub stored : List ℕ × List ℕ → Sp lib → Sp lib
  stored pair s = record s {
    g_sp_db = record s.g_sp_db { b = pair.0; g_b = pair.1 };
    library = record s.library { world = (lib.create_key_pair s.library.world).1 };
  }

  abbrev pub answering : List ℕ → List ℕ → Steps (Sp lib) (Response Msg2)
  answering dh_key sig_rl = derive_keys true dh_key >> assemble_msg2 true sig_rl

  pub exchange_keys-answering :
      (g_a sig_rl : List ℕ) (s : Sp lib) (r : Response Msg2)
      → (exchange_keys true g_a sig_rl s).0 ≡ ok r
      → (pair : List ℕ × List ℕ) × (dh_key : List ℕ) × (lib.shared_dhkey pair.0 g_a ≡ some dh_key)
        × (exchange_keys true g_a sig_rl s ≡ answering dh_key sig_rl (stored pair s))
  unfolding exchange_keys
  exchange_keys-answering g_a sig_rl s r h =
      elim (Option-cases (lib.create_key_pair s.library.world).0) [
        | inl n ↦ ground arith
        | inr (pair, e) ↦ elim (Option-cases (lib.shared_dhkey pair.0 g_a)) [
          | inl n ↦ ground arith
          | inr (dh_key, k) ↦ (pair, dh_key, k, ground arith)
        ]
      ]

  with_ecc-ok :
      {A : Type 0} {a : A} (body : Steps (Sp lib) A) (s : Sp lib)
      → (with_ecc body s).0 ≡ ok a
      → ((body (record s { library = (open_ecc s.library).1 })).0 ≡ ok a)
        × ((with_ecc body s).1.g_sp_db
            ≡ (body (record s { library = (open_ecc s.library).1 })).1.g_sp_db)
  with_ecc-ok body s h = ground arith

  -- The state in which the keys are exchanged.
  abbrev pub opened : List ℕ → Sp lib → Sp lib
  opened g_a s = record s {
    g_sp_db = record s.g_sp_db { g_a = g_a };
    library = (open_ecc s.library).1;
  }

  -- An answer comes out of the exchange.
  pub msg1-exchange :
      (msg1 : List ℕ) (s : Sp lib) (r : Response Msg2)
      → (s.g_is_sp_registered ≡ true → s.group ≡ some (ias_group lib))
      → (sp_ra_proc_msg1_req true (some msg1) s).0 ≡ returned (pos 0, some r)
      → let t = exchange_keys true (take 64 msg1) [] (opened (take 64 msg1) s) in
        (t.0 ≡ ok r) × ((sp_ra_proc_msg1_req true (some msg1) s).1.g_sp_db ≡ t.1.g_sp_db)
  unfolding sp_ra_proc_msg1_req ias_get_sigrl
  msg1-exchange msg1 s r g h = ground (
    arith,
    with_ecc-ok {a = r} (exchange_keys true (take 64 msg1) [])
        (record s { g_sp_db = record s.g_sp_db { g_a = take 64 msg1 } }),
  )

module _ {lib : Libcrypto} (hashes : Hashes lib) (crypto : Crypto) (digests : Digests crypto.sha256)
    (same_digest : (bytes : List ℕ) → hashes.digest bytes ≡ digests.digest bytes) where
  -- The stored keys are those that the enclave derives from the shared secret.
  abbrev pub Agreed : SpDbItem → Type 0
  Agreed db =
      (dh_key : List ℕ) × (lib.shared_dhkey db.b db.g_a ≡ some dh_key)
      × (key_derivation crypto (some dh_key) 2 ≡ (success, keys db))

  -- An answer `r` to message 1, and the data stored with it.
  pub record IsExchanged (g_a spid : List ℕ) (db : SpDbItem) (r : Response Msg2) : Type 0 where
    pub noted : db.g_a ≡ g_a
    pub agreed : Agreed db
    pub message : IsMsg2 lib db spid r

  answering-IsExchanged :
      (g_a dh_key sig_rl : List ℕ) (s : Sp lib) (r : Response Msg2)
      → s.g_sp_db.g_a ≡ g_a
      → lib.shared_dhkey s.g_sp_db.b g_a ≡ some dh_key
      → (answering dh_key sig_rl s).0 ≡ ok r
      → IsExchanged g_a s.g_spid (answering dh_key sig_rl s).1.g_sp_db r
  answering-IsExchanged g_a dh_key sig_rl s r a k h =
      let e = derive_keys_lem hashes digests same_digest dh_key s in
      let db = with_keys hashes digests same_digest dh_key s.g_sp_db in
      let keyed : Sp lib = record s { g_sp_db = db } in
      let q = ap (λ p. go_on p λ _. assemble_msg2 true sig_rl) e in
      let v : IsExchanged g_a s.g_spid db r = record {
        noted = a;
        agreed = (
          dh_key,
          ap (lib.shared_dhkey s.g_sp_db.b) a ∙ k,
          key_derivation-with_keys hashes crypto digests same_digest dh_key s.g_sp_db,
        );
        message = assemble_msg2-IsMsg2 sig_rl keyed r (sym (ap (λ p. p.0) q) ∙ h);
      } in
      rw (ap (λ p. p.1.g_sp_db) q ∙ assemble_msg2_db sig_rl keyed) v

  exchange_keys-IsExchanged :
      (g_a sig_rl : List ℕ) (s : Sp lib) (r : Response Msg2)
      → s.g_sp_db.g_a ≡ g_a
      → (exchange_keys true g_a sig_rl s).0 ≡ ok r
      → IsExchanged g_a s.g_spid (exchange_keys true g_a sig_rl s).1.g_sp_db r
  exchange_keys-IsExchanged g_a sig_rl s r a h =
      let (pair, dh_key, k, e) = exchange_keys-answering g_a sig_rl s r h in
      let v =
        answering-IsExchanged g_a dh_key sig_rl (stored pair s) r a k (sym (ap (λ p. p.0) e) ∙ h) in
      rw e v

  -- With SUPPLIED_KEY_DERIVATION, the same working SHA-256 at both ends and a group where the
  -- provider is registered: whenever message 1 is answered, g_a is stored, there is a shared
  -- secret of the stored private key and g_a from which the enclave derives exactly the four
  -- stored keys, and the answer carries the stored g_b, the SPID, function 2 and the CMAC, under
  -- the stored SMK, of the fields before it.
  pub sp_ra_proc_msg1_req-IsExchanged :
      (msg1 : List ℕ) (s : Sp lib) (r : Response Msg2)
      → (s.g_is_sp_registered ≡ true → s.group ≡ some (ias_group lib))
      → (sp_ra_proc_msg1_req true (some msg1) s).0 ≡ returned (pos 0, some r)
      → IsExchanged (take 64 msg1) s.g_spid (sp_ra_proc_msg1_req true (some msg1) s).1.g_sp_db r
  sp_ra_proc_msg1_req-IsExchanged msg1 s r g h =
      let (a, e) = msg1-exchange msg1 s r g h in
      rw e (exchange_keys-IsExchanged (take 64 msg1) [] (opened (take 64 msg1) s) r refl a)
