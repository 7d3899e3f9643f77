-- ===== src/ServiceProvider/Msg1.antt =====
-- `sp_ra_proc_msg1_req` of service_provider/service_provider.cpp. `supplied` is whether the macro
-- SUPPLIED_KEY_DERIVATION is set. The calls of `memcpy_s` between arrays of one size, which cannot
-- fail, are plain copies here.
use sgx_erlang_extension.Prelude.{
  ℕ, ◌+◌, Option, none, some, Bool, true, false, not, List, ◌++◌, ℤ, negsuc, is_zero, length, take,
  drop, ◌==◌, if◌then◌else◌,
}
use sgx_erlang_extension.Process.{Outcome, returned}
use sgx_erlang_extension.ServiceProvider.Libcrypto.{Libcrypto, open_ecc, close_ecc}
use sgx_erlang_extension.ServiceProvider.Steps.{
  Steps, ok, fail, crash, pure, gets, fail_if, require, ◌>>=◌, ◌>>◌, finish,
}
use sgx_erlang_extension.ServiceProvider.Ecp.{
  derive_key, derive_key_pair, derive_key_smk, derive_key_sk, derive_key_mk, derive_key_vk,
}
use sgx_erlang_extension.ServiceProvider.Ias.{le16, words}
use sgx_erlang_extension.ServiceProvider.State.{
  Sp, ExtendedEpidGroup, Response, change_db, g_sp_priv_key, sp_ias_failed, sp_internal_error,
  sp_unsupported_extended_epid_group, type_ra_msg2,
}

-- `sample_ra_msg2_t`. The signature is two arrays of eight words.
pub record Msg2 : Type 0 where
  pub g_b : List ℕ
  pub spid : List ℕ
  pub quote_type : ℕ
  pub kdf_id : ℕ
  pub sign_x : List ℕ
  pub sign_y : List ℕ
  pub mac : List ℕ
  pub sig_rl_size : ℕ
  pub sig_rl : List ℕ

-- The message up to its field `mac`, which starts at offset 148.
abbrev pub cmaced : List ℕ → List ℕ → ℕ → List ℕ → List ℕ → List ℕ
cmaced g_b spid kdf_id x y = g_b ++ spid ++ le16 1 ++ le16 kdf_id ++ words x ++ words y

abbrev pub sizeof_msg2 : ℕ
sizeof_msg2 = 168

-- ISV_KDF_ID, or SAMPLE_AES_CMAC_KDF_ID.
abbrev pub kdf_id_of : Bool → ℕ
kdf_id_of supplied = if supplied then 2 else 1

module _ {lib : Libcrypto} where
  open lib use {create_key_pair, shared_dhkey, ecdsa_sign, cmac}

  abbrev pub on_world : {A : Type 0} → (lib.World → A × lib.World) → Steps (Sp lib) A
  on_world f s =
      let (a, w) = f s.library.world in
      (ok a, record s { library = record s.library { world = w } })

  -- The group's functions are called through a pointer that must not be NULL.
  abbrev pub group_of : Steps (Sp lib) (ExtendedEpidGroup lib)
  group_of s = elim s.group [ none ↦ (crash, s) | some g ↦ (ok g, s) ]

  -- The four keys of a shared secret, stored one after the other.
  unfoldable pub derive_keys : Bool → List ℕ → Steps (Sp lib) (Unit {0})
  derive_keys true dh_key = do
    first ← require (derive_key_pair lib dh_key 0) sp_internal_error
    change_db (λ d. record d { smk_key = first.0; sk_key = first.1 })
    second ← require (derive_key_pair lib dh_key 1) sp_internal_error
    change_db (λ d. record d { mk_key = second.0; vk_key = second.1 })
  derive_keys false dh_key = do
    smk ← require (derive_key lib dh_key derive_key_smk) sp_internal_error
    change_db (λ d. record d { smk_key = smk })
    mk ← require (derive_key lib dh_key derive_key_mk) sp_internal_error
    change_db (λ d. record d { mk_key = mk })
    sk ← require (derive_key lib dh_key derive_key_sk) sp_internal_error
    change_db (λ d. record d { sk_key = sk })
    vk ← require (derive_key lib dh_key derive_key_vk) sp_internal_error
    change_db (λ d. record d { vk_key = vk })

  -- Message 2 from the stored data.
  unfoldable pub assemble_msg2 : Bool → List ℕ → Steps (Sp lib) (Response Msg2)
  assemble_msg2 supplied sig_rl = do
    db ← gets (λ s. s.g_sp_db)
    spid ← gets (λ s. s.g_spid)
    signed ← on_world (ecdsa_sign (db.g_b ++ db.g_a) g_sp_priv_key)
    sign ← require signed sp_internal_error
    let kdf_id = kdf_id_of supplied
    mac ← require (cmac db.smk_key (cmaced db.g_b spid kdf_id sign.0 sign.1)) sp_internal_error
    pure (record {
      type = type_ra_msg2;
      status = (0, 0);
      size = sizeof_msg2 + length sig_rl;
      body = record {
        g_b = db.g_b;
        spid = spid;
        quote_type = 1;
        kdf_id = kdf_id;
        sign_x = sign.0;
        sign_y = sign.1;
        mac = mac;
        sig_rl_size = length sig_rl;
        sig_rl = sig_rl;
      };
    })

  -- What happens while the ECC context is open.
  unfoldable pub exchange_keys : Bool → List ℕ → List ℕ → Steps (Sp lib) (Response Msg2)
  exchange_keys supplied g_a sig_rl = do
    made ← on_world create_key_pair
    pair ← require made sp_internal_error
    change_db (λ d. record d { b = pair.0; g_b = pair.1 })
    dh_key ← require (shared_dhkey pair.0 g_a) sp_internal_error
    derive_keys supplied dh_key
    assemble_msg2 supplied sig_rl

  -- `sample_ecc256_open_context`, and the close at the end if it succeeded.
  abbrev pub with_ecc : {A : Type 0} → Steps (Sp lib) A → Steps (Sp lib) A
  with_ecc body s =
      let (opened, l) = open_ecc s.library in
      let (r, t) = body (record s { library = l }) in
      if opened
      then (r, record t { library = close_ecc t.library })
      else (fail (negsuc 0), record s { library = l })

  unfoldable pub sp_ra_proc_msg1_req :
      Bool → Option (List ℕ) → Sp lib → Outcome (ℤ × Option (Response Msg2)) × Sp lib
  sp_ra_proc_msg1_req supplied none s = (returned (negsuc 0, none), s)
  sp_ra_proc_msg1_req supplied (some msg1) s =
      if not (length msg1 == 68)
      then (returned (negsuc 0, none), s)
      else if not s.g_is_sp_registered
      then (returned (sp_unsupported_extended_epid_group, none), s)
      else finish (
          (do
            let g_a = take 64 msg1
            group ← group_of
            let got = group.get_sigrl (drop 64 msg1)
            fail_if (not (is_zero got.0)) sp_ias_failed
            change_db (λ d. record d { g_a = g_a })
            with_ecc (exchange_keys supplied g_a got.1))
            s)
