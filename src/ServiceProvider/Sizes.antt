-- ===== src/ServiceProvider/Sizes.antt =====
-- The sizes of the arrays of the service provider.
pub mod Msg1
pub mod Msg3
pub mod Requests
pub mod Answers
use sgx_erlang_extension.Prelude.{
  ℕ, ◌+◌, ◌-◌, ◌≤◌, ◌≡◌, refl, ap, ◌∙◌, sym, min, Option, none, some, Bool, true, false, List, [],
  length, take, drop, length-take, length-drop, length-zeros, zeros, arith, Option-cases,
  Bool-cases, ==_iff, ◌==◌, if◌then◌else◌, not, is_zero, inl, inr,
}
use sgx_erlang_extension.IsvEnclave.{id_u, id_v}
use sgx_erlang_extension.ServiceProvider.Libcrypto.{Libcrypto, open_ecc}
use sgx_erlang_extension.ServiceProvider.Ecp.{
  and_then, hash_buffer, derive_key, derive_key_pair, derive_key_smk, derive_key_sk, derive_key_mk,
  derive_key_vk, DeriveKeyType, label_of, derivation_buffer,
}
use sgx_erlang_extension.ServiceProvider.Steps.{
  Steps, Result, go_on, ok, fail, crash, fail_if, finish, ◌>>=◌, ◌>>◌,
}
use sgx_erlang_extension.ServiceProvider.State.{
  Sp, SpDbItem, ExtendedEpidGroup, Response, change_db, sp_ias_failed, initial_sp,
}
use sgx_erlang_extension.ServiceProvider.Msg1.{
  Msg2, group_of, derive_keys, assemble_msg2, exchange_keys, with_ecc, sp_ra_proc_msg1_req,
}

-- The sizes of what the library writes, as its header declares them.
pub record Sizes (lib : Libcrypto) : Type 0 where
  pub key_pair_sized :
      (w : lib.World) (pair : List ℕ × List ℕ)
      → (lib.create_key_pair w).0 ≡ some pair
      → (length pair.0 ≡ 32) × (length pair.1 ≡ 64)
  pub cmac_sized : (key text mac : List ℕ) → lib.cmac key text ≡ some mac → length mac ≡ 16
  pub hash_sized :
      (c : lib.Sha) (hash : List ℕ) → lib.sha256_get_hash c ≡ some hash → length hash ≡ 32

-- Every array of `sp_db_item_t` has its declared size.
pub record Sized (db : SpDbItem) : Type 0 where
  pub g_a_sized : length db.g_a ≡ 64
  pub g_b_sized : length db.g_b ≡ 64
  pub vk_key_sized : length db.vk_key ≡ 16
  pub mk_key_sized : length db.mk_key ≡ 16
  pub sk_key_sized : length db.sk_key ≡ 16
  pub smk_key_sized : length db.smk_key ≡ 16
  pub b_sized : length db.b ≡ 32
  pub ps_sec_prop_sized : length db.ps_sec_prop ≡ 256

module _ {lib : Libcrypto} where
  pub finish-Sized :
      {A : Type 0} (r : Result A × Sp lib) → Sized r.1.g_sp_db → Sized (finish r).1.g_sp_db
  finish-Sized (ok a, s) v = v
  finish-Sized (fail n, s) v = v
  finish-Sized (crash, s) v = v

  pub if-Sized :
      {A : Type 0} (b : Bool) (p q : A × Sp lib)
      → (b ≡ true → Sized p.1.g_sp_db)
      → (b ≡ false → Sized q.1.g_sp_db)
      → Sized (if b then p else q).1.g_sp_db
  if-Sized true p q h k = h refl
  if-Sized false p q h k = k refl

  pub then-Sized :
      {A B : Type 0} (r : Result A × Sp lib) (f : A → Steps (Sp lib) B)
      → Sized r.1.g_sp_db
      → ((a : A) (t : Sp lib) → Sized t.g_sp_db → Sized (f a t).1.g_sp_db)
      → Sized (go_on r f).1.g_sp_db
  then-Sized (ok a, t) f v h = h a t v
  then-Sized (fail n, t) f v h = v
  then-Sized (crash, t) f v h = v

  pub group_of-Sized : (s : Sp lib) → Sized s.g_sp_db → Sized (group_of s).1.g_sp_db
  group_of-Sized s v = ground arith
