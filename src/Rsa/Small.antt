-- ===== src/Rsa/Small.antt =====
-- A small library in OpenSSL's place, which numbers its keys, and enclaves over it, for tests.
use sgx_erlang_extension.Prelude.{
  ℕ, ◌+◌, ◌-◌, refl, Option, none, some, Bool, true, [], ◌∷◌, ◌++◌, zeros, ◌==◌, if◌then◌else◌,
  arith,
}
use sgx_erlang_extension.Rsa.{Enclave}
use sgx_erlang_extension.Rsa.Crypto.{OpenSsl, CountsReferences}
use sgx_erlang_extension.Rsa.Keys.{Generates}

-- The number of the next RSA object, the references to each, and the one that the only EVP_PKEY
-- holds.
pub record Keys : Type 0 where
  pub next : ℕ
  pub counts : ℕ → ℕ
  pub assigned : Option ℕ

-- A library in which keys can or cannot be generated, and in which the field that is read as
-- `pkey.ptr` is set or is not. It signs a text by the text itself.
abbrev pub open_ssl : Bool → Bool → OpenSsl
open_ssl generates ptr_set = record {
  World = Keys;
  Bn = Unit;
  Rsa = ℕ;
  Pkey = Unit;
  init_crypto = λ w. (true, w);
  bn_new = λ w. (some tt, w);
  bn_set_word = λ b n w. (true, w);
  bn_free = λ b w. w;
  rsa_new = λ w. (
    some w.next,
    record w { next = w.next + 1; counts = λ k. if k == w.next then 1 else w.counts k },
  );
  generate_key = λ k bits b w. (generates, w);
  rsa_free = λ k w. record w { counts = λ j. if j == k then w.counts j - 1 else w.counts j };
  pkey_new = λ w. (some tt, w);
  assign_rsa = λ p k w. record w { assigned = some k };
  pkey_ptr_set = λ p w. ptr_set;
  pkey_rsa = λ p w. w.assigned;
  public_der = λ p w. 48 ∷ 130 ∷ [];
  rsa_sign = λ k m w. (true, m);
  public_encrypt = λ k m w. some (m ++ zeros 504);
  references = λ w k. w.counts k;
}

pub open_ssl-CountsReferences : (g s : Bool) → CountsReferences (open_ssl g s)
open_ssl-CountsReferences g s = record {
  rsa_new_one = λ w k h. ground arith;
  generate_key_keeps = λ k bits b w. refl;
  pkey_new_keeps = λ k w. refl;
  assign_rsa_keeps = λ p k w. refl;
  bn_free_keeps = λ b k w. refl;
  rsa_free_drops = λ k w. ground arith;
}

abbrev pub no_keys : Keys
no_keys = record { next = 0; counts = λ k. 0; assigned = none }

abbrev pub generated : (s : Bool) → Generates (open_ssl true s) no_keys
generated s = record {
  b = tt;
  k = 0;
  p = tt;
  w₁ = no_keys;
  w₂ = no_keys;
  w₃ = ((open_ssl true s).rsa_new no_keys).1;
  w₄ = ((open_ssl true s).rsa_new no_keys).1;
  w₅ = ((open_ssl true s).rsa_new no_keys).1;
  new_bn = refl;
  set_word = refl;
  new_rsa = refl;
  generated = refl;
  new_pkey = refl;
}

-- An enclave with a key.
abbrev pub holding : (g s : Bool) → Enclave (open_ssl g s)
holding g s = record {
  a = 3;
  evp_pkey = some tt;
  keypair = some 0;
  world = record { next = 1; counts = λ k. if k == 0 then 1 else 0; assigned = some 0 };
}
