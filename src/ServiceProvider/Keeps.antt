-- ===== src/ServiceProvider/Keeps.antt =====
-- The registration and the open ECC contexts in the steps of message 1.
use sgx_erlang_extension.Prelude.{ℕ, ◌≡◌, Bool, true, false, List, arith}
use sgx_erlang_extension.ServiceProvider.Libcrypto.{Libcrypto, open_ecc}
use sgx_erlang_extension.ServiceProvider.Steps.{Result, ok, fail, crash, ◌>>◌}
use sgx_erlang_extension.ServiceProvider.State.{Sp}
use sgx_erlang_extension.ServiceProvider.Msg1.{derive_keys, assemble_msg2, exchange_keys, with_ecc}

abbrev pub is_crash : {A : Type 0} → Result A → Bool
is_crash (ok a) = false
is_crash (fail n) = false
is_crash crash = true

module _ {lib : Libcrypto} where
  -- A run that does not crash and leaves the registration and the open contexts alone.
  abbrev pub Kept : {A : Type 0} → Sp lib → Result A × Sp lib → Type 0
  Kept s (r, t) =
      (is_crash r ≡ false)
      × (t.group ≡ s.group)
      × (t.g_is_sp_registered ≡ s.g_is_sp_registered)
      × (t.library.contexts ≡ s.library.contexts)

  derive_keys-Kept :
      (supplied : Bool) (dh_key : List ℕ) (s : Sp lib) → Kept s (derive_keys supplied dh_key s)
  unfolding derive_keys
  derive_keys-Kept true dh_key s = ground arith
  derive_keys-Kept false dh_key s = ground arith

  assemble_msg2-Kept :
      (supplied : Bool) (sig_rl : List ℕ) (s : Sp lib) → Kept s (assemble_msg2 supplied sig_rl s)
  unfolding assemble_msg2
  assemble_msg2-Kept supplied sig_rl s = ground arith

  -- Deriving the keys and assembling the message, one after the other.
  answer-Kept :
      (supplied : Bool) (dh_key sig_rl : List ℕ) (s : Sp lib)
      → Kept s ((derive_keys supplied dh_key >> assemble_msg2 supplied sig_rl) s)
  answer-Kept supplied dh_key sig_rl s = ground (
    arith,
    derive_keys-Kept supplied dh_key s,
    assemble_msg2-Kept supplied sig_rl (derive_keys supplied dh_key s).1,
  )

  exchange_keys-Kept :
      (supplied : Bool) (g_a sig_rl : List ℕ) (s : Sp lib)
      → Kept s (exchange_keys supplied g_a sig_rl s)
  unfolding exchange_keys
  exchange_keys-Kept supplied g_a sig_rl s = grind (arith, answer-Kept)

  pub with_ecc-Kept :
      (supplied : Bool) (g_a sig_rl : List ℕ) (s : Sp lib)
      → Kept s (with_ecc (exchange_keys supplied g_a sig_rl) s)
  with_ecc-Kept supplied g_a sig_rl s = ground (
    arith,
    exchange_keys-Kept supplied g_a sig_rl (record s { library = (open_ecc s.library).1 }),
  )
