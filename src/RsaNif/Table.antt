-- ===== src/RsaNif/Table.antt =====
-- The table `nif_funcs` of erlang-nif_SSL/App/App.c and of erlang-nif_SSL/App_no-sgx/App.c. Erlang calls a
-- function with as many arguments as its arity says.
use sgx_erlang_extension.Prelude.{ℕ, ◌≡◌, refl, Option, List, [], ◌∷◌, map, codes}
use sgx_erlang_extension.Process.{Run, crashed, stop}
use sgx_erlang_extension.Sgx.Bridge.{Bridge}
use sgx_erlang_extension.Rsa.{Enclave}
use sgx_erlang_extension.Rsa.Crypto.{OpenSsl}
use sgx_erlang_extension.RsaNif.{
  ErlNif, increment_nif, rtrn_nif, rsa_sign_nif, rsa_encrypt_nif, rsa_get_pubkey_nif,
  rsa_key_gen_nif, plain_increment_nif, plain_rtrn_nif, plain_rsa_sign_nif, plain_rsa_encrypt_nif,
  plain_rsa_get_pubkey_nif, plain_rsa_key_gen_nif,
}

-- `ErlNifFunc`: name, arity and function of the array of arguments.
pub record ErlNifFunc (S T : Type 0) : Type 0 where
  pub name : List ℕ
  pub arity : ℕ
  pub fptr : List T → Run S (Option T)

-- `argv[0]` must be there.
abbrev pub of_first : {S T : Type 0} → (T → Run S (Option T)) → List T → Run S (Option T)
of_first f [] = stop crashed
of_first f (t ∷ argv) = f t

module _ (ssl : OpenSsl) (nif : ErlNif) where
  open nif use {Term}

  abbrev pub nif_funcs : Bridge (Enclave ssl) → List (ErlNifFunc (Enclave ssl) Term)
  nif_funcs bridge =
      record { name = codes "increment"; arity = 0; fptr = λ argv. increment_nif ssl nif bridge }
      ∷ record { name = codes "rtrn"; arity = 0; fptr = λ argv. rtrn_nif ssl nif bridge }
      ∷ record { name = codes "rsa_sign"; arity = 1; fptr = of_first (rsa_sign_nif ssl nif bridge) }
      ∷ record {
        name = codes "rsa_encrypt";
        arity = 1;
        fptr = of_first (rsa_encrypt_nif ssl nif bridge);
      }
      ∷ record {
        name = codes "rsa_get_pubkey";
        arity = 0;
        fptr = λ argv. rsa_get_pubkey_nif ssl nif bridge;
      }
      ∷ record {
        name = codes "rsa_key_gen";
        arity = 0;
        fptr = λ argv. rsa_key_gen_nif ssl nif bridge;
      }
      ∷ []

  -- `junk` is what `malloc` leaves in the arrays.
  abbrev pub plain_nif_funcs : List ℕ → List (ErlNifFunc (Enclave ssl) Term)
  plain_nif_funcs junk =
      record { name = codes "increment"; arity = 0; fptr = λ argv. plain_increment_nif ssl nif }
      ∷ record { name = codes "rtrn"; arity = 0; fptr = λ argv. plain_rtrn_nif ssl nif }
      ∷ record {
        name = codes "rsa_sign";
        arity = 1;
        fptr = of_first (plain_rsa_sign_nif ssl nif junk);
      }
      ∷ record {
        name = codes "rsa_encrypt";
        arity = 1;
        fptr = of_first (plain_rsa_encrypt_nif ssl nif junk);
      }
      ∷ record {
        name = codes "rsa_get_pubkey";
        arity = 0;
        fptr = λ argv. plain_rsa_get_pubkey_nif ssl nif junk;
      }
      ∷ record {
        name = codes "rsa_key_gen";
        arity = 0;
        fptr = λ argv. plain_rsa_key_gen_nif ssl nif;
      }
      ∷ []

  -- The two libraries export the same functions.
  abbrev signature : ErlNifFunc (Enclave ssl) Term → List ℕ × ℕ
  signature f = (f.name, f.arity)

  same_signatures :
      (bridge : Bridge (Enclave ssl)) (junk : List ℕ)
      → map signature (nif_funcs bridge) ≡ map signature (plain_nif_funcs junk)
  same_signatures bridge junk = refl
