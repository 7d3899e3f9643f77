-- ===== src/Token/Tests.antt =====
-- The token file at concrete inputs.
use sgx_erlang_extension.Prelude.{
  ℕ, ◌≡◌, refl, Option, some, true, ◌&&◌, ◌||◌, List, [], ◌∷◌, pos, negsuc, codes, if◌then◌else◌,
  arith,
}
use sgx_erlang_extension.Process.{returned}
use sgx_erlang_extension.Sgx.{success, eq_status}
use sgx_erlang_extension.Token.Path.{token_path, path_of, Holds, token_path-path_of}
use sgx_erlang_extension.Token.Launch.{Answers, idle, initialize_enclave, load, upgrade}
use sgx_erlang_extension.Token.Files.{given, initialize_enclave_closes, load_closes}
use sgx_erlang_extension.Token.Saves.{writes, creations, initialize_enclave_saves}

abbrev home : Option (List ℕ)
home = some (codes "/root")

token_path-path_of_example : Holds (token_path 40 home) (path_of 40 home)
token_path-path_of_example = token_path-path_of 40 home (omega arith) (omega arith)

-- The file holds half a token, and the SDK makes a new one.
abbrev half : Answers
half = record {
  token_size = 4;
  open_read = true;
  open_write = true;
  read = 7 ∷ 7 ∷ [];
  create_enclave = λ t. record { status = success; updated = true; token = 1 ∷ 2 ∷ 3 ∷ 4 ∷ [] };
  reopen = true;
  written = 4;
}

half-given : given half ≡ 0 ∷ 0 ∷ 0 ∷ 0 ∷ []
half-given = refl

initialize_enclave_closes_run :
    ((initialize_enclave half idle).0
      ≡ returned
          (if eq_status (half.create_enclave (given half)).status success then pos 0 else negsuc 0))
    × ((initialize_enclave half idle).1.streams ≡ 0)
initialize_enclave_closes_run = initialize_enclave_closes half

initialize_enclave_saves_example :
    (creations (initialize_enclave half idle).1.calls ≡ given half ∷ [])
    × (writes (initialize_enclave half idle).1.calls ≡ (
        if eq_status (half.create_enclave (given half)).status success
          && ((half.create_enclave (given half)).updated
              && (half.open_read || half.open_write)
              && half.reopen)
        then (half.create_enclave (given half)).token ∷ []
        else []))
initialize_enclave_saves_example = initialize_enclave_saves half

load_closes_example :
    ((load half idle).0
      ≡ returned
          (if eq_status (half.create_enclave (given half)).status success then pos 0 else negsuc 0))
    × ((load half idle).1.streams ≡ 0)
    × ((upgrade half idle).0 ≡ (load half idle).0)
    × ((upgrade half idle).1.streams ≡ 0)
load_closes_example = load_closes half idle refl
