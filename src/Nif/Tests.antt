-- ===== src/Nif/Tests.antt =====
-- The NIF library at concrete inputs.
use sgx_erlang_extension.Prelude.{
  ◌≡◌, true, not, ◌&&◌, ◌||◌, List, [], ◌∷◌, ◌++◌, ℤ, pos, negsuc, ◌==◌, if◌then◌else◌,
}
use sgx_erlang_extension.Process.{returned}
use sgx_erlang_extension.Sgx.{success, eq_status}
use sgx_erlang_extension.Sgx.Errors.{print_error_message}
use sgx_erlang_extension.Sgx.Bridge.{working}
use sgx_erlang_extension.Sgx.Toy.{Enclaves, is_live, create_enclave, created_success, sdk}
use sgx_erlang_extension.Counter.Laws.{working-IsWorking}
use sgx_erlang_extension.Nif.{
  Library, hello_load, went_wrong, print_error, load, unload, upgrade, ErlNif,
}
use sgx_erlang_extension.Nif.Lifecycle.{load_lem, load_live, unload-load, unload-upgrade}
use sgx_erlang_extension.Nif.Calls.{
  Request, increment, rtrn, nif_call, plain_call, run_calls, answers, final_count,
  nif_calls-answers,
}

abbrev library : Library Enclaves
library = record { global_eid = 0; world = record { next = 2; kept = λ i. i == 1 }; printed = [] }

load_lem_run : load sdk library ≡ (
    if eq_status (create_enclave library.world).0.0 success
    then (
      returned (pos 0),
      record {
        global_eid = (create_enclave library.world).0.1;
        world = (create_enclave library.world).1;
        printed = library.printed ++ (hello_load ∷ []);
      },
    )
    else (
      returned (negsuc 0),
      record {
        global_eid = library.global_eid;
        world = (create_enclave library.world).1;
        printed =
            ((library.printed ++ (hello_load ∷ []))
              ++ (print_error (print_error_message (create_enclave library.world).0.0) ∷ []))
            ++ (went_wrong ∷ []);
      },
    ))
load_lem_run = load_lem sdk library

load_live_run : is_live (load sdk library).1.world 2 ≡ (
    if eq_status (create_enclave library.world).0.0 success && 2 == (load sdk library).1.global_eid
    then true
    else is_live library.world 2)
load_live_run = load_live sdk library 2

unload-load_example : is_live (unload sdk (load sdk library).1).1.world 1 ≡ is_live library.world 1
unload-load_example = unload-load sdk library 1 (created_success library.world)

unload-upgrade_example :
    let first = (load sdk library).1 in
    let second = (upgrade sdk first).1 in
    let last = (unload sdk second).1 in
    is_live last.world 2
    ≡ (not (2 == second.global_eid) && (2 == first.global_eid || is_live library.world 2))
unload-upgrade_example =
    unload-upgrade sdk library 2 (created_success library.world)
      (created_success (create_enclave library.world).1)

-- Terms of the virtual machine: integers.
abbrev nif : ErlNif
nif = record { Term = ℤ; make_int = λ n. n }

abbrev requests : List Request
requests = increment ∷ increment ∷ rtrn ∷ []

nif_calls-answers_example :
    (run_calls nif (nif_call nif working) requests (record { a = 2147483646 }) ≡ (
      returned (answers nif requests 2147483646),
      record { a = final_count nif requests 2147483646 },
    ))
    × (run_calls nif (plain_call nif) requests (record { a = 2147483646 }) ≡ (
      returned (answers nif requests 2147483646),
      record { a = final_count nif requests 2147483646 },
    ))
nif_calls-answers_example = nif_calls-answers nif working working-IsWorking requests 2147483646
