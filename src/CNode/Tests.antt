-- ===== src/CNode/Tests.antt =====
-- The C node at concrete inputs.
use sgx_erlang_extension.Prelude.{
  ℕ, ◌≡◌, refl, Option, none, some, true, List, [], ◌∷◌, ◌++◌, String, pos, negsuc, codes,
  strncmp_zero, if◌then◌else◌, ◌==◌,
}
use sgx_erlang_extension.Process.{returned, waiting, crashed}
use sgx_erlang_extension.Sgx.{Status, success, eq_status}
use sgx_erlang_extension.Sgx.Errors.{print_error_message}
use sgx_erlang_extension.Sgx.Bridge.{working}
use sgx_erlang_extension.Counter.Laws.{working-IsWorking}
use sgx_erlang_extension.CNode.{
  ErlInterface, Got, tick, error, message, reg_send, other_type, fresh, dispatch, plain_dispatch,
  handle, serve,
}
use sgx_erlang_extension.CNode.Start.{
  Answers, create_enclave, destroy_enclave, went_wrong, print_error, started, connect, main,
  plain_main,
}
use sgx_erlang_extension.CNode.Atoms.{command_of, Names, command_of-Names}
use sgx_erlang_extension.CNode.Replies.{
  session, request, keep, one, serve-replies, plain_serve-replies, AllKnown, serve-plain,
}
use sgx_erlang_extension.CNode.Startup.{
  failure, ended, connect-failure, creations, destructions, is_zero_return, main-destroys,
  main_without_enclave,
}
use sgx_erlang_extension.CNode.Runs.{main-plain_main}

-- Terms: atoms, process identifiers and tuples of two and of three elements.
data Term : Type 0 where
  atom : List ℕ → Term
  pid : ℕ → Term
  pair : Term → Term → Term
  triple : Term → Term → Term → Term

abbrev element : ℕ → Term → Option Term
element n (atom s) = none
element n (pid i) = none
element n (pair a b) = if n == 1 then some a else if n == 2 then some b else none
element n (triple a b c) =
    if n == 1 then some a else if n == 2 then some b else if n == 3 then some c else none

abbrev atom_ptr : Term → Option (List ℕ)
atom_ptr (atom s) = some s
atom_ptr t = none

abbrev erl : ErlInterface
erl = record { Eterm = Term; element = element; atom_ptr = atom_ptr }

-- `{call, Pid, {Name, 0}}` from process 7.
abbrev request_for : String → Got Term
request_for name =
    message reg_send (triple (atom (codes "call")) (pid 7) (pair (atom (codes name)) (pid 0)))
      (pid 7)

abbrev input : List (Got Term)
input =
    request_for "increment"
    ∷ tick
    ∷ request_for "incremental"
    ∷ message (other_type 3) (pid 1) (pid 2)
    ∷ request_for "return"
    ∷ error
    ∷ []

input-AllKnown : AllKnown erl input
unfolding request command_of strncmp_zero
input-AllKnown = (cc, (cc, (cc, tt)))

session_run :
    session erl keep input 0 none
    ≡ (returned tt, (some (pid 7), some 0) ∷ (some (pid 7), some 0) ∷ (some (pid 7), some 2) ∷ [])
unfolding session request command_of strncmp_zero
session_run = refl

unknown_run :
    session erl keep (request_for "reset" ∷ []) 0 none ≡ (waiting, (some (pid 7), none) ∷ [])
unfolding session request command_of strncmp_zero
unknown_run = refl

malformed_run : (serve erl plain_dispatch (message reg_send (pid 1) (pid 1) ∷ []) fresh).0 ≡ crashed
unfolding serve handle
malformed_run = refl

serve-replies_example :
    ((serve erl (dispatch working) input fresh).0 ≡ (session erl keep input 0 none).0)
    × ((serve erl (dispatch working) input fresh).1.sent ≡ (session erl keep input 0 none).1)
serve-replies_example = serve-replies erl working working-IsWorking input

plain_serve-replies_run :
    ((serve erl plain_dispatch input fresh).0 ≡ (session erl one input 0 none).0)
    × ((serve erl plain_dispatch input fresh).1.sent ≡ (session erl one input 0 none).1)
plain_serve-replies_run = plain_serve-replies erl input

serve-plain_example :
    ((serve erl (dispatch working) input fresh).0 ≡ (serve erl plain_dispatch input fresh).0)
    × ((serve erl (dispatch working) input fresh).1.sent
        ≡ (serve erl plain_dispatch input fresh).1.sent)
serve-plain_example = serve-plain erl working working-IsWorking input input-AllKnown

command_of-Names_example : Names (command_of (codes "returned")) (codes "returned")
command_of-Names_example = command_of-Names (codes "returned")

-- A start in which everything succeeds, one in which the port is taken, and one with no SGX device.
abbrev granted : Answers
granted = record {
  create_enclave = success;
  connect_init = pos 1;
  socket = pos 3;
  bind = pos 0;
  publish = pos 4;
  accept = some 5;
}

abbrev port_taken : Answers
port_taken = record granted { bind = negsuc 0 }

abbrev no_device : Answers
no_device = record granted { create_enclave = Status.error_no_device }

connect-failure_example :
    connect {T = Term} port_taken started ≡ ended [] port_taken.socket (failure port_taken)
connect-failure_example = connect-failure {T = Term} port_taken

main-destroys_example :
    let run = main erl granted input working started in
    (creations run.1.calls ≡ 1)
    × (destructions run.1.calls ≡ (if is_zero_return run.0 then 1 else 0))
    × (is_zero_return run.0 ≡ true → eq_status granted.create_enclave success ≡ true)
main-destroys_example = main-destroys erl granted input working

main_without_enclave_run : main erl no_device input working started ≡ (
  returned (negsuc 0),
  record {
    server = fresh;
    calls =
        create_enclave
        ∷ print_error (print_error_message no_device.create_enclave)
        ∷ went_wrong
        ∷ [];
  },
)
main_without_enclave_run = main_without_enclave erl no_device input working refl

main-plain_main_example :
    let run = main erl granted input working started in
    let plain = plain_main erl granted input started in
    (run.0 ≡ plain.0)
    × (run.1.server.sent ≡ plain.1.server.sent)
    × (run.1.calls
        ≡ create_enclave ∷ plain.1.calls
          ++ (if is_zero_return run.0 then destroy_enclave ∷ [] else []))
main-plain_main_example =
    main-plain_main erl granted input working working-IsWorking input-AllKnown refl
