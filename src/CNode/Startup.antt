-- ===== src/CNode/Startup.antt =====
-- The way of `main` from the enclave's creation to the connection, and what becomes of the enclave.
use sgx_erlang_extension.Prelude.{
  ℕ, suc, ◌≡◌, Option, none, some, Bool, true, false, List, [], ◌∷◌, ◌++◌, ℤ, pos, negsuc,
  is_negative, is_not_positive, is_minus_one, if◌then◌else◌, arith, take, String, ◌==◌,
}
use sgx_erlang_extension.Process.{Outcome, returned, exited}
use sgx_erlang_extension.Sgx.{success, eq_status}
use sgx_erlang_extension.Sgx.Errors.{print_error_message}
use sgx_erlang_extension.Sgx.Bridge.{Bridge}
use sgx_erlang_extension.Counter.{Enclave}
use sgx_erlang_extension.CNode.{ErlInterface, Got, fresh}
use sgx_erlang_extension.CNode.Start.{
  Answers, Call, create_enclave, destroy_enclave, went_wrong, erl_init, connect_init, socket,
  set_reuse_address, print_error, bind, listen, publish, accept, quit, Node, started, is_none,
  connect, main,
}

-- The calls of a start that succeeds.
abbrev pub connecting : ℤ → List Call
connecting fd =
    erl_init
    ∷ connect_init
    ∷ socket
    ∷ set_reuse_address
    ∷ bind 3456
    ∷ listen fd 5
    ∷ publish 3456
    ∷ accept fd
    ∷ []

-- How many of these calls are made before the start fails, and the text that it fails with.
unfoldable pub failure : Answers → Option (ℕ × String)
failure ans =
    if is_minus_one ans.connect_init
    then some (2, "erl_connect_init")
    else if is_negative ans.socket
    then some (3, "my_listen")
    else if is_negative ans.bind
    then some (5, "my_listen")
    else if is_not_positive ans.socket
    then some (6, "my_listen")
    else if is_minus_one ans.publish
    then some (7, "erl_publish")
    else if is_none ans.accept
    then some (8, "erl_accept")
    else none

abbrev pub ended : {T : Type 0} → List Call → ℤ → Option (ℕ × String) → Outcome (Unit {0}) × Node T
ended before fd none = (returned tt, record { server = fresh; calls = before ++ connecting fd })
ended before fd (some (made, text)) = (
  exited 1,
  record { server = fresh; calls = before ++ (take made (connecting fd) ++ (quit text ∷ [])) },
)

-- The start makes its calls in one fixed order, listening on the port that it publishes and
-- accepting on the descriptor on which it listens. It stops at the first answer that is an error
-- and then ends the process with status 1 and that call's text; a listening descriptor 0 counts
-- as an error. With no error it returns.
pub connect-failure :
    {T : Type 0} (ans : Answers) → connect {T = T} ans started ≡ ended [] ans.socket (failure ans)
unfolding connect failure
connect-failure ans = ground arith

abbrev created : {T : Type 0} → Node T
created = record { server = fresh; calls = create_enclave ∷ [] }

connect-created :
    {T : Type 0} (ans : Answers)
    → connect {T = T} ans created ≡ ended (create_enclave ∷ []) ans.socket (failure ans)
unfolding connect failure
connect-created ans = ground arith

-- How often sgx_create_enclave is called, whether or not it succeeds, and sgx_destroy_enclave.
abbrev pub creations : List Call → ℕ
creations [] = 0
creations (create_enclave ∷ cs) = suc (creations cs)
creations (c ∷ cs) = creations cs

abbrev pub destructions : List Call → ℕ
destructions [] = 0
destructions (destroy_enclave ∷ cs) = suc (destructions cs)
destructions (c ∷ cs) = destructions cs

abbrev pub is_zero_return : Outcome ℤ → Bool
is_zero_return (returned (pos n)) = n == 0
is_zero_return o = false

module _ (erl : ErlInterface) (ans : Answers) (input : List (Got erl.Eterm))
    (bridge : Bridge Enclave) where
  -- In every run `main` calls sgx_create_enclave exactly once, whether or not that creates the
  -- enclave. It calls sgx_destroy_enclave exactly once if it returns 0, and not at all if it
  -- ends in any other way: by a return of -1, by `erl_err_quit`, by `abort()`, by a crash, or
  -- not yet. It returns 0 only if the enclave has been created.
  pub main-destroys :
      let run = main erl ans input bridge started in
      (creations run.1.calls ≡ 1)
      × (destructions run.1.calls ≡ (if is_zero_return run.0 then 1 else 0))
      × (is_zero_return run.0 ≡ true → eq_status ans.create_enclave success ≡ true)
  unfolding main
  main-destroys = ground arith

  -- If the enclave cannot be created, `main` prints the reason, serves no request and returns -1.
  pub main_without_enclave :
      eq_status ans.create_enclave success ≡ false
      → main erl ans input bridge started ≡ (
        returned (negsuc 0),
        record {
          server = fresh;
          calls =
              create_enclave
              ∷ print_error (print_error_message ans.create_enclave)
              ∷ went_wrong
              ∷ [];
        },
      )
  unfolding main
  main_without_enclave h = ground arith
