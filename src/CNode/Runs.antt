-- ===== src/CNode/Runs.antt =====
-- A whole run of the C node, from erlang-c-node/App/App.c, beside one of the C node without an
-- enclave, from without-sgx/erlang-c-node/App/App.c.
use sgx_erlang_extension.Prelude.{◌≡◌, true, List, [], ◌∷◌, ◌++◌, if◌then◌else◌, arith}
use sgx_erlang_extension.Sgx.{success, eq_status}
use sgx_erlang_extension.Sgx.Bridge.{Bridge}
use sgx_erlang_extension.Counter.{Enclave}
use sgx_erlang_extension.Counter.Laws.{IsWorking}
use sgx_erlang_extension.CNode.{ErlInterface, Got}
use sgx_erlang_extension.CNode.Start.{
  Answers, create_enclave, destroy_enclave, started, main, plain_main,
}
use sgx_erlang_extension.CNode.Startup.{is_zero_return}
use sgx_erlang_extension.CNode.Replies.{AllKnown, serve-plain}

module _ (erl : ErlInterface) (ans : Answers) (input : List (Got erl.Eterm))
    (bridge : Bridge Enclave) where
  -- Whatever the calls of the start answer, failures included, once the enclave is created, over
  -- a bridge whose calls succeed and on inputs whose requests are all known commands, `main` and
  -- the `main` without an enclave end alike, send the same replies to the same processes and
  -- make the same calls in the same order, but that the former creates the enclave before them
  -- and, exactly where it returns 0, destroys it after them.
  pub main-plain_main :
      IsWorking bridge
      → AllKnown erl input
      → eq_status ans.create_enclave success ≡ true
      → let run = main erl ans input bridge started in
        let plain = plain_main erl ans input started in
        (run.0 ≡ plain.0)
        × (run.1.server.sent ≡ plain.1.server.sent)
        × (run.1.calls
            ≡ create_enclave ∷ plain.1.calls
              ++ (if is_zero_return run.0 then destroy_enclave ∷ [] else []))
  unfolding main plain_main
  main-plain_main w k c = ground (arith, serve-plain erl bridge w input k)
