-- ===== src/CNode/Start.antt =====
-- `my_listen`, `initialize_enclave` and `main` of erlang-c-node/App/App.c, and `main` of
-- without-sgx/erlang-c-node/App/App.c.
use sgx_erlang_extension.Prelude.{
  ℕ, Option, none, some, Bool, true, false, List, [], ◌∷◌, ◌++◌, String, ℤ, pos, negsuc,
  is_negative, is_not_positive, is_minus_one, if◌then◌else◌,
}
use sgx_erlang_extension.Process.{Run, pure, stop, modify, exited, ◌>>=◌, ◌>>◌}
use sgx_erlang_extension.Sgx.{Status, success, eq_status}
use sgx_erlang_extension.Sgx.Errors.{Line, print_error_message}
use sgx_erlang_extension.Sgx.Bridge.{Bridge}
use sgx_erlang_extension.Counter.{Enclave}
use sgx_erlang_extension.CNode.{ErlInterface, Got, Server, fresh, dispatch, plain_dispatch, serve}

-- What the SDK, the C library and erl_interface answer. `accept` is the descriptor of the
-- connection, or `none` for ERL_ERROR.
pub record Answers : Type 0 where
  pub create_enclave : Status
  pub connect_init : ℤ
  pub socket : ℤ
  pub bind : ℤ
  pub publish : ℤ
  pub accept : Option ℕ

-- The calls that leave the application, in order. `quit` is `erl_err_quit`.
pub data Call : Type 0 where
  create_enclave destroy_enclave went_wrong erl_init connect_init socket set_reuse_address : Call
  print_error : List Line → Call
  bind : ℕ → Call
  listen : ℤ → ℕ → Call
  publish : ℕ → Call
  accept : ℤ → Call
  quit : String → Call

pub record Node (T : Type 0) : Type 0 where
  pub server : Server T
  pub calls : List Call

abbrev pub started : {T : Type 0} → Node T
started = record { server = fresh; calls = [] }

module _ {T : Type 0} where
  abbrev pub call : Call → Run (Node T) (Unit {0})
  call c = modify (λ n. record n { calls = n.calls ++ (c ∷ []) })

  -- `erl_err_quit` prints the text and ends the process with status 1.
  abbrev pub err_quit : String → Run (Node T) (Unit {0})
  err_quit text = call (quit text) >> stop (exited 1)

  abbrev pub quit_if : Bool → String → Run (Node T) (Unit {0})
  quit_if test text = if test then err_quit text else pure tt

  abbrev pub on_server : {A : Type 0} → Run (Server T) A → Run (Node T) A
  on_server f n = let (o, s) = f n.server in (o, record n { server = s })

abbrev pub is_none {ℓ} : {A : Type ℓ} → Option A → Bool
is_none none = true
is_none (some a) = false

abbrev pub cnode_port : ℕ
cnode_port = 3456

module _ {T : Type 0} (ans : Answers) where
  unfoldable pub initialize_enclave : Run (Node T) ℤ
  initialize_enclave = do
    call create_enclave
    if eq_status ans.create_enclave success
        then pure (pos 0)
        else (call (print_error (print_error_message ans.create_enclave)) >> pure (negsuc 0))

  unfoldable pub my_listen : ℕ → Run (Node T) ℤ
  my_listen port = do
    call socket
    if is_negative ans.socket then pure (negsuc 0) else do
      call set_reuse_address
      call (bind port)
      if is_negative ans.bind
          then pure (negsuc 0)
          else (call (listen ans.socket 5) >> pure ans.socket)

  -- From `erl_init` to the accepted connection.
  unfoldable pub connect : Run (Node T) (Unit {0})
  unfolding my_listen
  connect = do
    call erl_init
    call connect_init
    quit_if (is_minus_one ans.connect_init) "erl_connect_init"
    fd ← my_listen cnode_port
    quit_if (is_not_positive fd) "my_listen"
    call (publish cnode_port)
    quit_if (is_minus_one ans.publish) "erl_publish"
    call (accept fd)
    quit_if (is_none ans.accept) "erl_accept"

module _ (erl : ErlInterface) (ans : Answers) (input : List (Got erl.Eterm)) where
  unfoldable pub main : Bridge Enclave → Run (Node erl.Eterm) ℤ
  unfolding initialize_enclave connect
  main bridge = do
    ret ← initialize_enclave ans
    if is_negative ret then (call went_wrong >> pure (negsuc 0)) else do
      connect ans
      on_server (serve erl (dispatch bridge) input)
      call destroy_enclave
      pure (pos 0)

  unfoldable pub plain_main : Run (Node erl.Eterm) ℤ
  unfolding connect
  plain_main = do connect ans; on_server (serve erl plain_dispatch input); pure (pos 0)
