-- ===== src/CNode.antt =====
-- The C node: `main` of erlang-c-node/App/App.c, and of without-sgx/erlang-c-node/App/App.c for the
-- version without an enclave. This file has the handling of one message and the `while (loop)`;
-- CNode/Start.antt has `my_listen` and `main` itself.
pub mod Start
pub mod Atoms
pub mod Replies
pub mod Startup
pub mod Runs
mod Tests
use sgx_erlang_extension.Prelude.{
  ℕ, Option, none, some, Bool, List, [], ◌∷◌, ◌++◌, codes, strncmp_zero, if◌then◌else◌,
}
use sgx_erlang_extension.Process.{Run, pure, stop, gets, modify, deref, waiting, ◌>>=◌, ◌>>◌}
use sgx_erlang_extension.Sgx.Bridge.{Bridge}
use sgx_erlang_extension.Counter.{
  Enclave, initial, my_increment, my_return_a, plain_increment, plain_return_a,
}

-- What the node uses of the library erl_interface, which is not part of the repository: the terms
-- of Erlang, `erl_element` on a term that is not NULL (`none` for NULL), and the C string behind
-- `ERL_ATOM_PTR` (`none` where the term is no atom and the macro must not be used).
pub record ErlInterface : Type 1 where
  pub Eterm : Type 0
  pub element : ℕ → Eterm → Option Eterm
  pub atom_ptr : Eterm → Option (List ℕ)

-- `emsg.type`: ERL_REG_SEND or any other.
pub data MessageType : Type 0 where
  reg_send : MessageType
  other_type : ℕ → MessageType

-- What `erl_receive_msg` gives: ERL_TICK, ERL_ERROR, or a message with its `type`, `msg`, `from`.
pub data Got (T : Type 0) : Type 0 where
  tick : Got T
  error : Got T
  message : MessageType → T → T → Got T

-- What a call of `erl_free_term` is given: a term or NULL, or the reply that `erl_format` built.
pub data Freed (T : Type 0) : Type 0 where
  term : Option T → Freed T
  reply : Freed T

-- The data of the running node. `res` is a local variable without an initial value, `none` until it
-- is assigned. `sent` holds the destination and the integer of each reply `{cnode, res}`, in order;
-- a `none` there is an indeterminate integer. `freed` are the calls of `erl_free_term`.
pub record Server (T : Type 0) : Type 0 where
  pub enclave : Enclave
  pub res : Option ℕ
  pub sent : List (Option T × Option ℕ)
  pub freed : List (Freed T)

abbrev pub fresh : {T : Type 0} → Server T
fresh = record { enclave = initial; res = none; sent = []; freed = [] }

abbrev pub on_enclave : {T A : Type 0} → Run Enclave A → Run (Server T) A
on_enclave f s = let (o, e) = f s.enclave in (o, record s { enclave = e })

abbrev pub set_res : {T : Type 0} → Option ℕ → Run (Server T) (Unit {0})
set_res r = modify (λ s. record s { res = r })

abbrev pub is_increment : List ℕ → Bool
is_increment name = strncmp_zero name (codes "increment") 9

abbrev pub is_return : List ℕ → Bool
is_return name = strncmp_zero name (codes "return") 6

-- The two `if`s of the enclave's version, one after the other.
unfoldable pub dispatch : {T : Type 0} → Bridge Enclave → List ℕ → Run (Server T) (Unit {0})
dispatch bridge name = do
  if is_increment name then on_enclave (my_increment bridge) >> set_res (some 0) else pure tt
  if is_return name then on_enclave (my_return_a bridge) >>= (λ r. set_res (some r)) else pure tt

-- The `if`, `else if`, `else` of the version without an enclave.
unfoldable pub plain_dispatch : {T : Type 0} → List ℕ → Run (Server T) (Unit {0})
plain_dispatch name =
    if is_increment name
    then on_enclave plain_increment >> set_res (some 0)
    else if is_return name
    then on_enclave plain_return_a >>= (λ r. set_res (some r))
    else set_res (some 1)

abbrev atom_of : (erl : ErlInterface) → Option erl.Eterm → Option (List ℕ)
atom_of erl none = none
atom_of erl (some t) = erl.atom_ptr t

-- `erl_format("{cnode, ~i}", res)`, `erl_send(fd, fromp, resp)` and the calls of `erl_free_term`.
abbrev pub answer :
    {T : Type 0} → Option T → Option T → Option T → Option T → T → T → Server T → Server T
answer fromp tuplep fnp argp msg from s = record s {
  sent = s.sent ++ ((fromp, s.res) ∷ []);
  freed =
      s.freed
      ++ (term (some from)
          ∷ term (some msg)
          ∷ term fromp
          ∷ term tuplep
          ∷ term fnp
          ∷ term argp
          ∷ reply
          ∷ []);
}

module _ (erl : ErlInterface) where
  open erl use {Eterm, element, atom_ptr}

  -- The body of the branch for ERL_REG_SEND, around one of the two dispatches.
  unfoldable pub handle :
      (List ℕ → Run (Server Eterm) (Unit {0})) → Eterm → Eterm → Run (Server Eterm) (Unit {0})
  handle dispatch msg from = do
    let fromp = element 2 msg
    tuplep ← deref (element 3 msg)
    let fnp = element 1 tuplep
    let argp = element 2 tuplep
    name ← deref (atom_of erl fnp)
    dispatch name
    modify (answer fromp (some tuplep) fnp argp msg from)

  -- `while (loop)` over what the peer sends. When that is used up `erl_receive_msg` blocks.
  unfoldable pub serve :
      (List ℕ → Run (Server Eterm) (Unit {0})) → List (Got Eterm) → Run (Server Eterm) (Unit {0})
  serve dispatch [] = stop waiting
  serve dispatch (tick ∷ rest) = serve dispatch rest
  serve dispatch (error ∷ rest) = pure tt
  serve dispatch (message reg_send msg from ∷ rest) =
      handle dispatch msg from >> serve dispatch rest
  serve dispatch (message (other_type n) msg from ∷ rest) = serve dispatch rest
