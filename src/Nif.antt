-- ===== src/Nif.antt =====
-- The NIF library: `load`, `unload`, `upgrade`, `increment_nif`, `rtrn_nif` and the table
-- `nif_funcs` of erlang-nif/App/App.c, and the same of without-sgx/erlang-nif/App/App.c.
pub mod Lifecycle
pub mod Calls
mod Tests
use sgx_erlang_extension.Prelude.{
  ℕ, ◌≡◌, Option, none, some, Bool, List, [], ◌∷◌, ◌++◌, ℤ, pos, negsuc, is_negative, int32,
  if◌then◌else◌, ◌==◌, ◌&&◌, codes, bytes_eq, String,
}
use sgx_erlang_extension.Process.{Run, pure, modify, ◌>>=◌, ◌>>◌}
use sgx_erlang_extension.Sgx.{Status, success, eq_status}
use sgx_erlang_extension.Sgx.Errors.{Line, print_error_message}
use sgx_erlang_extension.Sgx.Bridge.{Bridge}
use sgx_erlang_extension.Sgx.Sdk.{Sdk}
use sgx_erlang_extension.Counter.{
  Enclave, my_increment, my_return_a, plain_increment, plain_return_a,
}

-- What is printed: the greetings of the three callbacks, the complaint of `load`, and the lines of
-- `print_error_message`.
pub data Print : Type 0 where
  hello_load hello_unload hello_upgrade went_wrong : Print
  print_error : List Line → Print

-- The library's global variable, the world behind the SDK, and what has been printed.
pub record Library (W : Type 0) : Type 0 where
  pub global_eid : ℕ
  pub world : W
  pub printed : List Print

module _ {W : Type 0} where
  abbrev pub print : Print → Run (Library W) (Unit {0})
  print p = modify (λ l. record l { printed = l.printed ++ (p ∷ []) })

module _ (sdk : Sdk) where
  open sdk use {World, create_enclave, destroy_enclave}

  -- `sgx_create_enclave(…, &global_eid, NULL)`
  abbrev create : Run (Library World) Status
  create l =
      let ((ret, eid), w) = create_enclave l.world in
      pure ret
        (record l { global_eid = if eq_status ret success then eid else l.global_eid; world = w })

  unfoldable pub initialize_enclave : Run (Library World) ℤ
  initialize_enclave = do
    ret ← create
    if eq_status ret success
        then pure (pos 0)
        else (print (print_error (print_error_message ret)) >> pure (negsuc 0))

  unfoldable pub load : Run (Library World) ℤ
  unfolding initialize_enclave
  load = do
    print hello_load
    ret ← initialize_enclave
    if is_negative ret then (print went_wrong >> pure (negsuc 0)) else pure (pos 0)

  unfoldable pub unload : Run (Library World) (Unit {0})
  unload = do
    modify (λ l. record l { world = destroy_enclave l.global_eid l.world })
    print hello_unload

  unfoldable pub upgrade : Run (Library World) ℤ
  unfolding load
  upgrade = do print hello_upgrade; load

-- The callbacks of the version without an enclave.
module _ {W : Type 0} where
  unfoldable pub plain_load : Run (Library W) ℤ
  plain_load = do print hello_load; pure (pos 0)

  unfoldable pub plain_unload : Run (Library W) (Unit {0})
  plain_unload = print hello_unload

  unfoldable pub plain_upgrade : Run (Library W) ℤ
  unfolding plain_load
  plain_upgrade = do print hello_upgrade; plain_load

-- The terms of the virtual machine and `enif_make_int`, which are not part of the repository.
pub record ErlNif : Type 1 where
  pub Term : Type 0
  pub make_int : ℤ → Term

-- `ErlNifFunc`: name, arity and function.
pub record ErlNifFunc (T : Type 0) : Type 0 where
  pub name : List ℕ
  pub arity : ℕ
  pub fptr : Run Enclave T

module _ (nif : ErlNif) where
  open nif use {Term, make_int}

  unfoldable pub increment_nif : Bridge Enclave → Run Enclave Term
  increment_nif bridge = do my_increment bridge; pure (make_int (pos 0))

  unfoldable pub rtrn_nif : Bridge Enclave → Run Enclave Term
  rtrn_nif bridge = do ret ← my_return_a bridge; pure (make_int (int32 ret))

  unfoldable pub plain_increment_nif : Run Enclave Term
  plain_increment_nif = do plain_increment; pure (make_int (pos 0))

  unfoldable pub plain_rtrn_nif : Run Enclave Term
  plain_rtrn_nif = do ret ← plain_return_a; pure (make_int (int32 ret))

  abbrev pub nif_funcs : Bridge Enclave → List (ErlNifFunc Term)
  nif_funcs bridge =
      record { name = codes "increment"; arity = 0; fptr = increment_nif bridge }
      ∷ record { name = codes "rtrn"; arity = 0; fptr = rtrn_nif bridge }
      ∷ []

  abbrev pub plain_nif_funcs : List (ErlNifFunc Term)
  plain_nif_funcs =
      record { name = codes "increment"; arity = 0; fptr = plain_increment_nif }
      ∷ record { name = codes "rtrn"; arity = 0; fptr = plain_rtrn_nif }
      ∷ []
