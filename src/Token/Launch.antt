-- ===== src/Token/Launch.antt =====
-- Steps 1 to 3 of `initialize_enclave` after the path has been composed: the token file is read,
-- the enclave is created with the token, and a token that the SDK has updated is saved. Then the
-- callbacks of the library, of the same file.
use sgx_erlang_extension.Prelude.{
  ℕ, ◌+◌, ◌-◌, Bool, true, false, ◌||◌, ◌&&◌, not, List, [], ◌∷◌, ◌++◌, ℤ, pos, negsuc, is_negative,
  length, ◌==◌, if◌then◌else◌,
}
use sgx_erlang_extension.Process.{Run, pure, stop, modify, crashed, ◌>>=◌, ◌>>◌}
use sgx_erlang_extension.Sgx.{Status, success, eq_status}
use sgx_erlang_extension.Sgx.Errors.{Line, print_error_message}
use sgx_erlang_extension.Token.Buffer.{cleared}

-- What `sgx_create_enclave` gives: its status, and the flag and the token that it writes.
pub record Created : Type 0 where
  pub status : Status
  pub updated : Bool
  pub token : List ℕ

-- What the C library and the SDK answer: whether the three calls that open the file succeed, the
-- bytes that `fread` delivers, the creation of the enclave with a given token, and the number of
-- bytes that `fwrite` takes. `token_size` is `sizeof(sgx_launch_token_t)`.
pub record Answers : Type 0 where
  pub token_size : ℕ
  pub open_read : Bool
  pub open_write : Bool
  pub read : List ℕ
  pub create_enclave : List ℕ → Created
  pub reopen : Bool
  pub written : ℕ

pub data Call : Type 0 where
  open_read open_write warn_open print_path read warn_invalid reopen warn_save close : Call
  hello_load hello_unload hello_upgrade went_wrong destroy_enclave : Call
  create_enclave : List ℕ → Call
  print_error : List Line → Call
  write : List ℕ → Call

-- How many streams are open, and the calls that have been made.
pub record Host : Type 0 where
  pub streams : ℕ
  pub calls : List Call

abbrev pub idle : Host
idle = record { streams = 0; calls = [] }

abbrev call : Call → Run Host (Unit {0})
call c = modify (λ h. record h { calls = h.calls ++ (c ∷ []) })

-- A call that opens a stream, or fails; the result is whether the stream is not NULL.
abbrev open_stream : Call → Bool → Run Host Bool
open_stream c succeeds = do
  call c
  if succeeds then (modify (λ h. record h { streams = h.streams + 1 }) >> pure true) else pure false

-- `fclose` of a stream that is not open is undefined.
abbrev fclose : Run Host (Unit {0})
fclose h =
    (call close
        >> (if h.streams == 0
            then stop crashed
            else modify (λ g. record g { streams = g.streams - 1 })))
      h

-- `freopen` closes the stream in any case, and opens it anew or fails.
abbrev freopen : Bool → Run Host Bool
freopen succeeds h =
    (call reopen
        >> (if h.streams == 0
            then stop crashed
            else if succeeds
            then pure true
            else (modify (λ g. record g { streams = g.streams - 1 }) >> pure false)))
      h

abbrev close_if : Bool → Run Host (Unit {0})
close_if opened = if opened then fclose else pure tt

module _ (ans : Answers) where
  -- `fopen(token_path, "rb")`, and on failure `"wb"`.
  unfoldable pub open_token : Run Host Bool
  open_token = do
    opened ← open_stream open_read ans.open_read
    if opened then pure true else do
      created ← open_stream open_write ans.open_write
      if created then pure true else (call warn_open >> pure false)

  -- The token after the attempt to read it: the bytes that were read over zeros, or zeros if their
  -- number is neither 0 nor the size of a token.
  unfoldable pub read_token : Bool → Run Host (List ℕ)
  read_token false = pure (cleared ans.token_size)
  read_token true = do
    call read
    if not (length ans.read == 0) && not (length ans.read == ans.token_size)
        then (call warn_invalid >> pure (cleared ans.token_size))
        else pure (ans.read ++ cleared (ans.token_size - length ans.read))

  -- Step 3.
  unfoldable pub save_token : Bool → Created → Run Host ℤ
  save_token opened made =
      if not made.updated || not opened then (close_if opened >> pure (pos 0)) else do
        again ← freopen ans.reopen
        if again
            then (call (write made.token)
                >> (if ans.written == ans.token_size then pure tt else call warn_save)
                >> fclose
                >> pure (pos 0))
            else pure (pos 0)

  unfoldable pub initialize_enclave : Run Host ℤ
  initialize_enclave = do
    opened ← open_token
    call print_path
    token ← read_token opened
    call (create_enclave token)
    let made = ans.create_enclave token
    if eq_status made.status success then save_token opened made else do
      call (print_error (print_error_message made.status))
      close_if opened
      pure (negsuc 0)

  -- The callbacks of the library. `unload` destroys the enclave of `global_eid`.
  unfoldable pub load : Run Host ℤ
  unfolding initialize_enclave
  load = do
    call hello_load
    ret ← initialize_enclave
    if is_negative ret then (call went_wrong >> pure (negsuc 0)) else pure (pos 0)

  unfoldable pub upgrade : Run Host ℤ
  unfolding load
  upgrade = do call hello_upgrade; load

unfoldable pub unload : Run Host (Unit {0})
unload = do call destroy_enclave; call hello_unload
