-- ===== src/Token/Files.antt =====
-- What `initialize_enclave` of erlang-nif_SSL/App/App.c does to the token file, on every path.
use sgx_erlang_extension.Prelude.{
  ℤ, ℕ, ◌≡◌, refl, ap, suc, append-nil, Bool, true, false, ◌&&◌, not, List, [], ◌∷◌, ◌++◌, pos,
  negsuc, length, ◌==◌, if◌then◌else◌, arith, ◌||◌, ◌-◌,
}
use sgx_erlang_extension.Process.{returned}
use sgx_erlang_extension.Sgx.{success, eq_status}
use sgx_erlang_extension.Token.Buffer.{cleared}
use sgx_erlang_extension.Token.Launch.{
  Answers, Created, create_enclave, print_path, Host, idle, initialize_enclave, load, upgrade,
  hello_load, hello_upgrade, open_token, read_token, save_token,
}

-- The token that the SDK is given: a whole token from the file, and zeros otherwise.
abbrev pub given : Answers → List ℕ
given ans =
    if (ans.open_read || ans.open_write) && length ans.read == ans.token_size
    then ans.read
    else cleared ans.token_size

-- The token that is read is the one described, and reading leaves the streams alone.
cleared_0 : (n k : ℕ) → n ≡ k → cleared (n - k) ≡ []
cleared_0 n k e = ap cleared {x = n - k} {y = 0} (omega arith)

read_cases :
    (size : ℕ) (read : List ℕ)
    → (if not (length read == 0) && not (length read == size)
        then cleared size
        else read ++ cleared (size - length read))
      ≡ (if length read == size then read else cleared size)
read_cases size [] = ground (arith, cleared_0 size 0)
read_cases size (b ∷ read) =
    ground (arith, cleared_0 size (suc (length read)), append-nil (b ∷ read))

module _ (ans : Answers) where
  -- Whether the token file could be opened, for reading or else for writing.
  abbrev pub opens : Bool
  opens = ans.open_read || ans.open_write

  abbrev pub count : Bool → ℕ
  count b = if b then 1 else 0

  pub open_token_lem :
      (h : Host)
      → h.streams ≡ 0
      → ((open_token ans h).0 ≡ returned opens) × ((open_token ans h).1.streams ≡ count opens)
  unfolding open_token
  open_token_lem h e = ground arith

  pub read_token_lem :
      (b : Bool) (h : Host)
      → ((read_token ans b h).0
          ≡ returned
              (if b && length ans.read == ans.token_size then ans.read else cleared ans.token_size))
        × ((read_token ans b h).1.streams ≡ h.streams)
  unfolding read_token
  read_token_lem false h = (refl, refl)
  read_token_lem true h = ground (arith, read_cases ans.token_size ans.read)

  save_token_lem :
      (b : Bool) (made : Created) (h : Host)
      → h.streams ≡ count b
      → ((save_token ans b made h).0 ≡ returned (pos 0)) × ((save_token ans b made h).1.streams ≡ 0)
  unfolding save_token
  save_token_lem false made h e = ground arith
  save_token_lem true made h e = ground arith

  -- How the start ends.
  abbrev status : ℤ
  status = if eq_status (ans.create_enclave (given ans)).status success then pos 0 else negsuc 0

  initialize_enclave_ends :
      (g : Host)
      → g.streams ≡ 0
      → ((initialize_enclave ans g).0 ≡ returned status)
        × ((initialize_enclave ans g).1.streams ≡ 0)
  unfolding initialize_enclave
  initialize_enclave_ends g e =
      let h = (open_token ans g).1 in
      let h' = record h { calls = h.calls ++ (print_path ∷ []) } in
      let k = (read_token ans opens h').1 in
      let k' = record k { calls = k.calls ++ (create_enclave (given ans) ∷ []) } in
      ground (
        arith,
        open_token_lem g e,
        read_token_lem opens h',
        save_token_lem opens (ans.create_enclave (given ans)) k',
      )

  -- `initialize_enclave` returns on every path: 0 exactly if the SDK creates the enclave, and -1
  -- otherwise. The token that the SDK is given is the file's if a whole one was read, and zeros
  -- otherwise. Every stream that was opened is closed at the return, none of them twice.
  pub initialize_enclave_closes :
      ((initialize_enclave ans idle).0
        ≡ returned
            (if eq_status (ans.create_enclave (given ans)).status success then pos 0 else negsuc 0))
      × ((initialize_enclave ans idle).1.streams ≡ 0)
  initialize_enclave_closes = initialize_enclave_ends idle refl

  -- From any host without open streams, `load` returns 0 exactly if the SDK creates the enclave
  -- with the token that it is given, and -1 otherwise, and `upgrade` returns the same. After
  -- each of them no stream is open.
  pub load_closes :
      (h : Host)
      → h.streams ≡ 0
      → ((load ans h).0
          ≡ returned (
              if eq_status (ans.create_enclave (given ans)).status success
              then pos 0
              else negsuc 0))
        × ((load ans h).1.streams ≡ 0)
        × ((upgrade ans h).0 ≡ (load ans h).0)
        × ((upgrade ans h).1.streams ≡ 0)
  unfolding load upgrade
  load_closes h e = ground (
    arith,
    initialize_enclave_ends (record h { calls = h.calls ++ (hello_load ∷ []) }) e,
    initialize_enclave_ends
        (record h { calls = (h.calls ++ (hello_upgrade ∷ [])) ++ (hello_load ∷ []) }) e,
  )
