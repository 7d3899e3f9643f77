-- ===== src/Token/Saves.antt =====
-- Which token `initialize_enclave` of erlang-nif_SSL/App/App.c hands over, and which it saves.
use sgx_erlang_extension.Prelude.{
  ℕ, ◌≡◌, refl, ◌∙◌, ap, append-nil, Bool, true, false, ◌&&◌, List, [], ◌∷◌, ◌++◌, if◌then◌else◌,
  arith,
}
use sgx_erlang_extension.Sgx.{success, eq_status}
use sgx_erlang_extension.Sgx.Errors.{print_error_message}
use sgx_erlang_extension.Token.Launch.{
  Answers, Created, Call, create_enclave, print_error, print_path, write, close, reopen, warn_save,
  Host, idle, initialize_enclave, open_token, read_token, save_token,
}
use sgx_erlang_extension.Token.Files.{given, opens, count, open_token_lem, read_token_lem}

-- The tokens that are written to the file, and those that the SDK is given, in order.
abbrev pub writes : List Call → List (List ℕ)
writes [] = []
writes (write t ∷ cs) = t ∷ writes cs
writes (c ∷ cs) = writes cs

abbrev pub creations : List Call → List (List ℕ)
creations [] = []
creations (create_enclave t ∷ cs) = t ∷ creations cs
creations (c ∷ cs) = creations cs

writes-append : (xs ys : List Call) → writes (xs ++ ys) ≡ writes xs ++ writes ys
writes-append [] ys = refl
writes-append (write t ∷ xs) ys = ap (λ r. t ∷ r) (writes-append xs ys)
writes-append (_ ∷ xs) ys = writes-append xs ys

creations-append : (xs ys : List Call) → creations (xs ++ ys) ≡ creations xs ++ creations ys
creations-append [] ys = refl
creations-append (create_enclave t ∷ xs) ys = ap (λ r. t ∷ r) (creations-append xs ys)
creations-append (_ ∷ xs) ys = creations-append xs ys

-- A call other than these two adds nothing to either list.
abbrev Same : List Call → List Call → Type 0
Same xs ys = (writes xs ≡ writes ys) × (creations xs ≡ creations ys)

quiet-Same :
    (xs : List Call) (c : Call)
    → writes (c ∷ []) ≡ []
    → creations (c ∷ []) ≡ []
    → Same (xs ++ (c ∷ [])) xs
quiet-Same xs c h k = (
  writes-append xs (c ∷ []) ∙ ap (λ r. writes xs ++ r) h ∙ append-nil (writes xs),
  creations-append xs (c ∷ []) ∙ ap (λ r. creations xs ++ r) k ∙ append-nil (creations xs),
)

Same-write :
    (xs : List Call) (t : List ℕ)
    → (writes (xs ++ (write t ∷ [])) ≡ writes xs ++ (t ∷ []))
      × (creations (xs ++ (write t ∷ [])) ≡ creations xs)
Same-write xs t = (
  writes-append xs (write t ∷ []),
  creations-append xs (write t ∷ []) ∙ append-nil (creations xs),
)

module _ (ans : Answers) where
  open_token-Same : Same (open_token ans idle).1.calls []
  unfolding open_token
  open_token-Same = ground arith

  read_token-Same : (b : Bool) (h : Host) → Same (read_token ans b h).1.calls h.calls
  unfolding read_token
  read_token-Same false h = (refl, refl)
  read_token-Same true h = grind (
    arith,
    writes-append,
    creations-append,
    append-nil (writes h.calls),
    append-nil (creations h.calls),
  )

  save_token-writes :
      (b : Bool) (made : Created) (h : Host)
      → h.streams ≡ count ans b
      → (writes (save_token ans b made h).1.calls
          ≡ writes h.calls ++ (if made.updated && b && ans.reopen then made.token ∷ [] else []))
        × (creations (save_token ans b made h).1.calls ≡ creations h.calls)
  unfolding save_token
  save_token-writes false made h e = grind (
    arith,
    writes-append,
    creations-append,
    append-nil (writes h.calls),
    append-nil (creations h.calls),
  )
  save_token-writes true made h e =
      let reopened = h.calls ++ (reopen ∷ []) in
      let saved = reopened ++ (write made.token ∷ []) in
      let warned = saved ++ (warn_save ∷ []) in
      ground (
        arith,
        quiet-Same h.calls close refl refl,
        quiet-Same h.calls reopen refl refl,
        Same-write reopened made.token,
        quiet-Same saved warn_save refl refl,
        quiet-Same saved close refl refl,
        quiet-Same warned close refl refl,
        append-nil (writes h.calls),
      )

  -- The enclave is created by one call, with the file's token if a whole one was read, and with
  -- zeros otherwise. A token is written to the file at most once: exactly if the enclave was
  -- created, the SDK has updated the token, and the file could be opened and opened again for
  -- writing. It is then the SDK's token.
  pub initialize_enclave_saves :
      let made = ans.create_enclave (given ans) in
      (creations (initialize_enclave ans idle).1.calls ≡ given ans ∷ [])
      × (writes (initialize_enclave ans idle).1.calls ≡ (
          if eq_status made.status success && (made.updated && opens ans && ans.reopen)
          then made.token ∷ []
          else []))
  unfolding initialize_enclave
  initialize_enclave_saves =
      let h = (open_token ans idle).1 in
      let h' = record h { calls = h.calls ++ (print_path ∷ []) } in
      let k = (read_token ans (opens ans) h').1 in
      let k' = record k { calls = k.calls ++ (create_enclave (given ans) ∷ []) } in
      let made = ans.create_enclave (given ans) in
      let reason = print_error (print_error_message made.status) in
      let failed = k'.calls ++ (reason ∷ []) in
      ground (
        arith,
        open_token_lem ans idle refl,
        read_token_lem ans (opens ans) h',
        save_token-writes (opens ans) made k',
        open_token-Same,
        read_token-Same (opens ans) h',
        quiet-Same h.calls print_path refl refl,
        writes-append k.calls (create_enclave (given ans) ∷ []),
        creations-append k.calls (create_enclave (given ans) ∷ []),
        quiet-Same k'.calls reason refl refl,
        quiet-Same failed close refl refl,
      )
