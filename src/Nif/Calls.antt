-- ===== src/Nif/Calls.antt =====
-- What a sequence of NIF calls answers.
use sgx_erlang_extension.Prelude.{ℕ, ◌+◌, ◌%◌, ◌^◌, ◌≡◌, refl, List, [], ◌∷◌, pos, int32, arith}
use sgx_erlang_extension.Process.{Run, returned, pure, ◌>>=◌}
use sgx_erlang_extension.Sgx.Bridge.{Bridge}
use sgx_erlang_extension.Counter.{Enclave, plain_increment, plain_return_a}
use sgx_erlang_extension.Counter.Laws.{IsWorking, my_increment_working, my_return_a_working}
use sgx_erlang_extension.Nif.{ErlNif, increment_nif, rtrn_nif, plain_increment_nif, plain_rtrn_nif}

-- `enclave_communicator:increment()` and `enclave_communicator:rtrn()`.
pub data Request : Type 0 where
  increment rtrn : Request

module _ (nif : ErlNif) where
  open nif use {Term, make_int}

  abbrev pub nif_call : Bridge Enclave → Request → Run Enclave Term
  nif_call bridge increment = increment_nif nif bridge
  nif_call bridge rtrn = rtrn_nif nif bridge

  abbrev pub plain_call : Request → Run Enclave Term
  plain_call increment = plain_increment_nif nif
  plain_call rtrn = plain_rtrn_nif nif

  -- The calls of an Erlang process, one after the other.
  unfoldable pub run_calls : (Request → Run Enclave Term) → List Request → Run Enclave (List Term)
  run_calls f [] = pure []
  run_calls f (r ∷ rs) = do t ← f r; ts ← run_calls f rs; pure (t ∷ ts)

  abbrev pub count_after : Request → ℕ → ℕ
  count_after increment n = (n + 1) % 2 ^ 32
  count_after rtrn n = n

  abbrev pub answer : Request → ℕ → Term
  answer increment n = make_int (pos 0)
  answer rtrn n = make_int (int32 n)

  -- The answers of a counter that stands at `n`, and where it stands after them.
  pub answers : List Request → ℕ → List Term
  answers [] n = []
  answers (r ∷ rs) n = answer r n ∷ answers rs (count_after r n)

  pub final_count : List Request → ℕ → ℕ
  final_count [] n = n
  final_count (r ∷ rs) n = final_count rs (count_after r n)

  abbrev Answers : (Request → Run Enclave Term) → Type 0
  Answers f =
      (r : Request) (n : ℕ)
      → f r (record { a = n }) ≡ (returned (answer r n), record { a = count_after r n })

  run_calls-answers :
      (f : Request → Run Enclave Term)
      → Answers f
      → (rs : List Request) (n : ℕ)
      → run_calls f rs (record { a = n })
        ≡ (returned (answers rs n), record { a = final_count rs n })
  unfolding run_calls answers final_count
  run_calls-answers f h [] n = refl
  run_calls-answers f h (r ∷ rs) n =
      ground (arith, h r n, run_calls-answers f h rs (count_after r n))

  plain_call-Answers : Answers plain_call
  unfolding plain_increment_nif plain_rtrn_nif plain_increment plain_return_a
  plain_call-Answers increment n = refl
  plain_call-Answers rtrn n = refl

  nif_call-Answers : (bridge : Bridge Enclave) → IsWorking bridge → Answers (nif_call bridge)
  unfolding increment_nif rtrn_nif plain_increment plain_return_a
  nif_call-Answers bridge w increment n =
      ground (arith, my_increment_working bridge w (record { a = n }))
  nif_call-Answers bridge w rtrn n = ground (arith, my_return_a_working bridge w (record { a = n }))

  -- Over a bridge whose calls succeed, any sequence of calls of the NIFs from a counter `n` on
  -- returns the terms 0 for each increment and the counter's value as a signed integer for each
  -- read, with as many increments counted as came before; the library without an enclave returns
  -- the same.
  pub nif_calls-answers :
      (bridge : Bridge Enclave)
      → IsWorking bridge
      → (rs : List Request) (n : ℕ)
      → (run_calls (nif_call bridge) rs (record { a = n })
          ≡ (returned (answers rs n), record { a = final_count rs n }))
        × (run_calls plain_call rs (record { a = n })
            ≡ (returned (answers rs n), record { a = final_count rs n }))
  nif_calls-answers bridge w rs n = (
    run_calls-answers (nif_call bridge) (nif_call-Answers bridge w) rs n,
    run_calls-answers plain_call plain_call-Answers rs n,
  )
