-- ===== src/IsvApp/Rounds.antt =====
-- The enclaves that `main` of isv_app/isv_app.cpp destroys.
use sgx_erlang_extension.Prelude.{
  ℕ, ◌+◌, ◌≡◌, refl, ap, ◌∙◌, Bool, true, false, not, List, [], ◌∷◌, pos, Bool-cases, inl, inr,
  arith,
}
use sgx_erlang_extension.Sgx.Bridge.{Bridge}
use sgx_erlang_extension.IsvEnclave.{Crypto}
use sgx_erlang_extension.ServiceProvider.Libcrypto.{Libcrypto}
use sgx_erlang_extension.ServiceProvider.State.{Response}
use sgx_erlang_extension.ServiceProvider.Msg3.{AttResult}
use sgx_erlang_extension.IsvApp.Calls.{
  Event, created, closed, destroyed, attested, compared_msg2, compared_result, Ret, number, App,
  Exit, go, cleanup, leave, Part, go_on, ◌>>=◌, failed,
}
use sgx_erlang_extension.IsvApp.Round.{
  select_key, create_enclaves, get_msg1, send_msg1, get_msg3, send_msg3, both, put_secret, receive,
  clean_up, ending,
}
use sgx_erlang_extension.IsvApp.Main.{attest, round, rounds}
use sgx_erlang_extension.IsvApp.Keeps.{
  Keeps, still_kept, then-Keeps, get_msg1-Keeps, get_msg3-Keeps, create_enclaves-Keeps,
  select_key-Keeps, send_msg1-Keeps, send_msg3-Keeps,
}
use sgx_erlang_extension.IsvApp.Results.{checked, trusted, finishing}

-- How often an enclave has been destroyed.
abbrev pub destructions : List Event → ℕ
destructions [] = 0
destructions (destroyed id ∷ events) = 1 + destructions events
destructions (created id ∷ events) = destructions events
destructions (closed id context ∷ events) = destructions events
destructions (attested ∷ events) = destructions events
destructions (compared_msg2 b ∷ events) = destructions events
destructions (compared_result b ∷ events) = destructions events

module _ {lib : Libcrypto} where
  clean_up_destroys :
      (ret : Ret) (s : App lib) (r : Ret)
      → (clean_up ret s).0 ≡ go r
      → destructions (clean_up ret s).1.events ≡ destructions s.events + 1
  unfolding clean_up
  clean_up_destroys ret s r h = ground arith

module _ {lib : Libcrypto} (supplied : Bool) (crypto : Crypto) (bridge : Bridge (List ℕ)) where
  put_secret-Keeps :
      (r : Response AttResult) → Keeps destructions (put_secret {lib = lib} crypto bridge r)
  unfolding put_secret
  put_secret-Keeps r s = ground arith

  finishing-Keeps :
      (r : Response AttResult) → Keeps destructions (finishing {lib = lib} crypto bridge r)
  finishing-Keeps r s = elim (Bool-cases (trusted r)) [
    | inl e ↦ ground (arith, e, put_secret-Keeps r s)
    | inr e ↦ ground (arith, e)
  ]

  receive-Keeps :
      (r : Response AttResult) → Keeps destructions (receive {lib = lib} crypto bridge r)
  unfolding receive
  receive-Keeps r s =
      let answer = bridge.call (λ e. (checked crypto bridge r s, e)) s.g_secret in
      still_kept destructions
        (
          elim (not (both answer.0)) [ true ↦ cleanup failed | false ↦ go tt ],
          record s { g_secret = answer.1 },
        )
        (λ u. finishing crypto bridge r) (λ u. finishing-Keeps r)

  -- The parts of a round from each of its steps on.
  abbrev from_msg3 : Part (App lib) (Unit {0})
  from_msg3 = get_msg3 >>= λ msg3. send_msg3 supplied msg3 >>= receive crypto bridge

  from_msg3-Keeps : Keeps destructions from_msg3
  from_msg3-Keeps =
      then-Keeps destructions get_msg3 (λ msg3. send_msg3 supplied msg3 >>= receive crypto bridge)
        (get_msg3-Keeps destructions)
        λ msg3.
          then-Keeps destructions (send_msg3 supplied msg3) (receive crypto bridge)
            (send_msg3-Keeps destructions supplied msg3) receive-Keeps

  abbrev from_msg1 : Part (App lib) (Unit {0})
  from_msg1 = get_msg1 >>= λ msg1. send_msg1 supplied msg1 >>= λ _. from_msg3

  from_msg1-Keeps : Keeps destructions from_msg1
  from_msg1-Keeps =
      then-Keeps destructions get_msg1 (λ msg1. send_msg1 supplied msg1 >>= λ _. from_msg3)
        (get_msg1-Keeps destructions)
        λ msg1.
          then-Keeps destructions (send_msg1 supplied msg1) (λ _. from_msg3)
            (send_msg1-Keeps destructions supplied msg1) λ _. from_msg3-Keeps

  -- The enclaves are created from the answers that are left.
  abbrev from_enclaves : Part (App lib) (Unit {0})
  from_enclaves s = (create_enclaves s.answers.creations >>= λ _. from_msg1) s

  from_enclaves-Keeps : Keeps destructions from_enclaves
  from_enclaves-Keeps s =
      then-Keeps destructions (create_enclaves s.answers.creations) (λ _. from_msg1)
        (create_enclaves-Keeps destructions (λ id events. refl) s.answers.creations)
        (λ _. from_msg1-Keeps) s

  attest-Keeps : Keeps destructions (attest {lib = lib} supplied crypto bridge)
  unfolding attest
  attest-Keeps =
      then-Keeps destructions (select_key supplied) (λ _. from_enclaves)
        (select_key-Keeps destructions supplied) λ _. from_enclaves-Keeps

  ended :
      (r : Exit (Unit {0}) × App lib) (ret : Ret)
      → (ending r).0 ≡ go ret
      → destructions (ending r).1.events ≡ destructions r.1.events + 1
  ended (go a, t) ret h = clean_up_destroys (number (pos 0)) t ret h
  ended (cleanup r', t) ret h = clean_up_destroys r' t ret h
  ended (leave o, t) ret h = cc

  round_destroys :
      (s : App lib) (ret : Ret)
      → (round supplied crypto bridge s).0 ≡ go ret
      → destructions (round supplied crypto bridge s).1.events ≡ destructions s.events + 1
  unfolding round
  round_destroys s ret h =
      ended (attest supplied crypto bridge s) ret h ∙ ap (λ n. n + 1) (attest-Keeps s)

  two_rounds :
      (s : App lib) (first : Exit Ret × App lib) (ret : Ret)
      → ((r : Ret) → first.0 ≡ go r → destructions first.1.events ≡ destructions s.events + 1)
      → (go_on first λ _. round supplied crypto bridge).0 ≡ go ret
      → destructions (go_on first λ _. round supplied crypto bridge).1.events
        ≡ destructions s.events + 2
  two_rounds s (go r, t) ret k h = omega (arith, round_destroys t ret h, k r refl)
  two_rounds s (cleanup r, t) ret k h = cc
  two_rounds s (leave o, t) ret k h = cc

  -- If the two rounds run to their end, `sgx_destroy_enclave` has been called exactly twice in
  -- them, however many enclaves have been created and wherever the rounds have failed.
  pub rounds_destroy :
      (s : App lib) (ret : Ret)
      → (rounds supplied crypto bridge s).0 ≡ go ret
      → destructions (rounds supplied crypto bridge s).1.events ≡ destructions s.events + 2
  unfolding rounds
  rounds_destroy s ret h = two_rounds s (round supplied crypto bridge s) ret (round_destroys s) h
