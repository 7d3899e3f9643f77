-- ===== src/IsvApp/Main.antt =====
-- `main` of isv_app/isv_app.cpp: two rounds.
use sgx_erlang_extension.Prelude.{ℕ, ◌^◌, ◌-◌, Bool, List, [], pos, zeros}
use sgx_erlang_extension.Process.{Outcome, returned}
use sgx_erlang_extension.Sgx.Bridge.{Bridge}
use sgx_erlang_extension.IsvEnclave.{Crypto}
use sgx_erlang_extension.ServiceProvider.Libcrypto.{Libcrypto}
use sgx_erlang_extension.ServiceProvider.State.{Sp}
use sgx_erlang_extension.IsvApp.Calls.{
  Answers, Ret, App, go, cleanup, leave, Part, ◌>>=◌, ◌>>◌, gets,
}
use sgx_erlang_extension.IsvApp.Round.{
  select_key, create_enclaves, get_msg1, send_msg1, get_msg3, send_msg3, receive, ending,
}

module _ {lib : Libcrypto} (supplied : Bool) (crypto : Crypto) (bridge : Bridge (List ℕ)) where
  -- A round up to CLEANUP.
  unfoldable pub attest : Part (App lib) (Unit {0})
  attest = do
    select_key supplied
    answers ← gets (λ s. s.answers)
    create_enclaves answers.creations
    msg1 ← get_msg1
    send_msg1 supplied msg1
    msg3 ← get_msg3
    r ← send_msg3 supplied msg3
    receive crypto bridge r

  unfoldable pub round : Part (App lib) Ret
  round s = ending (attest s)

  -- The two rounds. The result of the first is dropped.
  unfoldable pub rounds : Part (App lib) Ret
  rounds = round >> round

  unfoldable pub main : App lib → Outcome Ret × App lib
  main s =
      let (r, t) = rounds s in
      elim r [ go ret ↦ (returned ret, t) | cleanup ret ↦ (returned ret, t) | leave o ↦ (o, t) ]

-- The variables when `main` begins.
abbrev pub initial_app : {lib : Libcrypto} → Answers → Sp lib → App lib
initial_app answers sp = record {
  answers = answers;
  sp = sp;
  enclave_id = 0;
  context = 2 ^ 31 - 1;
  enclave_lost_retry_time = pos 1;
  busy_retry_time = pos 4;
  g_secret = zeros 8;
  events = [];
}
