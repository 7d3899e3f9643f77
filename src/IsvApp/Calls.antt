-- ===== src/IsvApp/Calls.antt =====
-- What the application calls, and its state.
use sgx_erlang_extension.Prelude.{
  ℕ, Option, none, some, Bool, true, false, List, [], ◌∷◌, ℤ, negsuc,
}
use sgx_erlang_extension.Process.{Outcome, waiting}
use sgx_erlang_extension.Sgx.{Status, success, eq_status}
use sgx_erlang_extension.ServiceProvider.Libcrypto.{Libcrypto}
use sgx_erlang_extension.ServiceProvider.State.{Sp}

-- The answers that the SDK's functions will give, in order: the group of
-- `sgx_get_extended_epid_group_id`, the status of `sgx_select_att_key_id`, the identifier of
-- `sgx_create_enclave` with the answer of `enclave_init_ra` after it, the messages of
-- `sgx_ra_get_msg1_ex` and of `sgx_ra_proc_msg2_ex`, and the two statuses of `enclave_ra_close`.
pub record Answers : Type 0 where
  pub groups : List (Status × ℕ)
  pub selections : List Status
  pub creations : List ((Status × ℕ) × (Status × Status) × ℕ)
  pub msg1s : List (Status × List ℕ)
  pub msg3s : List (Status × Option (List ℕ))
  pub closes : List (Status × Status)

-- What is done to enclaves, the end of a round in success, and the outcomes of the comparisons with
-- precomputed answers.
pub data Event : Type 0 where
  created : ℕ → Event
  closed : ℕ → ℕ → Event
  destroyed : ℕ → Event
  attested : Event
  compared_msg2 : Bool → Event
  compared_result : Bool → Event

-- `ret` holds a number or a status.
pub data Ret : Type 0 where
  number : ℤ → Ret
  code : Status → Ret

-- The variables of `main` that outlive a round, the secret in the enclave, the service provider, and
-- the events so far, the latest first.
pub record App (lib : Libcrypto) : Type 0 where
  pub answers : Answers
  pub sp : Sp lib
  pub enclave_id : ℕ
  pub context : ℕ
  pub enclave_lost_retry_time : ℤ
  pub busy_retry_time : ℤ
  pub g_secret : List ℕ
  pub events : List Event

-- How a part of a round ends: it goes on, jumps to CLEANUP with a value of `ret`, or leaves `main`.
pub data Exit (A : Type 0) : Type 0 where
  go : A → Exit A
  cleanup : Ret → Exit A
  leave : Outcome Ret → Exit A

abbrev pub Part : Type 0 → Type 0 → Type 0
Part S A = S → Exit A × S

abbrev pub go_on : {S A B : Type 0} → Exit A × S → (A → Part S B) → Exit B × S
go_on (r, s) f = elim r [ go a ↦ f a s | cleanup ret ↦ (cleanup ret, s) | leave o ↦ (leave o, s) ]

infixl 5 ◌>>=◌ ◌>>◌
abbrev pub ◌>>=◌ : {S A B : Type 0} → Part S A → (A → Part S B) → Part S B
◌>>=◌ m f s = go_on (m s) f

abbrev pub ◌>>◌ : {S A B : Type 0} → Part S A → Part S B → Part S B
m >> k = m >>= λ _. k

module _ {S : Type 0} where
  abbrev pub pure : {A : Type 0} → A → Part S A
  pure a s = (go a, s)

  abbrev pub gets : {A : Type 0} → (S → A) → Part S A
  gets f s = (go (f s), s)

  abbrev pub modify : (S → S) → Part S (Unit {0})
  modify f s = (go tt, f s)

  -- `if (test) { ret = r; goto CLEANUP; }`
  abbrev pub cleanup_if : Bool → Ret → Part S (Unit {0})
  cleanup_if test r s = (elim test [ true ↦ cleanup r | false ↦ go tt ], s)

  abbrev pub leave_if : Bool → Outcome Ret → Part S (Unit {0})
  leave_if test o s = (elim test [ true ↦ leave o | false ↦ go tt ], s)

  -- A value that must be there, such as a pointer that is tested against NULL.
  abbrev pub present : {A : Type 0} → Option A → Ret → Part S A
  present o r s = (elim o [ none ↦ cleanup r | some a ↦ go a ], s)

  -- A call that is not answered.
  abbrev pub answered : {A : Type 0} → Option A → Part S A
  answered o s = (elim o [ none ↦ leave waiting | some a ↦ go a ], s)

abbrev pub first : {A : Type 0} → List A → Option A
first [] = none
first (a ∷ more) = some a

abbrev pub rest : {A : Type 0} → List A → List A
rest [] = []
rest (a ∷ more) = more

abbrev pub is_success : Status → Bool
is_success status = eq_status status success

-- `ret = -1`
abbrev pub failed : Ret
failed = number (negsuc 0)
