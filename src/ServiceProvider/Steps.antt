-- ===== src/ServiceProvider/Steps.antt =====
-- The handlers of the service provider run in a `do { … } while(0)` that a failing step leaves with
-- `ret` set and `break`. The monad of such steps over a state.
use sgx_erlang_extension.Prelude.{Option, none, some, Bool, true, false, ℤ, pos}
use sgx_erlang_extension.Process.{Outcome, returned, crashed}

-- `ok` goes on, `fail ret` is a `break`, and `crash` is an access outside an array.
pub data Result {ℓ} (A : Type ℓ) : Type ℓ where
  ok : A → Result A
  fail : ℤ → Result A
  crash : Result A

abbrev pub Steps : Type 0 → Type 0 → Type 0
Steps S A = S → Result A × S

abbrev pub go_on : {S A B : Type 0} → Result A × S → (A → Steps S B) → Result B × S
go_on (r, s) f = elim r [ ok a ↦ f a s | fail n ↦ (fail n, s) | crash ↦ (crash, s) ]

infixl 5 ◌>>=◌ ◌>>◌
abbrev pub ◌>>=◌ : {S A B : Type 0} → Steps S A → (A → Steps S B) → Steps S B
◌>>=◌ m f s = go_on (m s) f

abbrev pub ◌>>◌ : {S A B : Type 0} → Steps S A → Steps S B → Steps S B
m >> k = m >>= λ _. k

module _ {S : Type 0} where
  abbrev pub pure : {A : Type 0} → A → Steps S A
  pure a s = (ok a, s)

  abbrev pub gets : {A : Type 0} → (S → A) → Steps S A
  gets f s = (ok (f s), s)

  abbrev pub modify : (S → S) → Steps S (Unit {0})
  modify f s = (ok tt, f s)

  -- `if (test) { ret = n; break; }`
  abbrev pub fail_if : Bool → ℤ → Steps S (Unit {0})
  fail_if test n s = (elim test [ true ↦ fail n | false ↦ ok tt ], s)

  abbrev pub crash_if : Bool → Steps S (Unit {0})
  crash_if test s = (elim test [ true ↦ crash | false ↦ ok tt ], s)

  -- The result of a call whose status is checked: nothing if the status is not SAMPLE_SUCCESS.
  abbrev pub require : {A : Type 0} → Option A → ℤ → Steps S A
  require o n s = (elim o [ none ↦ fail n | some a ↦ ok a ], s)

-- After the steps: a response is handed out exactly if `ret` is 0.
abbrev pub finish : {S A : Type 0} → Result A × S → Outcome (ℤ × Option A) × S
finish (r, s) = elim r [
  | ok a ↦ (returned (pos 0, some a), s)
  | fail n ↦ (returned (n, none), s)
  | crash ↦ (crashed, s)
]
