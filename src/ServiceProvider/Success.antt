-- ===== src/ServiceProvider/Success.antt =====
-- When a chain of steps succeeds: the lemmas that take `go_on` and `finish` apart.
use sgx_erlang_extension.Prelude.{
  ◌≡◌, refl, Option, none, some, Bool, true, false, not, ℤ, pos, if◌then◌else◌,
}
use sgx_erlang_extension.Process.{Outcome, returned}
use sgx_erlang_extension.ServiceProvider.Steps.{Steps, Result, ok, fail, crash, finish, go_on}

module _ {S : Type 0} where
  pub go_on-ok :
      {A B : Type 0} {b : B} (r : Result A × S) (f : A → Steps S B)
      → (go_on r f).0 ≡ ok b
      → (a : A) × (r.0 ≡ ok a) × ((f a r.1).0 ≡ ok b)
  go_on-ok (ok a, s) f h = (a, refl, h)
  go_on-ok (fail n, s) f h = cc
  go_on-ok (crash, s) f h = cc

  pub finish-ok :
      {A : Type 0} {a : A} (r : Result A × S) → (finish r).0 ≡ returned (pos 0, some a) → r.0 ≡ ok a
  finish-ok (ok a, s) h = cc
  finish-ok (fail n, s) h = cc
  finish-ok (crash, s) h = cc

  -- Two guards that return early, before the answer that hands something out.
  pub guards_passed :
      {A : Type 0} {a : A} (short registered : Bool) (n m : ℤ) (s : S)
      (r : Outcome (ℤ × Option A) × S)
      → (if short
          then (returned (n, none), s)
          else if not registered
          then (returned (m, none), s)
          else r).0
        ≡ returned (pos 0, some a)
      → (short ≡ false) × (registered ≡ true) × (r.0 ≡ returned (pos 0, some a))
  guards_passed true registered n m s r h = cc
  guards_passed false true n m s r h = (refl, refl, h)
  guards_passed false false n m s r h = cc

  pub guards_open :
      {A : Type 0} (short registered : Bool) (n m : ℤ) (s : S) (r : Outcome (ℤ × Option A) × S)
      → short ≡ false
      → registered ≡ true
      → (if short
          then (returned (n, none), s)
          else if not registered
          then (returned (m, none), s)
          else r)
        ≡ r
  guards_open true registered n m s r h k = cc
  guards_open false true n m s r h k = refl
  guards_open false false n m s r h k = cc
