-- ===== src/Counter/Laws.antt =====
-- What the counter does over many calls, and that the enclave changes nothing in it.
use sgx_erlang_extension.Prelude.{
  ℕ, zero, suc, ◌+◌, ◌%◌, ◌^◌, ◌<◌, ◌≡◌, refl, ◌∙◌, if◌then◌else◌, inl, inr, true, arith, int32,
  pos, int32_nonneg, Bool-cases,
}
use sgx_erlang_extension.Process.{returned, aborted, ◌>>◌, >>-returned}
use native.Mathlib.Nat.{add-zero, zero-add, add_assoc, add_comm}
use native.Mathlib.Numerals.{add-one}
use sgx_erlang_extension.Sgx.{success, eq_status}
use sgx_erlang_extension.Sgx.Bridge.{Bridge, working}
use sgx_erlang_extension.Counter.{
  Enclave, initial, ecall_increment, ecall_return_a, my_increment, my_return_a, plain_increment,
  plain_return_a, repeat_call,
}

-- `my_increment` does what the version without an enclave does if the call into the enclave
-- succeeds, and aborts the process on any other status.
pub my_increment-plain :
    (bridge : Bridge Enclave) (e : Enclave)
    → my_increment bridge e ≡ (
        if eq_status (bridge.call ecall_increment e).0.0 success
        then plain_increment e
        else (aborted, (bridge.call ecall_increment e).1))
unfolding my_increment plain_increment ecall_increment
my_increment-plain bridge e =
    elim (Bool-cases (eq_status (bridge.call ecall_increment e).0.0 success)) [
      | inl ok ↦ rw ok (ground (arith, bridge.call_success ecall_increment e ok))
      | inr bad ↦ rw bad
    ]

-- `my_return_a` does what the version without an enclave does, returning the enclave's own
-- counter, if the call into the enclave succeeds, and aborts the process on any other status.
pub my_return_a-plain :
    (bridge : Bridge Enclave) (e : Enclave)
    → my_return_a bridge e ≡ (
        if eq_status (bridge.call ecall_return_a e).0.0 success
        then plain_return_a e
        else (aborted, (bridge.call ecall_return_a e).1))
unfolding my_return_a plain_return_a ecall_return_a
my_return_a-plain bridge e =
    elim (Bool-cases (eq_status (bridge.call ecall_return_a e).0.0 success)) [
      | inl ok ↦ rw ok (ground (arith, bridge.call_success ecall_return_a e ok))
      | inr bad ↦ rw bad
    ]

-- The bridge answers every call of the counter with SGX_SUCCESS.
pub record IsWorking (bridge : Bridge Enclave) : Type 0 where
  pub increment : (e : Enclave) → eq_status (bridge.call ecall_increment e).0.0 success ≡ true
  pub return_a : (e : Enclave) → eq_status (bridge.call ecall_return_a e).0.0 success ≡ true

pub working-IsWorking : IsWorking working
working-IsWorking = record { increment = λ e. refl; return_a = λ e. refl }

plain_increment_wraps :
    (k : ℕ)
    → plain_increment (record { a = k % 2 ^ 32 }) ≡ (returned tt, record { a = (k + 1) % 2 ^ 32 })
unfolding plain_increment
plain_increment_wraps k = ground arith

plain_return_a_lem :
    (n : ℕ)
    → plain_return_a (record { a = n % 2 ^ 32 })
      ≡ (returned (n % 2 ^ 32), record { a = n % 2 ^ 32 })
unfolding plain_return_a
plain_return_a_lem n = refl

module _ (bridge : Bridge Enclave) (w : IsWorking bridge) where
  pub my_increment_working : (e : Enclave) → my_increment bridge e ≡ plain_increment e
  my_increment_working e = my_increment-plain bridge e ∙ rw (w.increment e)

  pub my_return_a_working : (e : Enclave) → my_return_a bridge e ≡ plain_return_a e
  my_return_a_working e = my_return_a-plain bridge e ∙ rw (w.return_a e)

  repeat_call-increment :
      (n k : ℕ)
      → repeat_call n (my_increment bridge) (record { a = k % 2 ^ 32 })
        ≡ (returned tt, record { a = (k + n) % 2 ^ 32 })
  unfolding repeat_call
  repeat_call-increment zero k = rw (add-zero k)
  repeat_call-increment (suc n) k =
      >>-returned (my_increment bridge) (repeat_call n (my_increment bridge))
        (record { a = k % 2 ^ 32 }) (my_increment_working _ ∙ plain_increment_wraps k)
      ∙ repeat_call-increment n (k + 1)
      ∙ rw (add_assoc k 1 n, add_comm 1 n, add-one)

  -- Over a bridge whose calls succeed, `n` increments of a fresh enclave, `n` below 2 ^ 31,
  -- followed by a read return the 32-bit pattern that stands for `n`.
  pub count_increments :
      (n : ℕ)
      → n < 2 ^ 31
      → (c : ℕ) × ((repeat_call n (my_increment bridge) >> my_return_a bridge) initial
          ≡ (returned c, record { a = n % 2 ^ 32 }))
        × (int32 c ≡ pos n)
  count_increments n h = (
    n % 2 ^ 32,
    >>-returned (repeat_call n (my_increment bridge)) (my_return_a bridge) initial
          (repeat_call-increment n 0)
        ∙ my_return_a_working _
        ∙ plain_return_a_lem (0 + n)
        ∙ rw (zero-add n),
    int32_nonneg n h,
  )
