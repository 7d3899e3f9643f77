-- ===== src/Counter/Tests.antt =====
-- The counter at concrete inputs.
use sgx_erlang_extension.Prelude.{ℕ, ◌%◌, ◌^◌, ◌≡◌, refl, if◌then◌else◌, int32, pos, negsuc, arith}
use sgx_erlang_extension.Process.{returned, aborted, ◌>>◌}
use sgx_erlang_extension.Sgx.{success, eq_status}
use sgx_erlang_extension.Sgx.Bridge.{working, lost}
use sgx_erlang_extension.Counter.{
  Enclave, initial, ecall_increment, ecall_return_a, my_increment, my_return_a, plain_increment,
  plain_return_a, repeat_call,
}
use sgx_erlang_extension.Counter.Laws.{
  my_increment-plain, my_return_a-plain, working-IsWorking, count_increments,
}

abbrev largest : Enclave
largest = record { a = 2147483647 }

increment_wraps : plain_increment largest ≡ (returned tt, record { a = 2147483648 })
unfolding plain_increment
increment_wraps = refl

negative : int32 2147483648 ≡ negsuc 2147483647
unfolding int32
negative = refl

lost_aborts : my_return_a lost largest ≡ (aborted, largest)
unfolding my_return_a ecall_return_a lost
lost_aborts = refl

my_increment-plain_run : my_increment working largest ≡ (
    if eq_status ((working {E = Enclave}).call ecall_increment largest).0.0 success
    then plain_increment largest
    else (aborted, ((working {E = Enclave}).call ecall_increment largest).1))
my_increment-plain_run = my_increment-plain working largest

my_return_a-plain_run : my_return_a lost largest ≡ (
    if eq_status ((lost {E = Enclave}).call ecall_return_a largest).0.0 success
    then plain_return_a largest
    else (aborted, ((lost {E = Enclave}).call ecall_return_a largest).1))
my_return_a-plain_run = my_return_a-plain lost largest

count_increments_run :
    (c : ℕ) × ((repeat_call 3 (my_increment working) >> my_return_a working) initial
      ≡ (returned c, record { a = 3 % 2 ^ 32 }))
    × (int32 c ≡ pos 3)
count_increments_run = count_increments working working-IsWorking 3 (omega arith)
