-- ===== src/IsvApp/Retry.antt =====
-- The loops `do { ret = call(); } while (code == ret && time--)`.
use sgx_erlang_extension.Prelude.{
  zero, suc, ◌+◌, ◌-◌, ◌^◌, Option, none, some, Bool, List, [], ◌∷◌, ℤ, pos, negsuc, ltb, is_zero,
  if◌then◌else◌,
}

-- The value of a counter, a C `int`, after `time--`. Below INT_MIN, where C leaves the result open, it
-- wraps round as the processor's decrement does.
abbrev pub decremented : ℤ → ℤ
decremented (pos zero) = negsuc 0
decremented (pos (suc n)) = pos n
decremented (negsuc n) = if ltb n (2 ^ 31 - 1) then negsuc (n + 1) else pos (2 ^ 31 - 1)

-- The answers that the calls will give are a list. The last answer, or `none` if the loop still calls
-- when the list is used up; the answers left; and the counter.
unfoldable pub retry : {A : Type 0} → (A → Bool) → List A → ℤ → Option A × List A × ℤ
retry again [] time = (none, [], time)
retry again (a ∷ answers) time =
    let rest = retry again answers (decremented time) in
    if again a
    then (if is_zero time then (some a, answers, decremented time) else rest)
    else (some a, answers, time)
