-- ===== src/IsvApp/Samples.antt =====
-- The precomputed messages of isv_app/sample_messages.h, and their choice by an index in
-- isv_app/isv_app.cpp.
use sgx_erlang_extension.Prelude.{
  ℕ, zero, suc, ◌+◌, ◌-◌, ◌*◌, ◌^◌, Option, none, some, Bool, true, false, ◌&&◌, ◌||◌, List, [],
  ◌∷◌, ℤ, pos, negsuc, length, ltb, leb, ◌==◌, if◌then◌else◌,
}
mod Short
mod Msg3First
mod Msg3Second
unfoldable pub use Short.*
unfoldable pub use Msg3First.*
unfoldable pub use Msg3Second.*

abbrev pub msg1_body_size : ℕ
msg1_body_size = 68

abbrev pub msg2_body_size : ℕ
msg2_body_size = 176

abbrev pub msg3_body_size : ℕ
msg3_body_size = 1452

abbrev pub attestation_msg_body_size : ℕ
attestation_msg_body_size = 145

abbrev pub msg1_samples : List (List ℕ)
msg1_samples = msg1_sample1 ∷ msg1_sample2 ∷ []

abbrev pub msg2_samples : List (List ℕ)
msg2_samples = msg2_sample1 ∷ msg2_sample2 ∷ []

abbrev pub msg3_samples : List (List ℕ)
msg3_samples = msg3_sample1 ∷ msg3_sample2 ∷ []

abbrev pub attestation_msg_samples : List (List ℕ)
attestation_msg_samples = attestation_msg_sample1 ∷ attestation_msg_sample2 ∷ []

-- The element of an array, if the index is in it.
abbrev pub get_elem? {ℓ} : {A : Type ℓ} → List A → ℕ → Option A
get_elem? [] i = none
get_elem? (a ∷ array) zero = some a
get_elem? (a ∷ array) (suc i) = get_elem? array i

abbrev pub elem_at {ℓ} : {A : Type ℓ} → List A → ℤ → Option A
elem_at array (pos i) = get_elem? array i
elem_at array (negsuc i) = none

-- VERIFICATION_INDEX_IS_VALID, where the length of the array is `verification_samples`.
unfoldable pub verification_index_is_valid : ℤ → Bool
verification_index_is_valid (negsuc n) = false
verification_index_is_valid (pos n) = ltb 0 n && leb n (length msg1_samples)

-- GET_VERIFICATION_ARRAY_INDEX, `verify_index-1`. At INT_MIN, where the `int` overflows, it wraps round.
abbrev pub array_index : ℤ → ℤ
array_index (pos zero) = negsuc 0
array_index (pos (suc n)) = pos n
array_index (negsuc n) = if ltb n (2 ^ 31 - 1) then negsuc (n + 1) else pos (2 ^ 31 - 1)

-- The four messages of an index.
pub record Sample : Type 0 where
  pub msg1 : List ℕ
  pub msg2 : List ℕ
  pub msg3 : List ℕ
  pub attestation : List ℕ

abbrev and_then : {A B : Type 0} → Option A → (A → Option B) → Option B
and_then none f = none
and_then (some a) f = f a

-- An access outside one of the arrays gives nothing.
unfoldable pub sample_at : ℤ → Option Sample
sample_at i = and_then (elem_at msg1_samples i) λ msg1. and_then (elem_at msg2_samples i) λ msg2.
    and_then (elem_at msg3_samples i) λ msg3.
      and_then (elem_at attestation_msg_samples i) λ attestation.
        some (record { msg1 = msg1; msg2 = msg2; msg3 = msg3; attestation = attestation })

-- `isspace` of the C locale.
abbrev is_space : ℕ → Bool
is_space c = (c == 32) || (leb 9 c && leb c 13)

abbrev is_digit : ℕ → Bool
is_digit c = leb 48 c && leb c 57

-- The number of the digits that a string begins with, after those read before.
unfoldable pub digits_from : ℕ → List ℕ → ℕ
digits_from n [] = n
digits_from n (c ∷ s) =
    let rest = digits_from (n * 10 + (c - 48)) s in if is_digit c then rest else n

abbrev negated : ℕ → ℤ
negated zero = pos 0
negated (suc n) = negsuc n

abbrev signed : List ℕ → ℤ
signed [] = pos 0
signed (c ∷ s) =
    if c == 45
    then negated (digits_from 0 s)
    else if c == 43
    then pos (digits_from 0 s)
    else pos (digits_from 0 (c ∷ s))

-- `atoi`, of a number that an `int` can hold.
unfoldable pub atoi : List ℕ → ℤ
atoi [] = pos 0
atoi (c ∷ s) = let rest = atoi s in if is_space c then rest else signed (c ∷ s)
