-- ===== src/Prelude/Bytes.antt =====
-- Bytes and C strings. The contents of a string are a list without its terminating NUL.
use Prim.Native.Nat.{ℕ, zero, suc}
use Prim.Native.Char.{code}
use Prim.Native.String.{String}
use mathlib.Core.Path.{◌≡◌, refl}
use mathlib.Core.Bool.{Bool, true, false, ◌&&◌}
use mathlib.Core.List.{List, [], ◌∷◌, ◌++◌}
use mathlib.Core.Logic.{◌≢◌}
use native.Mathlib.Omega.{arith}
use sgx_erlang_extension.Prelude.Tests.{◌==◌}
use sgx_erlang_extension.Prelude.Lists.{length, drop, replicate, length-replicate}

-- The bytes of an ASCII text.
abbrev pub codes : String → List ℕ
codes String.[] = []
codes (String.◌∷◌ c s) = code c ∷ codes s

-- `strncmp(s, t, n) == 0`
unfoldable pub strncmp_zero : List ℕ → List ℕ → ℕ → Bool
strncmp_zero s t zero = true
strncmp_zero [] [] (suc n) = true
strncmp_zero [] (y ∷ t) (suc n) = false
strncmp_zero (x ∷ s) [] (suc n) = false
strncmp_zero (x ∷ s) (y ∷ t) (suc n) = x == y && strncmp_zero s t n

-- `memcmp(a, b, n) == 0` for two blocks of the same length.
unfoldable pub bytes_eq : List ℕ → List ℕ → Bool
bytes_eq [] [] = true
bytes_eq [] (y ∷ b) = false
bytes_eq (x ∷ a) [] = false
bytes_eq (x ∷ a) (y ∷ b) = x == y && bytes_eq a b

pub bytes_eq→eq : (a b : List ℕ) → bytes_eq a b ≡ true → a ≡ b
unfolding bytes_eq
bytes_eq→eq [] [] h = refl
bytes_eq→eq [] (y ∷ b) h = cc
bytes_eq→eq (x ∷ a) [] h = cc
bytes_eq→eq (x ∷ a) (y ∷ b) h = ground (arith, bytes_eq→eq a b)

pub bytes_eq_refl : (a : List ℕ) → bytes_eq a a ≡ true
unfolding bytes_eq
bytes_eq_refl [] = refl
bytes_eq_refl (x ∷ a) = ground (arith, bytes_eq_refl a)

-- An array of zeros. It is shut, since a proof seldom wants its elements one by one.
unfoldable pub zeros : ℕ → List ℕ
zeros n = replicate n 0

pub length-zeros : (n : ℕ) → length (zeros n) ≡ n
unfolding zeros
length-zeros n = length-replicate n 0

-- No byte is NUL.
abbrev pub NonZero : List ℕ → Type 0
NonZero [] = Unit
NonZero (b ∷ s) = (b ≢ 0) × NonZero s

pub NonZero-append : (s t : List ℕ) → NonZero s → NonZero t → NonZero (s ++ t)
NonZero-append [] t h k = k
NonZero-append (b ∷ s) t h k = (h.0, NonZero-append s t h.1 k)

-- A comparison over the length of the literal `t` asks only that `t` begins the string.
pub strncmp_zero-prefix :
    (s t : List ℕ) → strncmp_zero s t (length t) ≡ true → s ≡ t ++ drop (length t) s
unfolding strncmp_zero
strncmp_zero-prefix s [] h = refl
strncmp_zero-prefix [] (y ∷ t) h = cc
strncmp_zero-prefix (x ∷ s) (y ∷ t) h = ground (arith, strncmp_zero-prefix s t)

pub prefix-strncmp_zero : (t rest : List ℕ) → strncmp_zero (t ++ rest) t (length t) ≡ true
unfolding strncmp_zero
prefix-strncmp_zero [] rest = refl
prefix-strncmp_zero (y ∷ t) rest = ground (arith, prefix-strncmp_zero t rest)
