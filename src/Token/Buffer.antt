-- ===== src/Token/Buffer.antt =====
-- `char` buffers and the functions of <string.h> that erlang-nif_SSL/App/App.c calls on them. The
-- result `none` is an access outside the buffer. Strings are given without their NUL.
use sgx_erlang_extension.Prelude.{
  ℕ, zero, suc, ◌+◌, ◌≤◌, ◌≡◌, refl, ◌∙◌, sym, ap, Option, none, some, List, [], ◌∷◌, ◌++◌, length,
  take, drop, replicate, length-append, length-replicate, drop-append, append_assoc, take_all,
  take_self, leb, le→leb, NonZero, ◌==◌, ◌-◌, if◌then◌else◌, arith,
}

abbrev pub Buffer : Type 0
Buffer = List ℕ

-- `char buf[n] = {'\0'}`
abbrev pub cleared : ℕ → Buffer
cleared n = replicate n 0

-- What stands before the first NUL.
unfoldable pub c_string : Buffer → Option (List ℕ)
c_string [] = none
c_string (b ∷ buf) =
    if b == 0 then some [] else elim (c_string buf) [ none ↦ none | some s ↦ some (b ∷ s) ]

-- `strncpy(buf, src, n)` writes n bytes: those of the source, and NULs after its end.
unfoldable pub strncpy : Buffer → List ℕ → ℕ → Option Buffer
strncpy buf src n =
    if leb n (length buf) then some (take n (src ++ replicate n 0) ++ drop n buf) else none

-- `strncat(buf, src, n)` writes at most n bytes of the source behind the string in the buffer, and
-- a NUL.
unfoldable pub strncat : Buffer → List ℕ → ℕ → Option Buffer
strncat buf src n = elim (c_string buf) [
  | none ↦ none
  | some s ↦
      let written = s ++ take n src ++ (0 ∷ []) in
      if leb (length written) (length buf)
      then some (written ++ drop (length written) buf)
      else none
]

pub c_string-append : (s rest : List ℕ) → NonZero s → c_string (s ++ (0 ∷ rest)) ≡ some s
unfolding c_string
c_string-append [] rest h = refl
c_string-append (b ∷ s) rest h = ground (arith, c_string-append s rest h.1)

cleared_eq : (k n : ℕ) → k ≡ n → cleared k ≡ cleared n
cleared_eq k n h = ap cleared h

pub drop-cleared : (k n : ℕ) → drop k (cleared n) ≡ cleared (n - k)
drop-cleared zero n = cleared_eq n (n - 0) (omega arith)
drop-cleared (suc k) zero = cleared_eq 0 (0 - suc k) (omega arith)
drop-cleared (suc k) (suc n) = drop-cleared k n ∙ cleared_eq (n - k) (suc n - suc k) (omega arith)

pub cleared-add : (k n : ℕ) → cleared (k + n) ≡ cleared k ++ cleared n
cleared-add zero n = cleared_eq (0 + n) n (omega arith)
cleared-add (suc k) n =
    cleared_eq (suc k + n) (suc (k + n)) (omega arith) ∙ ap (λ r. 0 ∷ r) (cleared-add k n)

-- What is past the bytes that an equally long text has taken.
pub drop_exact : (n : ℕ) (a b : List ℕ) → length a ≡ n → drop n (a ++ b) ≡ b
drop_exact n a b h = rw (← h) (drop-append a b)

-- The string in a buffer ends at its first NUL, however many follow.
pub c_string-padded :
    (s : List ℕ) (k : ℕ) (rest : List ℕ)
    → NonZero s
    → c_string (s ++ (cleared k ++ (0 ∷ rest))) ≡ some s
c_string-padded s zero rest h = c_string-append s rest h
c_string-padded s (suc k) rest h = c_string-append s (cleared k ++ (0 ∷ rest)) h

-- Copying a whole text into a cleared buffer leaves the text and NULs.
pub strncpy-cleared :
    (n : ℕ) (s : List ℕ)
    → length s ≤ n
    → strncpy (cleared n) s (length s) ≡ some (s ++ cleared (n - length s))
unfolding strncpy
strncpy-cleared n s h = rw (
  length-replicate {A = ℕ} n 0,
  le→leb (length s) n h,
  take_self s (cleared (length s)),
  drop-cleared (length s) n,
)

appended_fits :
    (s t rest : List ℕ)
    → length ((s ++ t) ++ (0 ∷ [])) ≤ length (s ++ (cleared (length t) ++ (0 ∷ rest)))
appended_fits s t rest = omega (
  arith,
  length-append (s ++ t) (0 ∷ []),
  length-append s t,
  length-append s (cleared (length t) ++ (0 ∷ rest)),
  length-append (cleared (length t)) (0 ∷ rest),
  length-replicate {A = ℕ} (length t) 0,
)

appended_rest :
    (s t rest : List ℕ)
    → drop (length ((s ++ t) ++ (0 ∷ []))) (s ++ (cleared (length t) ++ (0 ∷ rest))) ≡ rest
appended_rest s t rest =
    ap (drop (length ((s ++ t) ++ (0 ∷ [])))) (
      sym (append_assoc s (cleared (length t)) (0 ∷ rest))
      ∙ sym (append_assoc (s ++ cleared (length t)) (0 ∷ []) rest))
    ∙ drop_exact _ ((s ++ cleared (length t)) ++ (0 ∷ [])) rest (
        omega (
          arith,
          length-append (s ++ t) (0 ∷ []),
          length-append s t,
          length-append (s ++ cleared (length t)) (0 ∷ []),
          length-append s (cleared (length t)),
          length-replicate {A = ℕ} (length t) 0,
        ))

-- Appending a text that fits takes the place of as many NULs behind the string.
pub strncat_fits :
    (s t rest : List ℕ) (n : ℕ)
    → NonZero s
    → length t ≤ n
    → strncat (s ++ (cleared (length t) ++ (0 ∷ rest))) t n ≡ some ((s ++ t) ++ (0 ∷ rest))
unfolding strncat
strncat_fits s t rest n h k = rw (
  c_string-padded s (length t) rest h,
  take_all n t k,
  le→leb _ _ (appended_fits s t rest),
  appended_rest s t rest,
  append_assoc (s ++ t) (0 ∷ []) rest,
  strncat,
)
