-- ===== src/Token/Path.antt =====
-- The composition of `token_path` in `initialize_enclave`.
use sgx_erlang_extension.Prelude.{
  ℕ, ◌+◌, ◌-◌, ◌≤◌, ◌≡◌, refl, ◌∙◌, ap, Option, none, some, Bool, true, List, ◌∷◌, ◌++◌, length,
  leb, codes, if◌then◌else◌, arith, Bool-cases, inl, inr, length-replicate, le→leb, NonZero,
  NonZero-append,
}
use sgx_erlang_extension.Token.Buffer.{
  Buffer, cleared, c_string, strncpy, strncat, c_string-append, cleared-add, strncpy-cleared,
  strncat_fits,
}

-- TOKEN_FILENAME, and its `sizeof`, which counts the NUL.
abbrev pub token_filename : List ℕ
token_filename = codes "enclave.token"

abbrev pub sizeof_token_filename : ℕ
sizeof_token_filename = 14

-- `strlen(home_dir)+strlen("/")+sizeof(TOKEN_FILENAME)+1 <= MAX_PATH`
abbrev pub fits : ℕ → List ℕ → Bool
fits max_path home = leb (length home + 1 + sizeof_token_filename + 1) max_path

abbrev and_then : Option Buffer → (Buffer → Option Buffer) → Option Buffer
and_then none f = none
and_then (some b) f = f b

-- The buffer of MAX_PATH bytes after Step 1, from the home directory or NULL; `none` is a write
-- outside the buffer.
unfoldable pub token_path : ℕ → Option (List ℕ) → Option Buffer
token_path max_path none = strncpy (cleared max_path) token_filename sizeof_token_filename
token_path max_path (some home) =
    if fits max_path home
    then and_then (strncpy (cleared max_path) home (length home)) (λ b.
      and_then (strncat b (codes "/") 1)
        (λ c. strncat c token_filename (sizeof_token_filename + 1)))
    else strncpy (cleared max_path) token_filename sizeof_token_filename

-- The path that is meant.
unfoldable pub path_of : ℕ → Option (List ℕ) → List ℕ
path_of max_path none = token_filename
path_of max_path (some home) =
    if fits max_path home then (home ++ codes "/") ++ token_filename else token_filename

abbrev pub IsName : Option (List ℕ) → Type 0
IsName none = Unit
IsName (some home) = NonZero home

-- The buffer holds this string.
abbrev pub Holds : Option Buffer → List ℕ → Type 0
Holds none s = ⊥
Holds (some b) s = c_string b ≡ some s

token_filename_fits :
    (max_path : ℕ)
    → 14 ≤ max_path
    → Holds (strncpy (cleared max_path) token_filename sizeof_token_filename) token_filename
unfolding strncpy c_string
token_filename_fits max_path h =
    rw (length-replicate {A = ℕ} max_path 0, le→leb 14 max_path h, strncpy) refl

-- Stretches of NULs that are read in two ways.
cleared_15 : (n : ℕ) → 15 ≤ n → cleared n ≡ cleared 1 ++ (0 ∷ (cleared 13 ++ cleared (n - 15)))
cleared_15 n h = cleared_sum n (omega arith) ∙ cleared-add 15 (n - 15)
  where
    cleared_sum : (m : ℕ) → m ≡ 15 + (m - 15) → cleared m ≡ cleared (15 + (m - 15))
    cleared_sum m e = ap cleared e

slash-NonZero : NonZero (codes "/")
slash-NonZero = omega arith

composed :
    (home : List ℕ) (k : ℕ)
    → NonZero home
    → and_then
        (strncat (home ++ (cleared 1 ++ (0 ∷ (cleared 13 ++ cleared k)))) (codes "/") 1)
        (λ c. strncat c token_filename (sizeof_token_filename + 1))
      ≡ some (((home ++ codes "/") ++ token_filename) ++ (0 ∷ cleared k))
composed home k h =
    ap (λ b. and_then b (λ c. strncat c token_filename (sizeof_token_filename + 1)))
      (strncat_fits home (codes "/") (cleared 13 ++ cleared k) 1 h (omega arith))
    ∙ strncat_fits (home ++ codes "/") token_filename (cleared k) 15
        (NonZero-append home (codes "/") h slash-NonZero) (omega arith)

full_path-NonZero : (home : List ℕ) → NonZero home → NonZero ((home ++ codes "/") ++ token_filename)
full_path-NonZero home h =
    NonZero-append (home ++ codes "/") token_filename
      (NonZero-append home (codes "/") h slash-NonZero) (omega arith)

fits_le : (max_path : ℕ) (home : List ℕ) → fits max_path home ≡ true → length home + 16 ≤ max_path
fits_le max_path home f = ground arith

token_path_home :
    (max_path : ℕ) (home : List ℕ)
    → NonZero home
    → length home + 16 ≤ max_path
    → and_then (strncpy (cleared max_path) home (length home)) (λ b.
      and_then
        (strncat b (codes "/") 1)
        (λ c. strncat c token_filename (sizeof_token_filename + 1)))
      ≡ some
          (((home ++ codes "/") ++ token_filename) ++ (0 ∷ cleared (max_path - length home - 15)))
token_path_home max_path home h le =
    ap
      (λ o. and_then o (λ b.
        and_then (strncat b (codes "/") 1)
          (λ c. strncat c token_filename (sizeof_token_filename + 1))))
      (strncpy-cleared max_path home (omega arith)
        ∙ ap (λ z. some (home ++ z)) (cleared_15 (max_path - length home) (omega arith)))
    ∙ composed home (max_path - length home - 15) h

-- Step 1 of `initialize_enclave` writes only inside the buffer, for every home directory without
-- NUL and every MAX_PATH of at least 14. The buffer then holds the path `$HOME/enclave.token` if
-- the home directory is known and that path with its NUL fits with a byte to spare, and
-- `enclave.token` otherwise.
pub token_path-path_of :
    (max_path : ℕ) (home : Option (List ℕ))
    → 14 ≤ max_path
    → IsName home
    → Holds (token_path max_path home) (path_of max_path home)
unfolding token_path path_of
token_path-path_of max_path none h n = token_filename_fits max_path h
token_path-path_of max_path (some home) h n = elim (Bool-cases (fits max_path home)) [
  | inl f ↦
      rw (f, token_path_home max_path home n (fits_le max_path home f))
        (c_string-append _ (cleared (max_path - length home - 15)) (full_path-NonZero home n))
  | inr f ↦ rw f (token_filename_fits max_path h)
]
