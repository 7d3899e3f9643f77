-- ===== src/QuoteServer/Main.antt =====
-- `readBinaryContent` and `main` of QuoteVerificationServer/App/App.cpp.
use sgx_erlang_extension.Prelude.{
  ℕ, ◌-◌, Option, none, some, Bool, true, false, ◌&&◌, not, List, [], ◌∷◌, ◌++◌, ℤ, pos, negsuc,
  codes, take, length, zeros, bytes_eq, ltb, ◌==◌, if◌then◌else◌,
}
use sgx_erlang_extension.Process.{Outcome, returned, crashed, Run, ◌>>◌, pure, modify}
use sgx_erlang_extension.Sgx.Bridge.{Bridge}
use sgx_erlang_extension.Sgx.Sdk.{Sdk}
use sgx_erlang_extension.QuoteServer.Enclave.{Trusted}
use sgx_erlang_extension.QuoteServer.Dcap.{ReportInfo, File, Dcap}
use sgx_erlang_extension.QuoteServer.Calls.{
  State, cannot_open, usage_text, quote_path_is, trusted_heading, separator, untrusted_heading,
  newline, say, at,
}
use sgx_erlang_extension.QuoteServer.App.{ecdsa_quote_verification}

unfoldable pub default_quote : List ℕ
default_quote = codes "../QuoteGenerationSample/quote.dat"

abbrev pub pathsize : ℕ
pathsize = 0x418

-- What `strncpy` leaves in an array of zeros of `pathsize` bytes, read as a string: nothing if no NUL
-- ends it.
abbrev pub strncpy : List ℕ → Option (List ℕ)
strncpy s = if ltb (length s) pathsize then some s else none

abbrev is_empty : List ℕ → Bool
is_empty [] = true
is_empty (b ∷ s) = false

-- The argument of `-quote`, if there are a flag and an argument after it.
abbrev pub given : List (List ℕ) → Option (List ℕ)
given (name ∷ flag ∷ path ∷ args) = if bytes_eq flag (codes "-quote") then strncpy path else some []
given args = some []

abbrev pub or_default : Option (List ℕ) → Option (List ℕ)
or_default none = none
or_default (some path) = if is_empty path then some default_quote else some path

-- `quote_path`, if it is a string.
unfoldable pub quote_path : List (List ℕ) → Option (List ℕ)
quote_path args = or_default (given args)

-- The vector of `tellg` zeros after `read`.
unfoldable pub content_of : File → List ℕ
content_of f = take f.file_size f.stored ++ zeros (f.file_size - length f.stored)

module _ {World : Type 0} (dcap : Dcap World) where
  abbrev opened : List ℕ → State World → Option File → List ℕ × State World
  opened path s none = ([], say (cannot_open path) s)
  opened path s (some f) = (content_of f, s)

  unfoldable pub read_binary_content : List ℕ → State World → List ℕ × State World
  read_binary_content path s =
      let (file, w) = dcap.open_file path s.world in opened path (at w s) file

module _ (sdk : Sdk) (dcap : Dcap sdk.World) (bridge : Bridge sdk.World) (trusted : Trusted) where
  open sdk use {World}

  -- The result of a verification is dropped.
  abbrev pub verify : ReportInfo → List ℕ → Bool → Run (State World) (Unit {0})
  verify uninit quote use_qve s =
      (returned tt, (ecdsa_quote_verification sdk dcap bridge trusted uninit quote use_qve s).1)

  -- The two verifications of a quote.
  unfoldable pub demonstrate : ReportInfo → List ℕ → List ℕ → Run (State World) ℤ
  demonstrate uninit path [] = modify (say usage_text) >> pure (negsuc 0)
  demonstrate uninit path (b ∷ quote) =
      modify (say (quote_path_is path))
      >> modify (say trusted_heading)
      >> verify uninit (b ∷ quote) true
      >> modify (say separator)
      >> modify (say untrusted_heading)
      >> verify uninit (b ∷ quote) false
      >> modify (say newline)
      >> pure (pos 0)

  abbrev pub with_quote : ReportInfo → List ℕ → List ℕ × State World → Outcome ℤ × State World
  with_quote uninit path (quote, s) = demonstrate uninit path quote s

  abbrev pub from_path : ReportInfo → Option (List ℕ) → Run (State World) ℤ
  from_path uninit none s = (crashed, s)
  from_path uninit (some path) s = with_quote uninit path (read_binary_content dcap path s)

  -- `args` is `argv`, with the program's name.
  unfoldable pub main : ReportInfo → List (List ℕ) → Run (State World) ℤ
  main uninit args =
      if not (length args == 1) && not (length args == 3)
      then modify (say usage_text) >> pure (pos 0)
      else from_path uninit (quote_path args)
