-- ===== src/ServiceProvider/Libcrypto.antt =====
-- What the service provider uses of `sample_libcrypto`, a library of which the repository has only
-- the header.
use sgx_erlang_extension.Prelude.{
  ℕ, ◌+◌, ◌-◌, ◌≡◌, Option, some, Bool, List, [], ◌++◌, ℤ, if◌then◌else◌,
}

-- `none` is a status other than SAMPLE_SUCCESS. `create_key_pair` gives the private and the public
-- key, and `ecdsa_sign` the words x and y of a signature. `gcm_encrypt` takes the key, the text and
-- the IV, and gives its status, the ciphertext and the tag.
pub record Libcrypto : Type 1 where
  pub World : Type 0
  pub open_context : World → Bool × World
  pub create_key_pair : World → Option (List ℕ × List ℕ) × World
  pub shared_dhkey : List ℕ → List ℕ → Option (List ℕ)
  pub ecdsa_sign : List ℕ → List ℕ → World → Option (List ℕ × List ℕ) × World
  pub cmac : List ℕ → List ℕ → Option (List ℕ)
  pub gcm_encrypt : List ℕ → List ℕ → List ℕ → ℤ × List ℕ × List ℕ
  pub Sha : Type 0
  pub sha256_init : Option Sha
  pub sha256_update : List ℕ → Sha → Option Sha
  pub sha256_get_hash : Sha → Option (List ℕ)

-- The library's own state, and how many of its contexts are open.
pub record Library (lib : Libcrypto) : Type 0 where
  pub world : lib.World
  pub contexts : ℕ

-- SHA-256 as its header documents it, when no call fails.
pub record Hashes (lib : Libcrypto) : Type 0 where
  pub absorbed : lib.Sha → List ℕ
  pub digest : List ℕ → List ℕ
  pub start : lib.Sha
  pub init_start : lib.sha256_init ≡ some start
  pub absorbed_start : absorbed start ≡ []
  pub step : List ℕ → lib.Sha → lib.Sha
  pub update_step : (bytes : List ℕ) (c : lib.Sha) → lib.sha256_update bytes c ≡ some (step bytes c)
  pub absorbed_step : (bytes : List ℕ) (c : lib.Sha) → absorbed (step bytes c) ≡ absorbed c ++ bytes
  pub hash_digest : (c : lib.Sha) → lib.sha256_get_hash c ≡ some (digest (absorbed c))

-- A context that is opened, or not, and one that is closed.
module _ {lib : Libcrypto} where
  abbrev pub open_ecc : Library lib → Bool × Library lib
  open_ecc l =
      let (opened, w) = lib.open_context l.world in
      (opened, record { world = w; contexts = if opened then l.contexts + 1 else l.contexts })

  abbrev pub close_ecc : Library lib → Library lib
  close_ecc l = record l { contexts = l.contexts - 1 }
