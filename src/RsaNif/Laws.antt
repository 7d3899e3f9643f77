-- ===== src/RsaNif/Laws.antt =====
-- What the NIFs return from the enclave.
use sgx_erlang_extension.Prelude.{
  ℕ, ◌≡◌, refl, ◌∙◌, ap, ◌≤◌, some, true, List, [], ◌∷◌, ◌++◌, length, take, drop, length-append,
  length-drop, if◌then◌else◌, arith, NonZero, take_all, take_self, zeros, append_assoc, sym,
  length-zeros,
}
use sgx_erlang_extension.Process.{Run, returned}
use sgx_erlang_extension.Sgx.{success, eq_status}
use sgx_erlang_extension.Sgx.Bridge.{Bridge}
use sgx_erlang_extension.Rsa.{
  Enclave, in_string, before_nul, overwrite, written, has_size, ecall_rsa_sign, ecall_rsa_encrypt,
}
use sgx_erlang_extension.Rsa.Crypto.{OpenSsl}
use sgx_erlang_extension.Rsa.Ciphers.{
  HasKey, ecall_rsa_sign_lem, ecall_rsa_encrypt_lem, first_8_bytes,
}
use sgx_erlang_extension.RsaNif.{
  ErlNif, argument, ecall, my_rsa_sign, my_rsa_encrypt, cipher_nif, rsa_sign_nif, rsa_encrypt_nif,
}

-- A bridge whose calls into the enclave all succeed.
pub record IsWorking {ssl : OpenSsl} (bridge : Bridge (Enclave ssl)) : Type 1 where
  pub succeeds :
      {A : Type 0} (f : Enclave ssl → A × Enclave ssl) (e : Enclave ssl)
      → eq_status (bridge.call f e).0.0 success ≡ true

pub ecall_working :
    {ssl : OpenSsl} {A : Type 0} (bridge : Bridge (Enclave ssl))
    → IsWorking bridge
    → (f : Run (Enclave ssl) A) (e : Enclave ssl) → ecall bridge f e ≡ f e
ecall_working bridge w f e = ground (arith, w.succeeds f e, bridge.call_success f e)

pub before_nul_lem : (s : List ℕ) → NonZero s → before_nul s ≡ s
unfolding before_nul
before_nul_lem [] h = refl
before_nul_lem (b ∷ s) h = ground (arith, before_nul_lem s h.1)

pub length-overwrite :
    (bytes array : List ℕ)
    → length bytes ≤ length array
    → length (overwrite bytes array) ≡ length array
length-overwrite bytes array h =
    omega (arith, length-append bytes (drop (length bytes) array), length-drop (length bytes) array)

overwrite_512 : (bytes : List ℕ) → length bytes ≤ 512 → length (overwrite bytes (zeros 512)) ≡ 512
overwrite_512 bytes h =
    length-overwrite bytes (zeros 512) (omega (arith, length-zeros 512)) ∙ length-zeros 512

-- What a cipher NIF does with the result of its operation.
pub cipher_nif_lem :
    {S : Type 0} (nif : ErlNif) (op : List ℕ → ℕ → Run S (ℕ × List ℕ)) (t : nif.Term) (s : S)
    {text out : List ℕ} {ret : ℕ} {s' : S}
    → argument nif t ≡ some text
    → op text 512 s ≡ (returned (ret, out), s')
    → length out ≡ 512
    → cipher_nif nif op t s ≡ (returned (some (nif.make_binary out)), s')
unfolding cipher_nif
cipher_nif_lem nif op t s {out} h k l = ground (arith, take_all 512 out)

-- The bytes that the enclave works on for a text: the first 8 of the text with its NUL.
abbrev pub worked_on : List ℕ → List ℕ
worked_on text = take 8 (text ++ (0 ∷ []))

pub length_with_nul : (text : List ℕ) → 7 ≤ length text → 8 ≤ length (text ++ (0 ∷ []))
length_with_nul text h = omega (arith, length-append text (0 ∷ []))

begins : (start p : List ℕ) → length start ≡ 8 → take 8 ((start ++ p) ++ (0 ∷ [])) ≡ start
begins start p h = rw (← h, append_assoc start p (0 ∷ [])) (take_self start (p ++ (0 ∷ [])))

begins_length : (start p : List ℕ) → length start ≡ 8 → 8 ≤ length ((start ++ p) ++ (0 ∷ []))
begins_length start p h = omega (arith, length-append (start ++ p) (0 ∷ []), length-append start p)

module _ (ssl : OpenSsl) (nif : ErlNif) (bridge : Bridge (Enclave ssl)) (w : IsWorking bridge) where
  my_rsa_sign_lem :
      (text : List ℕ) (n : ℕ) (e : Enclave ssl) (k : ssl.Rsa)
      → NonZero text
      → 7 ≤ length text
      → HasKey ssl e k
      → length (ssl.rsa_sign k (worked_on text) e.world).1 ≤ n
      → my_rsa_sign ssl bridge text n e ≡ (
        returned (
          if (ssl.rsa_sign k (worked_on text) e.world).0 then 0 else 1,
          overwrite (ssl.rsa_sign k (worked_on text) e.world).1 (zeros n),
        ),
        e,
      )
  unfolding my_rsa_sign
  my_rsa_sign_lem text n e k h0 h7 hk hs =
      ecall_working bridge w (ecall_rsa_sign ssl (in_string text) (zeros n) n) e
      ∙ ap (λ s. ecall_rsa_sign ssl (s ++ (0 ∷ [])) (zeros n) n e) (before_nul_lem text h0)
      ∙ ecall_rsa_sign_lem ssl (text ++ (0 ∷ [])) (zeros n) n e k hk (length_with_nul text h7)
          (omega (arith, length-zeros n))

  my_rsa_encrypt_lem :
      (text : List ℕ) (n : ℕ) (e : Enclave ssl) (k : ssl.Rsa)
      → NonZero text
      → 7 ≤ length text
      → HasKey ssl e k
      → length (written (ssl.public_encrypt k (worked_on text) e.world)) ≤ n
      → my_rsa_encrypt ssl bridge text n e ≡ (
        returned (
          if has_size (ssl.public_encrypt k (worked_on text) e.world) 512 then 0 else 1,
          overwrite (written (ssl.public_encrypt k (worked_on text) e.world)) (zeros n),
        ),
        e,
      )
  unfolding my_rsa_encrypt
  my_rsa_encrypt_lem text n e k h0 h7 hk hs =
      ecall_working bridge w (ecall_rsa_encrypt ssl (in_string text) (zeros n) n) e
      ∙ ap (λ s. ecall_rsa_encrypt ssl (s ++ (0 ∷ [])) (zeros n) n e) (before_nul_lem text h0)
      ∙ ecall_rsa_encrypt_lem ssl (text ++ (0 ∷ [])) (zeros n) n e k hk (length_with_nul text h7)
          (omega (arith, length-zeros n))

  -- Over a bridge whose calls succeed, with a key that has not been freed, `rsa_sign` of a text
  -- of at least 7 characters, none of them NUL, returns a binary of 512 bytes: those that
  -- RSA_sign writes for the first 8 bytes of the text with its NUL, at most 512, and zeros
  -- behind them. It returns them also when RSA_sign fails.
  pub rsa_sign_nif_lem :
      (t : nif.Term) (text : List ℕ) (e : Enclave ssl) (k : ssl.Rsa)
      → argument nif t ≡ some text
      → NonZero text
      → 7 ≤ length text
      → HasKey ssl e k
      → length (ssl.rsa_sign k (worked_on text) e.world).1 ≤ 512
      → rsa_sign_nif ssl nif bridge t e ≡ (
        returned (
            some (
              nif.make_binary (overwrite (ssl.rsa_sign k (worked_on text) e.world).1 (zeros 512)))),
        e,
      )
  rsa_sign_nif_lem t text e k ht h0 h7 hk hs =
      cipher_nif_lem nif (my_rsa_sign ssl bridge) t e ht (my_rsa_sign_lem text 512 e k h0 h7 hk hs)
        (overwrite_512 (ssl.rsa_sign k (worked_on text) e.world).1 hs)

  -- Over a bridge whose calls succeed, with a key that has not been freed, `rsa_encrypt` of a
  -- text of at least 7 characters, none of them NUL, returns a binary of 512 bytes: those that
  -- RSA_public_encrypt writes for the first 8 bytes of the text with its NUL, at most 512, and
  -- zeros behind them, also when it fails.
  pub rsa_encrypt_nif_lem :
      (t : nif.Term) (text : List ℕ) (e : Enclave ssl) (k : ssl.Rsa)
      → argument nif t ≡ some text
      → NonZero text
      → 7 ≤ length text
      → HasKey ssl e k
      → length (written (ssl.public_encrypt k (worked_on text) e.world)) ≤ 512
      → rsa_encrypt_nif ssl nif bridge t e ≡ (
        returned (
            some (
              nif.make_binary
                (overwrite (written (ssl.public_encrypt k (worked_on text) e.world)) (zeros 512)))),
        e,
      )
  rsa_encrypt_nif_lem t text e k ht h0 h7 hk hs =
      cipher_nif_lem nif (my_rsa_encrypt ssl bridge) t e ht
        (my_rsa_encrypt_lem text 512 e k h0 h7 hk hs)
        (overwrite_512 (written (ssl.public_encrypt k (worked_on text) e.world)) hs)

  my_rsa_prefix :
      (start p q : List ℕ) (n : ℕ) (e : Enclave ssl)
      → length start ≡ 8
      → NonZero (start ++ p)
      → NonZero (start ++ q)
      → (my_rsa_sign ssl bridge (start ++ p) n e ≡ my_rsa_sign ssl bridge (start ++ q) n e)
        × (my_rsa_encrypt ssl bridge (start ++ p) n e ≡ my_rsa_encrypt ssl bridge (start ++ q) n e)
  unfolding my_rsa_sign my_rsa_encrypt
  my_rsa_prefix start p q n e h8 hp hq =
      let same =
        first_8_bytes ssl ((start ++ p) ++ (0 ∷ [])) ((start ++ q) ++ (0 ∷ [])) (zeros n) n e
          (begins_length start p h8) (begins_length start q h8)
          (begins start p h8 ∙ sym (begins start q h8)) in
      ground (
        arith,
        ecall_working bridge w (ecall_rsa_sign ssl (in_string (start ++ p)) (zeros n) n) e,
        ecall_working bridge w (ecall_rsa_sign ssl (in_string (start ++ q)) (zeros n) n) e,
        ecall_working bridge w (ecall_rsa_encrypt ssl (in_string (start ++ p)) (zeros n) n) e,
        ecall_working bridge w (ecall_rsa_encrypt ssl (in_string (start ++ q)) (zeros n) n) e,
        before_nul_lem (start ++ p) hp,
        before_nul_lem (start ++ q) hq,
        same,
      )

  -- Over a bridge whose calls succeed, two texts without NUL that begin with the same 8
  -- characters are signed and encrypted alike, in every state of the enclave, whatever follows
  -- in them.
  pub cipher_nif-prefix :
      (t u : nif.Term) (start p q : List ℕ) (e : Enclave ssl)
      → argument nif t ≡ some (start ++ p)
      → argument nif u ≡ some (start ++ q)
      → length start ≡ 8
      → NonZero (start ++ p)
      → NonZero (start ++ q)
      → (rsa_sign_nif ssl nif bridge t e ≡ rsa_sign_nif ssl nif bridge u e)
        × (rsa_encrypt_nif ssl nif bridge t e ≡ rsa_encrypt_nif ssl nif bridge u e)
  unfolding cipher_nif
  cipher_nif-prefix t u start p q e ht hu h8 hp hq =
      ground (arith, my_rsa_prefix start p q 512 e h8 hp hq)
