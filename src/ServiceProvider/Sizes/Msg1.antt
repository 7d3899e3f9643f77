-- ===== src/ServiceProvider/Sizes/Msg1.antt =====
-- The sizes of the arrays through message 1.
use sgx_erlang_extension.Prelude.{
  ℕ, ◌≡◌, Option, none, some, Bool, true, false, List, length, take, drop, length-take, length-drop,
  arith, Option-cases, ◌==◌, not, is_zero, inl, inr,
}
use sgx_erlang_extension.IsvEnclave.{id_u, id_v}
use sgx_erlang_extension.ServiceProvider.Libcrypto.{Libcrypto, open_ecc}
use sgx_erlang_extension.ServiceProvider.Ecp.{
  hash_buffer, derive_key, derive_key_pair, DeriveKeyType,
}
use sgx_erlang_extension.ServiceProvider.Steps.{
  Steps, Result, go_on, ok, fail, crash, fail_if, ◌>>=◌, ◌>>◌,
}
use sgx_erlang_extension.ServiceProvider.State.{
  Sp, SpDbItem, ExtendedEpidGroup, Response, change_db, sp_ias_failed,
}
use sgx_erlang_extension.ServiceProvider.Msg1.{
  Msg2, group_of, derive_keys, assemble_msg2, exchange_keys, with_ecc, sp_ra_proc_msg1_req,
}
use sgx_erlang_extension.ServiceProvider.Sizes.{
  Sizes, Sized, finish-Sized, if-Sized, then-Sized, group_of-Sized,
}

halves_sized :
    (m : List ℕ) → length m ≡ 32 → (length (take 16 m) ≡ 16) × (length (take 16 (drop 16 m)) ≡ 16)
halves_sized m h = omega (arith, length-take 16 m, length-take 16 (drop 16 m), length-drop 16 m)

is_68 : (n : ℕ) → not (n == 68) ≡ false → n ≡ 68
is_68 n h = ground arith

pub take_64_sized : (msg1 : List ℕ) → length msg1 ≡ 68 → length (take 64 msg1) ≡ 64
take_64_sized msg1 h = omega (arith, length-take 64 msg1)

pub noted-Sized :
    (msg1 : List ℕ) (db : SpDbItem)
    → length msg1 ≡ 68
    → Sized db
    → Sized (record db { g_a = take 64 msg1 })
noted-Sized msg1 db h v = record {
  g_a_sized = take_64_sized msg1 h;
  g_b_sized = v.g_b_sized;
  vk_key_sized = v.vk_key_sized;
  mk_key_sized = v.mk_key_sized;
  sk_key_sized = v.sk_key_sized;
  smk_key_sized = v.smk_key_sized;
  b_sized = v.b_sized;
  ps_sec_prop_sized = v.ps_sec_prop_sized;
}

module _ {lib : Libcrypto} where
  assemble_msg2_db_same :
      (supplied : Bool) (sig_rl : List ℕ) (s : Sp lib)
      → (assemble_msg2 supplied sig_rl s).1.g_sp_db ≡ s.g_sp_db
  unfolding assemble_msg2
  assemble_msg2_db_same supplied sig_rl s = ground arith

module _ {lib : Libcrypto} (sizes : Sizes lib) where
  derive_key_sized :
      (shared : List ℕ) (key_id : DeriveKeyType) (key : List ℕ)
      → derive_key lib shared key_id ≡ some key
      → length key ≡ 16
  unfolding derive_key
  derive_key_sized shared key_id key h = grind (arith, sizes.cmac_sized)

  abbrev Halves : List ℕ × List ℕ → Type 0
  Halves pair = (length pair.0 ≡ 16) × (length pair.1 ≡ 16)

  derive_key_pair_sized :
      (shared : List ℕ) (key_id : ℕ) (pair : List ℕ × List ℕ)
      → derive_key_pair lib shared key_id ≡ some pair
      → Halves pair
  unfolding derive_key_pair
  derive_key_pair_sized shared key_id pair h = elim (Option-cases lib.sha256_init) [
    | inl e ↦ ground arith
    | inr (c₀, e₀) ↦ elim (Option-cases (lib.sha256_update (hash_buffer key_id shared) c₀)) [
      | inl e ↦ ground arith
      | inr (c₁, e₁) ↦ elim (Option-cases (lib.sha256_update id_u c₁)) [
        | inl e ↦ ground arith
        | inr (c₂, e₂) ↦ elim (Option-cases (lib.sha256_update id_v c₂)) [
          | inl e ↦ ground arith
          | inr (c₃, e₃) ↦ elim (Option-cases (lib.sha256_get_hash c₃)) [
            | inl e ↦ ground arith
            | inr (m, e) ↦ ground (arith, sizes.hash_sized c₃ m, halves_sized m)
          ]
        ]
      ]
    ]
  ]

  derive_keys-Sized :
      (supplied : Bool) (dh_key : List ℕ) (s : Sp lib)
      → Sized s.g_sp_db
      → Sized (derive_keys supplied dh_key s).1.g_sp_db
  unfolding derive_keys
  derive_keys-Sized true dh_key s v = elim (Option-cases (derive_key_pair lib dh_key 0)) [
    | inl e ↦ ground arith
    | inr (first, e₀) ↦ elim (Option-cases (derive_key_pair lib dh_key 1)) [
      | inl e ↦ ground (arith, derive_key_pair_sized dh_key 0 first)
      | inr (second, e₁) ↦
          ground
            (arith, derive_key_pair_sized dh_key 0 first, derive_key_pair_sized dh_key 1 second)
    ]
  ]
  derive_keys-Sized false dh_key s v = grind (arith, derive_key_sized)

  assembled-Sized :
      (supplied : Bool) (sig_rl : List ℕ) (r : Result (Unit {0}) × Sp lib)
      → Sized r.1.g_sp_db
      → Sized (go_on r λ _. assemble_msg2 supplied sig_rl).1.g_sp_db
  assembled-Sized supplied sig_rl (ok a, s) v = rw (assemble_msg2_db_same supplied sig_rl s) v
  assembled-Sized supplied sig_rl (fail n, s) v = v
  assembled-Sized supplied sig_rl (crash, s) v = v

  answer-Sized :
      (supplied : Bool) (dh_key sig_rl : List ℕ) (s : Sp lib)
      → Sized s.g_sp_db
      → Sized ((derive_keys supplied dh_key >> assemble_msg2 supplied sig_rl) s).1.g_sp_db
  answer-Sized supplied dh_key sig_rl s v =
      assembled-Sized supplied sig_rl (derive_keys supplied dh_key s)
        (derive_keys-Sized supplied dh_key s v)

  -- The state once a pair of keys has been made.
  abbrev paired : List ℕ × List ℕ → Sp lib → Sp lib
  paired pair s = record s {
    g_sp_db = record s.g_sp_db { b = pair.0; g_b = pair.1 };
    library = record s.library { world = (lib.create_key_pair s.library.world).1 };
  }

  pub exchange_keys-Sized :
      (supplied : Bool) (g_a sig_rl : List ℕ) (s : Sp lib)
      → Sized s.g_sp_db
      → Sized (exchange_keys supplied g_a sig_rl s).1.g_sp_db
  unfolding exchange_keys
  exchange_keys-Sized supplied g_a sig_rl s v =
      elim (Option-cases (lib.create_key_pair s.library.world).0) [
        | inl e ↦ ground arith
        | inr (pair, e) ↦ elim (Option-cases (lib.shared_dhkey pair.0 g_a)) [
          | inl k ↦ ground (arith, sizes.key_pair_sized s.library.world pair)
          | inr (dh_key, k) ↦ ground (
            arith,
            sizes.key_pair_sized s.library.world pair,
            answer-Sized supplied dh_key sig_rl (paired pair s),
          )
        ]
      ]

  with_ecc-Sized :
      (supplied : Bool) (g_a sig_rl : List ℕ) (s : Sp lib)
      → Sized s.g_sp_db
      → Sized (with_ecc (exchange_keys supplied g_a sig_rl) s).1.g_sp_db
  with_ecc-Sized supplied g_a sig_rl s v = ground (
    arith,
    exchange_keys-Sized supplied g_a sig_rl (record s { library = (open_ecc s.library).1 }),
  )

  -- The steps of message 1 once its size has been checked.
  abbrev noting : Bool → List ℕ → List ℕ → Steps (Sp lib) (Response Msg2)
  noting supplied msg1 sig_rl =
      change_db (λ d. record d { g_a = take 64 msg1 })
      >> with_ecc (exchange_keys supplied (take 64 msg1) sig_rl)

  abbrev refusing : List ℕ → ExtendedEpidGroup lib → Steps (Sp lib) (Unit {0})
  refusing msg1 group = fail_if (not (is_zero (group.get_sigrl (drop 64 msg1)).0)) sp_ias_failed

  abbrev with_group : Bool → List ℕ → ExtendedEpidGroup lib → Steps (Sp lib) (Response Msg2)
  with_group supplied msg1 group =
      refusing msg1 group >> noting supplied msg1 (group.get_sigrl (drop 64 msg1)).1

  abbrev steps : Bool → List ℕ → Steps (Sp lib) (Response Msg2)
  steps supplied msg1 = group_of >>= with_group supplied msg1

  steps-Sized :
      (supplied : Bool) (msg1 : List ℕ) (s : Sp lib)
      → length msg1 ≡ 68
      → Sized s.g_sp_db
      → Sized (steps supplied msg1 s).1.g_sp_db
  steps-Sized supplied msg1 s l v =
      then-Sized (group_of s) (with_group supplied msg1) (group_of-Sized s v) λ group s v.
        let sig_rl = (group.get_sigrl (drop 64 msg1)).1 in
        then-Sized (refusing msg1 group s) (λ _. noting supplied msg1 sig_rl) v
          λ _ s v.
            with_ecc-Sized supplied (take 64 msg1) sig_rl
              (record s { g_sp_db = record s.g_sp_db { g_a = take 64 msg1 } })
              (noted-Sized msg1 s.g_sp_db l v)

  pub msg1-Sized :
      (supplied : Bool) (msg1 : Option (List ℕ)) (s : Sp lib)
      → Sized s.g_sp_db
      → Sized (sp_ra_proc_msg1_req supplied msg1 s).1.g_sp_db
  unfolding sp_ra_proc_msg1_req
  msg1-Sized supplied none s v = v
  msg1-Sized supplied (some msg1) s v =
      if-Sized (not (length msg1 == 68)) _ _ (λ _. v)
        λ e.
          if-Sized (not s.g_is_sp_registered) _ _ (λ _. v)
            λ _.
              finish-Sized (steps supplied msg1 s)
                (steps-Sized supplied msg1 s (is_68 (length msg1) e) v)
