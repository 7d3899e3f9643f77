-- ===== src/ServiceProvider/Server.antt =====
-- What message 0 and the simulated attestation server do.
use sgx_erlang_extension.Prelude.{
  ℕ, ◌≡◌, refl, ◌<◌, some, Bool, false, ◌&&◌, ◌||◌, not, List, [], ◌∷◌, pos, length, ◌==◌, arith,
  if◌then◌else◌,
}
use sgx_erlang_extension.Process.{returned}
use sgx_erlang_extension.ServiceProvider.Libcrypto.{Libcrypto}
use sgx_erlang_extension.ServiceProvider.Ias.{swap_endian_dw, swap_endian_32b, ias_enroll}
use sgx_erlang_extension.ServiceProvider.State.{Sp, ias_group}
use sgx_erlang_extension.ServiceProvider.KeyIds.{
  g_ecdsa_p256_att_key_id_list, g_epid_unlinkable_att_key_id_list,
}
use sgx_erlang_extension.ServiceProvider.Msg0.{read_le32, other_group, sp_ra_proc_msg0_req}

-- Each number is a 32-bit word.
abbrev pub Words : List ℕ → Type 0
Words [] = Unit
Words (w ∷ ws) = (w < 4294967296) × Words ws

swap_endian_dw_twice : (w : ℕ) → w < 4294967296 → swap_endian_dw (swap_endian_dw w) ≡ w
swap_endian_dw_twice w h = omega arith

-- Turning the byte order of an array of 32-bit words twice gives the array back.
pub swap_endian_32b_twice : (ws : List ℕ) → Words ws → swap_endian_32b (swap_endian_32b ws) ≡ ws
unfolding swap_endian_32b
swap_endian_32b_twice [] k = refl
swap_endian_32b_twice (a ∷ []) k = refl
swap_endian_32b_twice (a ∷ b ∷ []) k = refl
swap_endian_32b_twice (a ∷ b ∷ c ∷ []) k = refl
swap_endian_32b_twice (a ∷ b ∷ c ∷ d ∷ []) k = refl
swap_endian_32b_twice (a ∷ b ∷ c ∷ d ∷ e ∷ []) k = refl
swap_endian_32b_twice (a ∷ b ∷ c ∷ d ∷ e ∷ f ∷ []) k = refl
swap_endian_32b_twice (a ∷ b ∷ c ∷ d ∷ e ∷ f ∷ g ∷ []) k = refl
swap_endian_32b_twice (a ∷ b ∷ c ∷ d ∷ e ∷ f ∷ g ∷ h ∷ rest) k = ground (
  arith,
  swap_endian_dw_twice a,
  swap_endian_dw_twice b,
  swap_endian_dw_twice c,
  swap_endian_dw_twice d,
  swap_endian_dw_twice e,
  swap_endian_dw_twice f,
  swap_endian_dw_twice g,
  swap_endian_dw_twice h,
)

-- Both identifiers have 264 bytes.
length-ecdsa : length g_ecdsa_p256_att_key_id_list ≡ 264
unfolding g_ecdsa_p256_att_key_id_list
length-ecdsa = refl

length-epid : length g_epid_unlinkable_att_key_id_list ≡ 264
unfolding g_epid_unlinkable_att_key_id_list
length-epid = refl

module _ {lib : Libcrypto} where
  -- The group is registered by message 0 with this identifier.
  abbrev pub enrols : ℕ → Sp lib → Bool
  enrols id s = (not s.g_is_sp_registered || other_group id s.group) && id == 0

  -- A message 0 of four bytes is always answered with 0 and a key identifier of 264 bytes, the
  -- ECDSA one if none has been sent and the EPID one from then on, also for a group that is not
  -- supported. The group is registered if its identifier is 0 and the provider is not registered
  -- or has a group other than it; otherwise registration and group are kept, and so are the
  -- session's data in any case.
  pub sp_ra_proc_msg0_req_lem :
      (msg0 : List ℕ) (s : Sp lib)
      → length msg0 ≡ 4
      → let t = (sp_ra_proc_msg0_req (some msg0) s).1 in
        ((sp_ra_proc_msg0_req (some msg0) s).0
          ≡ returned (
            pos 0,
            some (record {
              type = 0;
              status = (0, 0);
              size = 264;
              body =
                  if s.g_return_ecdsa_att_key_id
                  then g_ecdsa_p256_att_key_id_list
                  else g_epid_unlinkable_att_key_id_list;
            }),
          ))
        × (t.g_is_sp_registered ≡ (s.g_is_sp_registered || enrols (read_le32 msg0) s))
        × (t.group ≡ (if enrols (read_le32 msg0) s then some (ias_group lib) else s.group))
        × (t.g_return_ecdsa_att_key_id ≡ false)
        × (t.g_sp_db ≡ s.g_sp_db)
  unfolding sp_ra_proc_msg0_req ias_enroll
  sp_ra_proc_msg0_req_lem msg0 s h = ground (arith, length-ecdsa, length-epid)
