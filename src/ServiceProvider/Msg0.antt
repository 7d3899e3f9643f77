-- ===== src/ServiceProvider/Msg0.antt =====
-- `sp_ra_proc_msg0_req` of service_provider/service_provider.cpp.
use sgx_erlang_extension.Prelude.{
  ℕ, ◌+◌, ◌*◌, Option, none, some, Bool, true, false, ◌||◌, not, List, [], ◌∷◌, ℤ, negsuc, is_zero,
  length, ◌==◌, if◌then◌else◌,
}
use sgx_erlang_extension.Process.{Outcome, returned}
use sgx_erlang_extension.ServiceProvider.Libcrypto.{Libcrypto}
use sgx_erlang_extension.ServiceProvider.Steps.{Steps, ok, fail, pure, gets, ◌>>=◌, ◌>>◌, finish}
use sgx_erlang_extension.ServiceProvider.State.{
  Sp, ExtendedEpidGroup, g_extended_epid_groups, Response, sp_ias_failed, type_ra_msg0,
}
use sgx_erlang_extension.ServiceProvider.KeyIds.{
  g_ecdsa_p256_att_key_id_list, g_epid_unlinkable_att_key_id_list,
}

-- `p_msg0->extended_epid_group_id`: four bytes in little endian.
unfoldable pub read_le32 : List ℕ → ℕ
read_le32 [] = 0
read_le32 (b ∷ bytes) = b + 256 * read_le32 bytes

abbrev pub other : {A : Type 0} → Option A → A → A
other none a = a
other (some b) a = b

module _ {lib : Libcrypto} where
  -- The loop over the table. `ret` is set to SP_UNSUPPORTED_EXTENDED_EPID_GROUP before it, but what
  -- follows the loop sets it again, so only the jump to CLEANUP keeps a value.
  unfoldable pub register : ℕ → List (ExtendedEpidGroup lib) → Steps (Sp lib) (Unit {0})
  register id [] s = pure tt s
  register id (g ∷ groups) s =
      let rest = register id groups s in
      if g.extended_epid_group_id == id
      then (let (ret, spid) = g.enroll (some s.g_spid) in
          let t = record s { group = some g; g_spid = other spid s.g_spid } in
          if is_zero ret
          then (ok tt, record t { g_is_sp_registered = true })
          else (fail sp_ias_failed, t))
      else rest

  abbrev pub other_group : ℕ → Option (ExtendedEpidGroup lib) → Bool
  other_group id none = false
  other_group id (some g) = not (g.extended_epid_group_id == id)

  -- The response: the ECDSA identifier the first time, and the EPID identifier from then on.
  unfoldable pub key_id_response : Steps (Sp lib) (Response (List ℕ))
  key_id_response s =
      let ids =
        if s.g_return_ecdsa_att_key_id
        then g_ecdsa_p256_att_key_id_list
        else g_epid_unlinkable_att_key_id_list in
      (
        ok (record { type = type_ra_msg0; status = (0, 0); size = length ids; body = ids }),
        record s { g_return_ecdsa_att_key_id = false },
      )

  -- `none` is a NULL pointer; a message is as long as its size says. The result -1 of the check of
  -- the arguments leaves the pointer to the response alone.
  unfoldable pub sp_ra_proc_msg0_req :
      Option (List ℕ) → Sp lib → Outcome (ℤ × Option (Response (List ℕ))) × Sp lib
  unfolding register key_id_response
  sp_ra_proc_msg0_req none s = (returned (negsuc 0, none), s)
  sp_ra_proc_msg0_req (some msg0) s =
      if not (length msg0 == 4)
      then (returned (negsuc 0, none), s)
      else finish (
          (do
            let id = read_le32 msg0
            registered ← gets (λ s. s.g_is_sp_registered)
            group ← gets (λ s. s.group)
            if not registered || other_group id group
                then register id (g_extended_epid_groups lib)
                else pure tt
            key_id_response)
            s)
