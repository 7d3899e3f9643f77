-- ===== src/Nif/Lifecycle.antt =====
-- What loading, upgrading and unloading the NIF library does to enclaves.
use sgx_erlang_extension.Prelude.{
  ℕ, ◌≡◌, true, not, ◌||◌, [], ◌∷◌, ◌++◌, pos, negsuc, if◌then◌else◌, arith, ◌==◌, ◌&&◌, Bool-cases,
  inl, inr,
}
use sgx_erlang_extension.Process.{returned}
use sgx_erlang_extension.Sgx.{success, eq_status}
use sgx_erlang_extension.Sgx.Errors.{print_error_message}
use sgx_erlang_extension.Sgx.Sdk.{Sdk}
use sgx_erlang_extension.Nif.{Library, hello_load, went_wrong, print_error, load, unload, upgrade}

module _ (sdk : Sdk) where
  open sdk use {
    World, create_enclave, is_live, create_live, create_fresh, create_failed, create_others,
    destroy_gone, destroy_others,
  }

  -- The SDK creates an enclave in this world.
  abbrev pub Creates : World → Type 0
  Creates w = eq_status (create_enclave w).0.0 success ≡ true

  -- `load` returns 0 exactly if the enclave is created, and -1 otherwise. It then names the new
  -- enclave in `global_eid`, or leaves `global_eid` as it was and reports the failure.
  pub load_lem :
      (l : Library World)
      → load sdk l ≡ (
          if eq_status (create_enclave l.world).0.0 success
          then (
            returned (pos 0),
            record {
              global_eid = (create_enclave l.world).0.1;
              world = (create_enclave l.world).1;
              printed = l.printed ++ (hello_load ∷ []);
            },
          )
          else (
            returned (negsuc 0),
            record {
              global_eid = l.global_eid;
              world = (create_enclave l.world).1;
              printed =
                  ((l.printed ++ (hello_load ∷ []))
                    ++ (print_error (print_error_message (create_enclave l.world).0.0) ∷ []))
                  ++ (went_wrong ∷ []);
            },
          ))
  unfolding load
  load_lem l = ground arith

  -- A load that succeeds adds one live enclave, that of `global_eid`; one that fails adds none.
  -- Every enclave that was live stays so.
  pub load_live :
      (l : Library World) (i : ℕ)
      → is_live (load sdk l).1.world i ≡ (
          if eq_status (create_enclave l.world).0.0 success && i == (load sdk l).1.global_eid
          then true
          else is_live l.world i)
  unfolding load
  load_live l i =
      ground (arith, create_live l.world, create_failed l.world i, create_others l.world i)

  -- Unloading after a load that succeeded leaves exactly the enclaves that were live before.
  pub unload-load :
      (l : Library World) (i : ℕ)
      → Creates l.world
      → is_live (unload sdk (load sdk l).1).1.world i ≡ is_live l.world i
  unfolding load unload
  unload-load l i c = elim (Bool-cases (i == (create_enclave l.world).0.1)) [
    | inl e ↦ ground (
      arith,
      create_fresh l.world c,
      destroy_gone (create_enclave l.world).1 (create_enclave l.world).0.1,
    )
    | inr e ↦ ground (
      arith,
      create_others l.world i,
      destroy_others (create_enclave l.world).1 (create_enclave l.world).0.1 i,
    )
  ]

  destroy_live :
      (w : World) (eid i : ℕ)
      → is_live (sdk.destroy_enclave eid w) i ≡ (not (i == eid) && is_live w i)
  destroy_live w eid i = elim (Bool-cases (i == eid)) [
    | inl e ↦ ground (arith, destroy_gone w eid)
    | inr e ↦ ground (arith, destroy_others w eid i)
  ]

  -- After a load and an upgrade, both successful, and the next `unload`, an identifier is live
  -- exactly if it is not that of the upgrade's enclave and is that of the first load's or was
  -- live before: `global_eid` holds one identifier, and the upgrade has overwritten the older
  -- one. So the enclave of the first load is left live if its identifier differs from the
  -- upgrade's, as by the SDK's reference it does; the README files say that the two are the
  -- same.
  pub unload-upgrade :
      (l : Library World) (i : ℕ)
      → Creates l.world
      → Creates (create_enclave l.world).1
      → let first = (load sdk l).1 in
        let second = (upgrade sdk first).1 in
        let last = (unload sdk second).1 in
        is_live last.world i
        ≡ (not (i == second.global_eid) && (i == first.global_eid || is_live l.world i))
  unfolding load upgrade unload
  unload-upgrade l i c d =
      let w = (create_enclave l.world).1 in
      let first = (create_enclave l.world).0.1 in
      let second = (create_enclave w).0.1 in
      ground (
        arith,
        destroy_live (create_enclave w).1 second i,
        create_others w i,
        create_others l.world i,
        create_live l.world c,
      )
