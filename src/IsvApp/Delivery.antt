-- ===== src/IsvApp/Delivery.antt =====
-- The last leg of the protocol as a whole: from `sp_ra_proc_msg3_req` through the application of
-- isv_app/isv_app.cpp to the enclave.
use sgx_erlang_extension.Prelude.{
  ℕ, ◌≡◌, ◌∙◌, ap, some, true, false, List, [], ◌∷◌, pos, take, length, take_all, ◌≤◌, arith,
}
use sgx_erlang_extension.Process.{returned}
use sgx_erlang_extension.Sgx.{Status, success, eq_status}
use sgx_erlang_extension.Sgx.Bridge.{Bridge}
use sgx_erlang_extension.IsvEnclave.{Crypto, put_secret_data}
use sgx_erlang_extension.ServiceProvider.Libcrypto.{Libcrypto, Hashes}
use sgx_erlang_extension.ServiceProvider.State.{Sp, Response, ias_group, g_secret}
use sgx_erlang_extension.ServiceProvider.Msg3.{AttResult, sp_ra_proc_msg3_req}
use sgx_erlang_extension.ServiceProvider.Accepted.{sp_ra_proc_msg3_req-IsAccepted}
use sgx_erlang_extension.ServiceProvider.Secret.{Session, put_secret_data-sp_ra_proc_msg3_req}
use sgx_erlang_extension.IsvApp.Calls.{attested, code, App, go, cleanup}
use sgx_erlang_extension.IsvApp.Round.{both, put_secret, receive}
use sgx_erlang_extension.IsvApp.Results.{checked, opened, trusted, finishing, receive-finishing}

-- A bridge whose calls into the enclave all succeed.
pub record IsWorking (bridge : Bridge (List ℕ)) : Type 1 where
  pub succeeds :
      {A : Type 0} (f : List ℕ → A × List ℕ) (e : List ℕ)
      → eq_status (bridge.call f e).0.0 success ≡ true

small : (size l : ℕ) → size ≡ 8 → l ≡ 8 → l ≤ size
small size l h k = omega arith

module _ {lib : Libcrypto} (crypto : Crypto) (bridge : Bridge (List ℕ))
    (working : IsWorking bridge) where
  put_secret_lem :
      (r : Response AttResult) (s : App lib)
      → (opened crypto bridge r s) ≡ (success, g_secret)
      → put_secret crypto bridge r s ≡ (go tt, record s { g_secret = g_secret })
  unfolding put_secret
  put_secret_lem r s h =
      let f =
        put_secret_data crypto s.context (take r.body.payload_size r.body.payload)
          r.body.payload_tag in
      ground (arith, h, working.succeeds f s.g_secret, bridge.call_success f s.g_secret)

  put_secret_rejected :
      (r : Response AttResult) (s : App lib)
      → eq_status (opened crypto bridge r s).0 success ≡ false
      → (status : Status) × ((put_secret crypto bridge r s).0 ≡ cleanup (code status))
        × (eq_status status success ≡ true)
  unfolding put_secret
  put_secret_rejected r s h =
      let f =
        put_secret_data crypto s.context (take r.body.payload_size r.body.payload)
          r.body.payload_tag in
      let status = (bridge.call f s.g_secret).0.0 in
      let called = bridge.call_success f s.g_secret (working.succeeds f s.g_secret) in
      (status, ground (arith, h, called), working.succeeds f s.g_secret)

  check_accepted :
      (r : Response AttResult) (s : App lib)
      → eq_status (checked crypto bridge r s) success ≡ true
      → both (bridge.call (λ e. (checked crypto bridge r s, e)) s.g_secret).0 ≡ true
  check_accepted r s h =
      let f : List ℕ → Status × List ℕ = λ e. (checked crypto bridge r s, e) in
      ground (arith, h, working.succeeds f s.g_secret, bridge.call_success f s.g_secret)

  -- Over a bridge whose calls succeed, a result whose MAC is right and whose status bytes are
  -- both 0, but whose secret the enclave rejects, leaves the round with `ret` a status that
  -- equals SGX_SUCCESS.
  pub receive_rejected :
      (r : Response AttResult) (s : App lib)
      → eq_status (checked crypto bridge r s) success ≡ true
      → trusted r ≡ true
      → eq_status (opened crypto bridge r s).0 success ≡ false
      → (status : Status) × ((receive crypto bridge r s).0 ≡ cleanup (code status))
        × (eq_status status success ≡ true)
  receive_rejected r s c t h =
      let (status, e, k) = put_secret_rejected r s h in
      let f = receive-finishing crypto bridge r s (check_accepted r s c) in
      (status, ap (λ p. p.0) f ∙ ground (arith, t, e), k)

  finishing_lem :
      (r : Response AttResult) (s : App lib)
      → trusted r ≡ true
      → opened crypto bridge r s ≡ (success, g_secret)
      → finishing crypto bridge r s
        ≡ (go tt, record s { g_secret = g_secret; events = attested ∷ s.events })
  finishing_lem r s e h = ground (arith, put_secret_lem r s h)

  -- The secret arrives: whatever the service provider hands out for a message 3, the application
  -- takes to the end of its round, the enclave's secret is then the eight bytes 0 to 7, and
  -- nothing else has changed but the record of the success. The enclave's calls succeed, its
  -- context holds the session's MK and SK, both ends compute the same CMAC, decryption opens
  -- what encryption has sealed, a signature is twice eight words, SHA-256 works as documented,
  -- and a registered provider has its group.
  pub receive-sp_ra_proc_msg3_req :
      (hashes : Hashes lib) (sp : Sp lib) (msg3 : List ℕ) (r : Response AttResult) (s : App lib)
      → Session lib crypto s.context sp.g_sp_db
      → (sp.g_is_sp_registered ≡ true → sp.group ≡ some (ias_group lib))
      → (sp_ra_proc_msg3_req (some msg3) sp).0 ≡ returned (pos 0, some r)
      → receive crypto bridge r s
        ≡ (go tt, record s { g_secret = g_secret; events = attested ∷ s.events })
  receive-sp_ra_proc_msg3_req hashes sp msg3 r s session g h =
      let v = (sp_ra_proc_msg3_req-IsAccepted hashes msg3 sp r g).0 h in
      let (m, z, e) = v.answered in
      let (c, p) =
        put_secret_data-sp_ra_proc_msg3_req hashes crypto s.context sp session msg3 s.g_secret r g
          h in
      let k : r.body.payload_size ≡ 8 = ap (λ x. x.body.payload_size) e in
      let l = ap (λ x. length x.body.payload) e ∙ (session.opens _ _ _ [] z).1 in
      let whole : take r.body.payload_size r.body.payload ≡ r.body.payload =
        take_all r.body.payload_size r.body.payload (small _ _ k l) in
      let opens =
        ap (λ secret. put_secret_data crypto s.context secret r.body.payload_tag s.g_secret) whole
        ∙ p in
      receive-finishing crypto bridge r s (check_accepted r s (ap (λ x. eq_status x success) c))
      ∙ finishing_lem r s (ap trusted e) opens
