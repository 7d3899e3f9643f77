-- ===== src/IsvApp/Results.antt =====
-- What the application makes of an attestation result, with the service provider and the enclave at
-- its two sides.
use sgx_erlang_extension.Prelude.{
  ℕ, ◌≡◌, ◌↔◌, refl, ◌∙◌, ap, sym, Bool, true, false, ◌&&◌, not, List, ◌∷◌, ◌==◌, take, Bool-cases,
  inl, inr, arith, if◌then◌else◌,
}
use sgx_erlang_extension.Sgx.{Status, success, eq_status}
use sgx_erlang_extension.Sgx.Bridge.{Bridge}
use sgx_erlang_extension.IsvEnclave.{Crypto, verify_att_result_mac, put_secret_data}
use sgx_erlang_extension.ServiceProvider.Libcrypto.{Libcrypto}
use sgx_erlang_extension.ServiceProvider.Ias.{blob_bytes}
use sgx_erlang_extension.ServiceProvider.State.{Response}
use sgx_erlang_extension.ServiceProvider.Msg3.{AttResult}
use sgx_erlang_extension.IsvApp.Calls.{
  attested, App, go, cleanup, Part, go_on, ◌>>◌, pure, modify, failed,
}
use sgx_erlang_extension.IsvApp.Round.{both, put_secret, receive}

-- Both status bytes are 0.
abbrev pub trusted : Response AttResult → Bool
trusted r = r.status.0 == 0 && r.status.1 == 0

module _ {lib : Libcrypto} (crypto : Crypto) (bridge : Bridge (List ℕ)) where
  -- The two functions of the enclave, on a result `r`.
  abbrev pub checked : Response AttResult → App lib → Status
  checked r s =
      verify_att_result_mac crypto s.context (blob_bytes r.body.platform_info_blob) r.body.mac

  abbrev pub opened : Response AttResult → App lib → Status × List ℕ
  opened r s =
      put_secret_data crypto s.context (take r.body.payload_size r.body.payload) r.body.payload_tag
        s.g_secret

  -- Both statuses of each of the two calls into the enclave are SGX_SUCCESS.
  abbrev pub passes : Response AttResult → App lib → Bool
  passes r s = both (bridge.call (λ e. (checked r s, e)) s.g_secret).0

  abbrev pub accepts : Response AttResult → App lib → Bool
  accepts r s =
      both
        (bridge.call
          (put_secret_data crypto s.context (take r.body.payload_size r.body.payload)
            r.body.payload_tag)
          s.g_secret).0

  put_secret-accepts :
      (r : Response AttResult) (s : App lib)
      → ((put_secret crypto bridge r s).0 ≡ go tt) ↔ (accepts r s ≡ true)
  unfolding put_secret
  put_secret-accepts r s = ground arith

  put_secret_go :
      (r : Response AttResult) (s : App lib)
      → (put_secret crypto bridge r s).0 ≡ go tt
      → (eq_status (opened r s).0 success ≡ true)
        × ((put_secret crypto bridge r s).1.g_secret ≡ (opened r s).1)
  unfolding put_secret
  put_secret_go r s h = ground (
    arith,
    bridge.call_success
        (put_secret_data crypto s.context (take r.body.payload_size r.body.payload)
          r.body.payload_tag)
        s.g_secret,
  )

  -- The check leaves the enclave's secret alone if its call succeeds.
  check-success :
      (r : Response AttResult) (s : App lib)
      → let answer = bridge.call (λ e. (checked r s, e)) s.g_secret in
        both answer.0 ≡ true → (eq_status (checked r s) success ≡ true) × (answer.1 ≡ s.g_secret)
  check-success r s h = ground (arith, bridge.call_success (λ e. (checked r s, e)) s.g_secret)

  -- The last two steps of a round.
  abbrev pub finishing : Response AttResult → Part (App lib) (Unit {0})
  finishing r =
      (if trusted r then put_secret crypto bridge r else pure tt)
      >> modify (λ s. record s { events = attested ∷ s.events })

  finishing_go :
      (r : Response AttResult) (s : App lib)
      → (finishing r s).0 ≡ go tt
      → (trusted r ≡ true
          → (eq_status (opened r s).0 success ≡ true)
            × ((finishing r s).1.g_secret ≡ (opened r s).1))
        × (trusted r ≡ false → (finishing r s).1.g_secret ≡ s.g_secret)
  finishing_go r s h = elim (Bool-cases (trusted r)) [
    | inl e ↦ ground (arith, e, put_secret_go r s)
    | inr e ↦ ground (arith, e)
  ]

  finishing-accepts :
      (r : Response AttResult) (s : App lib)
      → ((finishing r s).0 ≡ go tt) ↔ ((trusted r && not (accepts r s)) ≡ false)
  finishing-accepts r s = elim (Bool-cases (trusted r)) [
    | inl e ↦ ground (arith, e, put_secret-accepts r s)
    | inr e ↦ ground (arith, e)
  ]

  finishing_untrusted :
      (r : Response AttResult) (s : App lib)
      → trusted r ≡ false
      → finishing r s ≡ (go tt, record s { events = attested ∷ s.events })
  finishing_untrusted r s e = rw e refl

  passed :
      (r : Response AttResult) (t : App lib) (statuses : Status × Status)
      → both statuses ≡ true
      → go_on
          (elim (not (both statuses)) [ true ↦ cleanup failed | false ↦ go tt ], t)
          (λ u. finishing r)
        ≡ finishing r t
  passed r t statuses e = rw e refl

  failed_check :
      (r : Response AttResult) (t : App lib) (statuses : Status × Status)
      → (go_on
          (elim (not (both statuses)) [ true ↦ cleanup failed | false ↦ go tt ], t)
          (λ u. finishing r)).0
        ≡ go tt
      → both statuses ≡ true
  failed_check r t statuses h = elim (Bool-cases (both statuses)) [
    | inl e ↦ e
    | inr e ↦ ground (arith, e)
  ]

  -- Where the check passes, only the last steps are left.
  pub receive-finishing :
      (r : Response AttResult) (s : App lib)
      → both (bridge.call (λ e. (checked r s, e)) s.g_secret).0 ≡ true
      → receive crypto bridge r s ≡ finishing r s
  unfolding receive
  receive-finishing r s b =
      let answer = bridge.call (λ e. (checked r s, e)) s.g_secret in
      passed r (record s { g_secret = answer.1 }) answer.0 b
      ∙ ap (λ g. finishing r (record s { g_secret = g })) (check-success r s b).1

  receive-checked :
      (r : Response AttResult) (s : App lib)
      → (receive crypto bridge r s).0 ≡ go tt
      → both (bridge.call (λ e. (checked r s, e)) s.g_secret).0 ≡ true
  unfolding receive
  receive-checked r s h =
      let answer = bridge.call (λ e. (checked r s, e)) s.g_secret in
      failed_check r (record s { g_secret = answer.1 }) answer.0 h

  receive-accepts :
      (r : Response AttResult) (s : App lib)
      → ((receive crypto bridge r s).0 ≡ go tt)
        ↔ ((passes r s ≡ true) × ((trusted r && not (accepts r s)) ≡ false))
  receive-accepts r s = (
    λ h.
        let b = receive-checked r s h in
        (b, (finishing-accepts r s).0 (sym (ap (λ p. p.0) (receive-finishing r s b)) ∙ h)),
    λ (b, k). ap (λ p. p.0) (receive-finishing r s b) ∙ (finishing-accepts r s).1 k,
  )

  -- A result is taken to the end of the round exactly if both statuses of the MAC check are
  -- SGX_SUCCESS and, where both status bytes are 0, so are both of the handing over of the
  -- secret. The enclave has then found the MAC right, and where both status bytes are 0 it has
  -- accepted the secret and holds what it decrypted. Where a status byte is not 0, a result that
  -- passes the MAC check ends the round in success all the same, and nothing has changed but the
  -- record of that success.
  pub receive_go :
      (r : Response AttResult) (s : App lib)
      → (((receive crypto bridge r s).0 ≡ go tt)
          ↔ ((passes r s ≡ true) × ((trusted r && not (accepts r s)) ≡ false)))
        × (passes r s ≡ true → eq_status (checked r s) success ≡ true)
        × (passes r s ≡ true
            → trusted r ≡ false
            → receive crypto bridge r s ≡ (go tt, record s { events = attested ∷ s.events }))
        × ((receive crypto bridge r s).0 ≡ go tt
            → trusted r ≡ true
            → (eq_status (opened r s).0 success ≡ true)
              × ((receive crypto bridge r s).1.g_secret ≡ (opened r s).1))
  receive_go r s = (
    receive-accepts r s,
    λ b. (check-success r s b).0,
    λ b k. receive-finishing r s b ∙ finishing_untrusted r s k,
    λ h k.
        let e = receive-finishing r s (receive-checked r s h) in
        rw e ((finishing_go r s (sym (ap (λ p. p.0) e) ∙ h)).0 k),
  )
