-- ===== src/IsvApp/Round.antt =====
-- The parts of a round of `main` of isv_app/isv_app.cpp.
use sgx_erlang_extension.Prelude.{
  ℕ, ◌^◌, ◌-◌, Option, none, some, Bool, ◌&&◌, not, List, [], ◌∷◌, ℤ, pos, is_zero, ◌==◌, zeros,
  take, if◌then◌else◌,
}
use sgx_erlang_extension.Process.{Outcome, returned, aborted, exited, waiting, crashed}
use sgx_erlang_extension.Sgx.{Status, eq_status}
use sgx_erlang_extension.Sgx.Bridge.{Bridge}
use sgx_erlang_extension.IsvEnclave.{Crypto, verify_att_result_mac, put_secret_data}
use sgx_erlang_extension.ServiceProvider.Libcrypto.{Libcrypto}
use sgx_erlang_extension.ServiceProvider.Ias.{le32, blob_bytes}
use sgx_erlang_extension.ServiceProvider.State.{Response}
use sgx_erlang_extension.ServiceProvider.Msg1.{Msg2}
use sgx_erlang_extension.ServiceProvider.Msg3.{AttResult}
use sgx_erlang_extension.ServiceProvider.Network.{
  Request, Reply, msg2, att_result, ra_network_send_receive,
}
use sgx_erlang_extension.IsvApp.Retry.{retry, decremented}
use sgx_erlang_extension.IsvApp.Calls.{
  created, closed, destroyed, attested, Ret, number, code, App, Exit, go, cleanup, leave, Part,
  ◌>>=◌, ◌>>◌, pure, gets, modify, cleanup_if, leave_if, present, answered, first, rest, is_success,
  failed,
}

-- INT_MAX, which says that there is no context.
unfoldable pub is_context : ℕ → Bool
is_context context = not (context == 2 ^ 31 - 1)

-- A response of the type that is expected.
abbrev pub as_msg2 : Reply → Option (Response Msg2)
as_msg2 (msg2 r) = some r
as_msg2 _ = none

abbrev pub as_att_result : Reply → Option (Response AttResult)
as_att_result (att_result r) = some r
as_att_result _ = none

abbrev pub is_busy : Status → Bool
is_busy status = eq_status status Status.error_busy

abbrev pub exit_of : {A : Type 0} → Outcome A → Exit A
exit_of (returned a) = go a
exit_of aborted = leave aborted
exit_of (exited n) = leave (exited n)
exit_of waiting = leave waiting
exit_of crashed = leave crashed

abbrev pub both : Status × Status → Bool
both (ret, status) = is_success ret && is_success status

module _ {lib : Libcrypto} where
  -- The loop around `sgx_create_enclave` and `enclave_init_ra`, with the test of the latter's statuses
  -- after it. The identifier is written if the enclave is created, and the context if the call of
  -- `enclave_init_ra` succeeds.
  unfoldable pub create_enclaves :
      List ((Status × ℕ) × (Status × Status) × ℕ) → Part (App lib) (Unit {0})
  create_enclaves [] s = (leave waiting, record s { answers = record s.answers { creations = [] } })
  create_enclaves (((ret, eid), statuses, context) ∷ creations) s =
      let answers = record s.answers { creations = creations } in
      let t = record s {
        answers = answers;
        enclave_id = eid;
        context = if is_success statuses.0 then context else s.context;
        g_secret = zeros 8;
        events = created eid ∷ s.events;
      } in
      let u = record t { enclave_lost_retry_time = decremented s.enclave_lost_retry_time } in
      let others = create_enclaves creations u in
      if not (is_success ret)
      then (cleanup failed, record s { answers = answers })
      else if eq_status statuses.0 Status.error_enclave_lost
      then (if is_zero s.enclave_lost_retry_time then (cleanup failed, u) else others)
      else if both statuses
      then (go tt, t)
      else (cleanup failed, t)

  unfoldable pub get_msg1 : Part (App lib) (List ℕ)
  get_msg1 = do
    answers ← gets (λ s. s.answers)
    time ← gets (λ s. s.busy_retry_time)
    let tried = retry (λ a. is_busy a.0) answers.msg1s time
    modify (λ s. record s {
      answers = record s.answers { msg1s = tried.1 };
      busy_retry_time = tried.2;
    })
    got ← answered tried.0
    cleanup_if (not (is_success got.0)) failed
    pure got.1

  -- The SDK sets `p_msg3` in the last call, or not at all.
  unfoldable pub get_msg3 : Part (App lib) (List ℕ)
  get_msg3 = do
    answers ← gets (λ s. s.answers)
    let tried = retry (λ a. is_busy a.0) answers.msg3s (pos 2)
    modify (λ s. record s {
      answers = record s.answers { msg3s = tried.1 };
      busy_retry_time = tried.2;
    })
    got ← answered tried.0
    msg3 ← present got.1 failed
    cleanup_if (not (is_success got.0)) failed
    pure msg3

  -- What follows CLEANUP. Neither the context nor the identifier is reset.
  unfoldable pub clean_up : Ret → App lib → Exit Ret × App lib
  clean_up ret s =
      let t = record s {
        answers = record s.answers { closes = rest s.answers.closes };
        events = closed s.enclave_id s.context ∷ s.events;
      } in
      if is_context s.context
      then elim (first s.answers.closes) [
        | none ↦ (leave waiting, s)
        | some statuses ↦ (
          go (if both statuses then ret else failed),
          record t { events = destroyed t.enclave_id ∷ t.events },
        )
      ]
      else (go ret, record s { events = destroyed s.enclave_id ∷ s.events })

  -- CLEANUP is also reached when no part of the round jumps to it.
  abbrev pub ending : Exit (Unit {0}) × App lib → Exit Ret × App lib
  ending (r, t) = elim r [
    | go a ↦ clean_up (number (pos 0)) t
    | cleanup ret ↦ clean_up ret t
    | leave o ↦ (leave o, t)
  ]

module _ {lib : Libcrypto} (crypto : Crypto) (bridge : Bridge (List ℕ)) where
  -- A call into the enclave: the status of the call and that of the function.
  abbrev pub on_enclave : (List ℕ → Status × List ℕ) → Part (App lib) (Status × Status)
  on_enclave f s =
      let (statuses, e) = bridge.call f s.g_secret in (go statuses, record s { g_secret = e })

  unfoldable pub put_secret : Response AttResult → Part (App lib) (Unit {0})
  put_secret r s =
      let secret = take r.body.payload_size r.body.payload in
      ((do
        statuses ← on_enclave (put_secret_data crypto s.context secret r.body.payload_tag)
        cleanup_if (not (both statuses)) (code statuses.0))
        s)

  -- What is done with an attestation result. Where a status byte is not 0, the secret is passed over
  -- and the round still ends in success.
  unfoldable pub receive : Response AttResult → Part (App lib) (Unit {0})
  receive r s =
      ((do
        statuses ← on_enclave (λ e. (
          verify_att_result_mac crypto s.context (blob_bytes r.body.platform_info_blob) r.body.mac,
          e,
        ))
        cleanup_if (not (both statuses)) failed
        if r.status.0 == 0 && r.status.1 == 0 then put_secret r else pure tt
        modify (λ s. record s { events = attested ∷ s.events }))
        s)

module _ {lib : Libcrypto} (supplied : Bool) where
  unfoldable pub send : Request → Part (App lib) (ℤ × Option Reply)
  send req s =
      let (o, t) = ra_network_send_receive supplied (some req) s.sp in
      (exit_of o, record s { sp = t })

  -- Message 0, and the choice of an attestation key.
  unfoldable pub select_key : Part (App lib) (Unit {0})
  select_key = do
    answers ← gets (λ s. s.answers)
    modify (λ s. record s { answers = record s.answers { groups = rest s.answers.groups } })
    group ← answered (first answers.groups)
    leave_if (not (is_success group.0)) (returned failed)
    sent ← send (record { type = 0; body = le32 group.1 })
    cleanup_if (not (is_zero sent.0)) (number sent.0)
    modify (λ s. record s { answers = record s.answers { selections = rest s.answers.selections } })
    selected ← answered (first answers.selections)
    cleanup_if (not (is_success selected)) failed

  -- Message 1 and its answer. A response of another type leads to CLEANUP with `ret` still 0.
  unfoldable pub send_msg1 : List ℕ → Part (App lib) (Response Msg2)
  send_msg1 msg1 = do
    sent ← send (record { type = 1; body = msg1 })
    cleanup_if (not (is_zero sent.0)) (number sent.0)
    reply ← present sent.1 (number (pos 0))
    present (as_msg2 reply) (number (pos 0))

  unfoldable pub send_msg3 : List ℕ → Part (App lib) (Response AttResult)
  send_msg3 msg3 = do
    sent ← send (record { type = 3; body = msg3 })
    cleanup_if (not (is_zero sent.0)) failed
    reply ← present sent.1 failed
    present (as_att_result reply) failed
