-- ===== src/IsvApp/Verification.antt =====
-- The mode of isv_app/isv_app.cpp with a verification index: it sends precomputed messages and
-- compares the answers with precomputed ones.
use sgx_erlang_extension.Prelude.{
  ℕ, ◌+◌, Option, none, some, Bool, ◌&&◌, not, List, [], ◌∷◌, ◌++◌, ℤ, is_zero, take, zeros,
  bytes_eq, ◌==◌, if◌then◌else◌,
}
use sgx_erlang_extension.Process.{Outcome, returned}
use sgx_erlang_extension.Sgx.Bridge.{Bridge}
use sgx_erlang_extension.IsvEnclave.{Crypto}
use sgx_erlang_extension.ServiceProvider.Libcrypto.{Libcrypto}
use sgx_erlang_extension.ServiceProvider.Ias.{le16, le32, words, blob_bytes}
use sgx_erlang_extension.ServiceProvider.State.{Response}
use sgx_erlang_extension.ServiceProvider.Msg1.{Msg2}
use sgx_erlang_extension.ServiceProvider.Msg3.{AttResult}
use sgx_erlang_extension.ServiceProvider.Network.{Reply, key_ids, msg2, att_result}
use sgx_erlang_extension.IsvApp.Samples.{
  Sample, msg2_body_size, attestation_msg_body_size, verification_index_is_valid, array_index,
  sample_at, atoi,
}
use sgx_erlang_extension.IsvApp.Calls.{
  compared_msg2, compared_result, Event, Ret, App, Exit, go, cleanup, leave, Part, ◌>>=◌, ◌>>◌,
  gets, modify, cleanup_if, present, failed,
}
use sgx_erlang_extension.IsvApp.Round.{
  as_att_result, send, select_key, create_enclaves, get_msg1, ending,
}
use sgx_erlang_extension.IsvApp.Main.{main}

-- `sample_ra_msg2_t` in memory.
abbrev pub after_kdf_id : Msg2 → List ℕ
after_kdf_id m = words m.sign_x ++ words m.sign_y ++ m.mac ++ le32 m.sig_rl_size ++ m.sig_rl

unfoldable pub msg2_body : Msg2 → List ℕ
msg2_body m = m.g_b ++ (m.spid ++ (le16 m.quote_type ++ (le16 m.kdf_id ++ after_kdf_id m)))

-- `sample_ra_att_result_msg_t` in memory, with the payload after it.
unfoldable pub att_result_body : AttResult → List ℕ
att_result_body m =
    blob_bytes m.platform_info_blob
    ++ m.mac
    ++ le32 m.payload_size
    ++ zeros 12
    ++ m.payload_tag
    ++ m.payload

-- A response in memory: `ra_samp_response_header_t` and as much of its body as its size says.
abbrev pub response_bytes : {B : Type 0} → (B → List ℕ) → Response B → List ℕ
response_bytes body r =
    (r.type ∷ r.status.0 ∷ r.status.1 ∷ []) ++ le32 r.size ++ (0 ∷ []) ++ take r.size (body r.body)

unfoldable pub reply_bytes : Reply → List ℕ
reply_bytes (key_ids r) = response_bytes (λ (b : List ℕ). b) r
reply_bytes (msg2 r) = response_bytes msg2_body r
reply_bytes (att_result r) = response_bytes att_result_body r

abbrev pub reply_size : Reply → ℕ
reply_size (key_ids r) = r.size
reply_size (msg2 r) = r.size
reply_size (att_result r) = r.size

-- The comparisons with the precomputed answers.
unfoldable pub is_msg2_sample : Sample → Reply → Bool
is_msg2_sample sample reply =
    (8 + reply_size reply == msg2_body_size) && bytes_eq sample.msg2 (reply_bytes reply)

unfoldable pub is_attestation_sample : Sample → Response AttResult → Bool
is_attestation_sample sample r =
    (r.size == attestation_msg_body_size)
    && bytes_eq (take r.size (att_result_body r.body)) sample.attestation

-- The events of the answer to message 1. An answer that fails or is missing is passed over, as one of
-- another type is.
abbrev pub compared : Sample → ℤ × Option Reply → List Event → List Event
compared sample (ret, none) events = events
compared sample (ret, some reply) events =
    if is_zero ret then compared_msg2 (is_msg2_sample sample reply) ∷ events else events

module _ {lib : Libcrypto} where
  abbrev pub note_msg2 : Sample → ℤ × Option Reply → Part (App lib) (Unit {0})
  note_msg2 sample sent = modify (λ s. record s { events = compared sample sent s.events })

  -- After the comparison the round jumps to CLEANUP, with `ret` 0.
  unfoldable pub note_result : Sample → ℤ × Option Reply → Part (App lib) (Unit {0})
  note_result sample sent = do
    cleanup_if (not (is_zero sent.0)) failed
    reply ← present sent.1 failed
    r ← present (as_att_result reply) failed
    modify (λ s. record s { events = compared_result (is_attestation_sample sample r) ∷ s.events })

module _ {lib : Libcrypto} (supplied : Bool) where
  unfoldable pub verify_msg1 : Sample → Part (App lib) (Unit {0})
  verify_msg1 sample = send supplied (record { type = 1; body = sample.msg1 }) >>= note_msg2 sample

  unfoldable pub verify_msg3 : Sample → Part (App lib) (Unit {0})
  verify_msg3 sample =
      send supplied (record { type = 3; body = sample.msg3 }) >>= note_result sample

  -- A round up to CLEANUP. The message 1 that is generated is dropped.
  unfoldable pub verify : Sample → Part (App lib) (Unit {0})
  verify sample = do
    select_key supplied
    answers ← gets (λ s. s.answers)
    create_enclaves answers.creations
    msg1 ← get_msg1
    verify_msg1 sample
    verify_msg3 sample

  unfoldable pub verify_round : Sample → Part (App lib) Ret
  verify_round sample s = ending (verify sample s)

  unfoldable pub verify_rounds : Sample → Part (App lib) Ret
  verify_rounds sample = verify_round sample >> verify_round sample

-- The index that the first argument gives, if it is valid, and its messages.
unfoldable pub chosen : List ℕ → Option Sample
chosen argument =
    let index = atoi argument in
    if verification_index_is_valid index then sample_at (array_index index) else none

-- The end of `main`.
abbrev pub finish : {S : Type 0} → Exit Ret × S → Outcome Ret × S
finish (r, t) = elim r [
  | go ret ↦ (returned ret, t)
  | cleanup ret ↦ (returned ret, t)
  | leave o ↦ (o, t)
]

module _ {lib : Libcrypto} (supplied : Bool) where
  abbrev pub with_sample : Option Sample → App lib → Outcome Ret × App lib
  with_sample none s = (returned failed, s)
  with_sample (some sample) s = finish (verify_rounds supplied sample s)

module _ {lib : Libcrypto} (supplied : Bool) (crypto : Crypto) (bridge : Bridge (List ℕ)) where
  -- `main` with `argv`. Without an argument after the program's name it runs the protocol.
  unfoldable pub main_with : List (List ℕ) → App lib → Outcome Ret × App lib
  main_with (name ∷ argument ∷ more) s = with_sample supplied (chosen argument) s
  main_with args s = main supplied crypto bridge s
