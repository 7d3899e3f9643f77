-- ===== src/ServiceProvider/Network.antt =====
-- service_provider/network_ra.cpp, which stands for the network: a request goes to the handler of its
-- type.
use sgx_erlang_extension.Prelude.{ℕ, Option, none, some, Bool, List, ℤ, negsuc, ◌==◌, if◌then◌else◌}
use sgx_erlang_extension.Process.{Outcome, returned, follow}
use sgx_erlang_extension.ServiceProvider.Libcrypto.{Libcrypto}
use sgx_erlang_extension.ServiceProvider.State.{
  Sp, Response, type_ra_msg0, type_ra_msg1, type_ra_msg3,
}
use sgx_erlang_extension.ServiceProvider.Msg0.{sp_ra_proc_msg0_req}
use sgx_erlang_extension.ServiceProvider.Msg1.{Msg2, sp_ra_proc_msg1_req}
use sgx_erlang_extension.ServiceProvider.Msg3.{AttResult, sp_ra_proc_msg3_req}

-- `ra_samp_request_header_t` with its body, which is as long as `size` says.
pub record Request : Type 0 where
  pub type : ℕ
  pub body : List ℕ

pub data Reply : Type 0 where
  key_ids : Response (List ℕ) → Reply
  msg2 : Response Msg2 → Reply
  att_result : Response AttResult → Reply

-- `*p_resp` is set only if the handler returns 0; it is `none` where it is left alone.
abbrev pub hand_over :
    {S B : Type 0} → (B → Reply) → Outcome (ℤ × Option B) × S → Outcome (ℤ × Option Reply) × S
hand_over wrap answer = follow answer λ r s. elim r.1 [
  | none ↦ (returned (r.0, none), s)
  | some b ↦ (returned (r.0, some (wrap b)), s)
]

unfoldable pub ra_network_send_receive :
    {lib : Libcrypto} → Bool → Option Request → Sp lib → Outcome (ℤ × Option Reply) × Sp lib
ra_network_send_receive supplied none s = (returned (negsuc 0, none), s)
ra_network_send_receive supplied (some req) s =
    if req.type == type_ra_msg0
    then hand_over key_ids (sp_ra_proc_msg0_req (some req.body) s)
    else if req.type == type_ra_msg1
    then hand_over msg2 (sp_ra_proc_msg1_req supplied (some req.body) s)
    else if req.type == type_ra_msg3
    then hand_over att_result (sp_ra_proc_msg3_req (some req.body) s)
    else (returned (negsuc 0, none), s)
