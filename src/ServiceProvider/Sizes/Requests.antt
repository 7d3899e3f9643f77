-- ===== src/ServiceProvider/Sizes/Requests.antt =====
-- The sizes of the arrays in the states that requests can lead to.
use sgx_erlang_extension.Prelude.{ℕ, Option, none, some, Bool, List, length-zeros, ℤ, ◌==◌, arith}
use sgx_erlang_extension.Process.{Outcome, returned, aborted, exited, waiting, crashed}
use sgx_erlang_extension.ServiceProvider.Libcrypto.{Libcrypto}
use sgx_erlang_extension.ServiceProvider.Ias.{ias_enroll}
use sgx_erlang_extension.ServiceProvider.State.{Sp, zero_db}
use sgx_erlang_extension.ServiceProvider.Msg0.{sp_ra_proc_msg0_req}
use sgx_erlang_extension.ServiceProvider.Network.{
  Request, Reply, key_ids, msg2, att_result, hand_over, ra_network_send_receive,
}
use sgx_erlang_extension.ServiceProvider.Reachable.{Reach, started, served}
use sgx_erlang_extension.ServiceProvider.Sizes.{Sizes, Sized, if-Sized}
use sgx_erlang_extension.ServiceProvider.Sizes.Msg1.{msg1-Sized}
use sgx_erlang_extension.ServiceProvider.Sizes.Msg3.{msg3-Sized}

initial-Sized : Sized zero_db
initial-Sized = record {
  g_a_sized = length-zeros 64;
  g_b_sized = length-zeros 64;
  vk_key_sized = length-zeros 16;
  mk_key_sized = length-zeros 16;
  sk_key_sized = length-zeros 16;
  smk_key_sized = length-zeros 16;
  b_sized = length-zeros 32;
  ps_sec_prop_sized = length-zeros 256;
}

module _ {lib : Libcrypto} where
  msg0-Sized :
      (msg0 : Option (List ℕ)) (s : Sp lib)
      → Sized s.g_sp_db
      → Sized (sp_ra_proc_msg0_req msg0 s).1.g_sp_db
  unfolding sp_ra_proc_msg0_req ias_enroll
  msg0-Sized none s v = v
  msg0-Sized (some msg0) s v = ground arith

  hand_over-Sized :
      {B : Type 0} (wrap : B → Reply) (answer : Outcome (ℤ × Option B) × Sp lib)
      → Sized answer.1.g_sp_db
      → Sized (hand_over wrap answer).1.g_sp_db
  hand_over-Sized wrap (returned (n, none), s) v = v
  hand_over-Sized wrap (returned (n, some b), s) v = v
  hand_over-Sized wrap (aborted, s) v = v
  hand_over-Sized wrap (exited n, s) v = v
  hand_over-Sized wrap (waiting, s) v = v
  hand_over-Sized wrap (crashed, s) v = v

module _ {lib : Libcrypto} (sizes : Sizes lib) (supplied : Bool) where
  network-Sized :
      (req : Option Request) (s : Sp lib)
      → Sized s.g_sp_db
      → Sized (ra_network_send_receive supplied req s).1.g_sp_db
  unfolding ra_network_send_receive
  network-Sized none s v = v
  network-Sized (some req) s v =
      if-Sized (req.type == 0) _ _ (λ _. hand_over-Sized key_ids _ (msg0-Sized (some req.body) s v))
        λ _.
          if-Sized (req.type == 1) _ _
            (λ _. hand_over-Sized msg2 _ (msg1-Sized sizes supplied (some req.body) s v))
            λ _.
              if-Sized (req.type == 3) _ _
                (λ _. hand_over-Sized att_result _ (msg3-Sized (some req.body) s v)) λ _. v

  -- Where the library writes keys, MACs and digests of the sizes that its header declares, every
  -- array of the session's data has its declared size in every state that requests can lead to,
  -- in any order and number: 64 bytes for g_a and g_b, 16 for each of the four keys, 32 for the
  -- private key b, and 256 for the property descriptor.
  pub Reach-Sized : {w : lib.World} {s : Sp lib} → Reach supplied w s → Sized s.g_sp_db
  Reach-Sized started = initial-Sized
  Reach-Sized (served {s = s} r req) = network-Sized req s (Reach-Sized r)
