-- ===== src/ServiceProvider/Requests.antt =====
-- Requests, the invariant, and crashes.
use sgx_erlang_extension.Prelude.{
  ℕ, ◌≡◌, refl, ◌≢◌, ◌<◌, Option, none, some, Bool, true, false, List, ℤ, negsuc, length, drop,
  length-drop, arith, if◌then◌else◌, ◌==◌,
}
use sgx_erlang_extension.Process.{Outcome, returned, aborted, exited, waiting, crashed}
use sgx_erlang_extension.ServiceProvider.Libcrypto.{Libcrypto}
use sgx_erlang_extension.ServiceProvider.State.{Sp}
use sgx_erlang_extension.ServiceProvider.Msg0.{sp_ra_proc_msg0_req}
use sgx_erlang_extension.ServiceProvider.Msg1.{sp_ra_proc_msg1_req}
use sgx_erlang_extension.ServiceProvider.Msg3.{sp_ra_proc_msg3_req}
use sgx_erlang_extension.ServiceProvider.Network.{
  Request, Reply, key_ids, msg2, att_result, hand_over, ra_network_send_receive,
}
use sgx_erlang_extension.ServiceProvider.Invariant.{Inv, msg0-Inv, msg0_returns, msg1-Inv}
use sgx_erlang_extension.ServiceProvider.Msg3Safety.{msg3-Safe}

-- Message 3 with a quote that ends before its report data do.
abbrev pub IsShortMsg3 : Option Request → Type 0
IsShortMsg3 none = ⊥
IsShortMsg3 (some req) = (req.type ≡ 3) × (length req.body < 768)

short_body : (body : List ℕ) → length (drop 336 body) < 432 → length body < 768
short_body body h = omega (arith, length-drop 336 body)

module _ {lib : Libcrypto} where
  -- Any request leads from a state that satisfies the invariant to one that does.
  pub network-Inv :
      (supplied : Bool) (req : Option Request) (s : Sp lib)
      → Inv s
      → Inv (ra_network_send_receive supplied req s).1
  unfolding ra_network_send_receive
  network-Inv supplied none s v = v
  network-Inv supplied (some req) s v = ground (
    arith,
    msg0-Inv (some req.body) s v,
    msg1-Inv supplied (some req.body) s v,
    msg3-Safe req.body s v,
  )

  hand_over_crash :
      {B : Type 0} (wrap : B → Reply) (answer : Outcome (ℤ × Option B) × Sp lib)
      → (hand_over wrap answer).0 ≡ crashed
      → answer.0 ≡ crashed
  hand_over_crash wrap (returned (n, none), s) h = cc
  hand_over_crash wrap (returned (n, some b), s) h = cc
  hand_over_crash wrap (aborted, s) h = cc
  hand_over_crash wrap (exited n, s) h = cc
  hand_over_crash wrap (waiting, s) h = cc
  hand_over_crash wrap (crashed, s) h = refl

  -- Of four ways, chosen by three tests, only the third can crash.
  third_crashes :
      {A : Type 0} (a b c : Bool) (x y z w : Outcome A × Sp lib)
      → x.0 ≢ crashed
      → y.0 ≢ crashed
      → w.0 ≢ crashed
      → (if a then x else if b then y else if c then z else w).0 ≡ crashed
      → (c ≡ true) × (z.0 ≡ crashed)
  third_crashes true b c x y z w hx hy hw h = absurd (hx h)
  third_crashes false true c x y z w hx hy hw h = absurd (hy h)
  third_crashes false false true x y z w hx hy hw h = (refl, h)
  third_crashes false false false x y z w hx hy hw h = absurd (hw h)

  pub network_crash :
      (supplied : Bool) (req : Option Request) (s : Sp lib)
      → Inv s
      → (ra_network_send_receive supplied req s).0 ≡ crashed
      → IsShortMsg3 req
  unfolding ra_network_send_receive
  network_crash supplied none s v h = cc
  network_crash supplied (some req) s v h =
      let (c, z) =
        third_crashes (req.type == 0) (req.type == 1) (req.type == 3)
          (hand_over key_ids (sp_ra_proc_msg0_req (some req.body) s))
          (hand_over msg2 (sp_ra_proc_msg1_req supplied (some req.body) s))
          (hand_over att_result (sp_ra_proc_msg3_req (some req.body) s))
          (returned (negsuc 0, none), s)
          (λ k. msg0_returns (some req.body) s (hand_over_crash key_ids _ k))
          (λ k. (msg1-Inv supplied (some req.body) s v).1 (hand_over_crash msg2 _ k)) (λ k. cc) h in
      (
        ground (arith, c),
        short_body req.body ((msg3-Safe req.body s v).1 (hand_over_crash att_result _ z)),
      )
