-- ===== src/ServiceProvider/Reachable.antt =====
-- The states of the service provider that requests can lead to, and what holds in all of them.
use sgx_erlang_extension.Prelude.{◌≡◌, Option, some, Bool, true}
use sgx_erlang_extension.Process.{crashed}
use sgx_erlang_extension.ServiceProvider.Libcrypto.{Libcrypto}
use sgx_erlang_extension.ServiceProvider.State.{Sp, ias_group, initial_sp}
use sgx_erlang_extension.ServiceProvider.Network.{Request, ra_network_send_receive}
use sgx_erlang_extension.ServiceProvider.Invariant.{Inv, initial_sp-Inv}
use sgx_erlang_extension.ServiceProvider.Requests.{network-Inv, network_crash, IsShortMsg3}

module _ {lib : Libcrypto} (supplied : Bool) (w : lib.World) where
  -- The states that requests lead to, in any order and number, from the start.
  pub data Reach : Sp lib → Type 0 where
    started : Reach (initial_sp lib w)
    served :
        {s : Sp lib}
        → Reach s
        → (req : Option Request) → Reach (ra_network_send_receive supplied req s).1

  Reach-Inv : {s : Sp lib} → Reach s → Inv s
  Reach-Inv started = initial_sp-Inv w
  Reach-Inv (served {s = s} r req) = network-Inv supplied req s (Reach-Inv r)

  -- In every state that requests can lead to, in any order and number, a registered provider has
  -- the group of the table, and every ECC context that was opened has been closed.
  pub Reach_registered :
      {s : Sp lib}
      → Reach s
      → (s.g_is_sp_registered ≡ true → s.group ≡ some (ias_group lib)) × (s.library.contexts ≡ 0)
  Reach_registered r = ((Reach-Inv r).grouped, (Reach-Inv r).closed)

  -- In no state that requests can lead to does a request crash the service provider, by the NULL
  -- group pointer or by reading outside an array, unless it is a message 3 of fewer than 768
  -- bytes, whose quote ends before its report data.
  pub Reach_crash :
      {s : Sp lib}
      → Reach s
      → (req : Option Request) → (ra_network_send_receive supplied req s).0 ≡ crashed
      → IsShortMsg3 req
  Reach_crash {s = s} r req h = network_crash supplied req s (Reach-Inv r) h
