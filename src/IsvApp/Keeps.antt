-- ===== src/IsvApp/Keeps.antt =====
-- The parts of a round that leave something about the events as it is.
use sgx_erlang_extension.Prelude.{ℕ, ◌≡◌, refl, ◌∙◌, Bool, List, [], ◌∷◌, arith}
use sgx_erlang_extension.Sgx.{Status}
use sgx_erlang_extension.ServiceProvider.Libcrypto.{Libcrypto}
use sgx_erlang_extension.ServiceProvider.Network.{Request}
use sgx_erlang_extension.IsvApp.Calls.{
  Event, created, App, Exit, go, cleanup, leave, Part, go_on, ◌>>=◌,
}
use sgx_erlang_extension.IsvApp.Round.{
  send, select_key, create_enclaves, get_msg1, send_msg1, get_msg3, send_msg3,
}

module _ {lib : Libcrypto} {X : Type 0} (measure : List Event → X) where
  abbrev pub Keeps : {A : Type 0} → Part (App lib) A → Type 0
  Keeps part = (s : App lib) → measure (part s).1.events ≡ measure s.events

  pub still_kept :
      {A B : Type 0} (r : Exit A × App lib) (f : A → Part (App lib) B)
      → ((a : A) → Keeps (f a))
      → measure (go_on r f).1.events ≡ measure r.1.events
  still_kept (go a, s) f l = l a s
  still_kept (cleanup ret, s) f l = refl
  still_kept (leave o, s) f l = refl

  pub then-Keeps :
      {A B : Type 0} (m : Part (App lib) A) (f : A → Part (App lib) B)
      → Keeps m
      → ((a : A) → Keeps (f a))
      → Keeps (m >>= f)
  then-Keeps m f k l s = still_kept (m s) f l ∙ k s

  pub get_msg1-Keeps : Keeps get_msg1
  unfolding get_msg1
  get_msg1-Keeps s = ground arith

  pub get_msg3-Keeps : Keeps get_msg3
  unfolding get_msg3
  get_msg3-Keeps s = ground arith

  -- The creation of an enclave does not count.
  pub create_enclaves-Keeps :
      ((id : ℕ) (events : List Event) → measure (created id ∷ events) ≡ measure events)
      → (creations : List ((Status × ℕ) × (Status × Status) × ℕ))
      → Keeps (create_enclaves creations)
  unfolding create_enclaves
  create_enclaves-Keeps blind [] s = refl
  create_enclaves-Keeps blind (((ret, eid), statuses, context) ∷ creations) s =
      grind (arith, blind, create_enclaves-Keeps blind creations)

module _ {lib : Libcrypto} {X : Type 0} (measure : List Event → X) (supplied : Bool) where
  pub send-Keeps : (req : Request) → Keeps measure (send {lib = lib} supplied req)
  unfolding send
  send-Keeps req s = refl

  pub select_key-Keeps : Keeps measure (select_key {lib = lib} supplied)
  unfolding select_key
  select_key-Keeps s = grind (arith, send-Keeps)

  pub send_msg1-Keeps : (msg1 : List ℕ) → Keeps measure (send_msg1 {lib = lib} supplied msg1)
  unfolding send_msg1
  send_msg1-Keeps msg1 s = ground (arith, send-Keeps (record { type = 1; body = msg1 }) s)

  pub send_msg3-Keeps : (msg3 : List ℕ) → Keeps measure (send_msg3 {lib = lib} supplied msg3)
  unfolding send_msg3
  send_msg3-Keeps msg3 s = ground (arith, send-Keeps (record { type = 3; body = msg3 }) s)
