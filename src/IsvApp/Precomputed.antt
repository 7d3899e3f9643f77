-- ===== src/IsvApp/Precomputed.antt =====
-- What the mode with a verification index does.
use sgx_erlang_extension.Prelude.{
  ℕ, ◌+◌, ◌≡◌, refl, ◌∙◌, Option, none, some, Bool, List, [], ◌∷◌, ℤ, pos, arith,
}
use sgx_erlang_extension.Sgx.Bridge.{Bridge}
use sgx_erlang_extension.IsvEnclave.{Crypto}
use sgx_erlang_extension.ServiceProvider.Libcrypto.{Libcrypto}
use sgx_erlang_extension.ServiceProvider.Network.{Request, Reply}
use sgx_erlang_extension.IsvApp.Calls.{
  Event, created, closed, destroyed, attested, compared_msg2, compared_result, Ret, number, App,
  Exit, go, cleanup, leave, Part, ◌>>=◌,
}
use sgx_erlang_extension.IsvApp.Samples.{Sample}
use sgx_erlang_extension.IsvApp.Round.{
  send, select_key, create_enclaves, get_msg1, clean_up, ending,
}
use sgx_erlang_extension.IsvApp.Verification.{
  compared, note_msg2, note_result, verify_msg1, verify_msg3, verify, verify_round, verify_rounds,
  chosen, finish, with_sample, main_with,
}
use sgx_erlang_extension.IsvApp.Keeps.{
  Keeps, then-Keeps, get_msg1-Keeps, create_enclaves-Keeps, send-Keeps, select_key-Keeps,
}

-- How often a round has ended in success.
abbrev pub attestations : List Event → ℕ
attestations [] = 0
attestations (attested ∷ events) = 1 + attestations events
attestations (created id ∷ events) = attestations events
attestations (closed id context ∷ events) = attestations events
attestations (destroyed id ∷ events) = attestations events
attestations (compared_msg2 b ∷ events) = attestations events
attestations (compared_result b ∷ events) = attestations events

-- Something about the events that the mode cannot change before CLEANUP.
pub record Blind {X : Type 0} (measure : List Event → X) : Type 0 where
  pub to_created : (id : ℕ) (events : List Event) → measure (created id ∷ events) ≡ measure events
  pub to_msg2 :
      (b : Bool) (events : List Event) → measure (compared_msg2 b ∷ events) ≡ measure events
  pub to_result :
      (b : Bool) (events : List Event) → measure (compared_result b ∷ events) ≡ measure events

module _ {X : Type 0} {measure : List Event → X} (blind : Blind measure) where
  compared_same :
      (sample : Sample) (sent : ℤ × Option Reply) (events : List Event)
      → measure (compared sample sent events) ≡ measure events
  compared_same sample (ret, none) events = refl
  compared_same sample (ret, some reply) events = grind (arith, blind.to_msg2)

  module _ {lib : Libcrypto} where
    note_result-Keeps :
        (sample : Sample) (sent : ℤ × Option Reply)
        → Keeps {lib = lib} measure (note_result sample sent)
    unfolding note_result
    note_result-Keeps sample sent s = grind (arith, blind.to_result)

module _ {lib : Libcrypto} {X : Type 0} {measure : List Event → X} (blind : Blind measure)
    (supplied : Bool) where
  verify_msg1-Keeps : (sample : Sample) → Keeps measure (verify_msg1 {lib = lib} supplied sample)
  unfolding verify_msg1
  verify_msg1-Keeps sample =
      let req : Request = record { type = 1; body = sample.msg1 } in
      then-Keeps measure (send supplied req) (note_msg2 sample) (send-Keeps measure supplied req)
        λ sent s. compared_same blind sample sent s.events

  verify_msg3-Keeps : (sample : Sample) → Keeps measure (verify_msg3 {lib = lib} supplied sample)
  unfolding verify_msg3
  verify_msg3-Keeps sample =
      let req : Request = record { type = 3; body = sample.msg3 } in
      then-Keeps measure (send supplied req) (note_result sample) (send-Keeps measure supplied req)
        (note_result-Keeps blind sample)

  -- A round from each of its steps on.
  abbrev from_msg1 : Sample → Part (App lib) (Unit {0})
  from_msg1 sample =
      get_msg1 >>= λ msg1. verify_msg1 supplied sample >>= λ _. verify_msg3 supplied sample

  from_msg1-Keeps : (sample : Sample) → Keeps measure (from_msg1 sample)
  from_msg1-Keeps sample =
      then-Keeps measure get_msg1
        (λ msg1. verify_msg1 supplied sample >>= λ _. verify_msg3 supplied sample)
        (get_msg1-Keeps measure)
        λ msg1.
          then-Keeps measure (verify_msg1 supplied sample) (λ _. verify_msg3 supplied sample)
            (verify_msg1-Keeps sample) λ _. verify_msg3-Keeps sample

  abbrev from_enclaves : Sample → Part (App lib) (Unit {0})
  from_enclaves sample s = (create_enclaves s.answers.creations >>= λ _. from_msg1 sample) s

  verify-Keeps : (sample : Sample) → Keeps measure (verify {lib = lib} supplied sample)
  unfolding verify
  verify-Keeps sample =
      then-Keeps measure (select_key supplied) (λ _. from_enclaves sample)
        (select_key-Keeps measure supplied)
        λ _ s.
          then-Keeps measure (create_enclaves s.answers.creations) (λ _. from_msg1 sample)
            (create_enclaves-Keeps measure blind.to_created s.answers.creations)
            (λ _. from_msg1-Keeps sample) s

-- What CLEANUP leaves as it is.
attestations-Blind : Blind attestations
attestations-Blind = record {
  to_created = λ id events. refl;
  to_msg2 = λ b events. refl;
  to_result = λ b events. refl;
}

module _ {lib : Libcrypto} where
  clean_up-attestations : (ret : Ret) → Keeps {lib = lib} attestations (clean_up ret)
  unfolding clean_up
  clean_up-attestations ret s = ground arith

  ending-attestations :
      (r : Exit (Unit {0}) × App lib) → attestations (ending r).1.events ≡ attestations r.1.events
  ending-attestations (go a, t) = clean_up-attestations (number (pos 0)) t
  ending-attestations (cleanup ret, t) = clean_up-attestations ret t
  ending-attestations (leave o, t) = refl

  module _ (supplied : Bool) (sample : Sample) where
    verify_round-Keeps : Keeps attestations (verify_round {lib = lib} supplied sample)
    unfolding verify_round
    verify_round-Keeps s =
        ending-attestations (verify supplied sample s)
        ∙ verify-Keeps attestations-Blind supplied sample s

    verify_rounds-Keeps : Keeps attestations (verify_rounds {lib = lib} supplied sample)
    unfolding verify_rounds
    verify_rounds-Keeps =
        then-Keeps attestations (verify_round supplied sample) (λ _. verify_round supplied sample)
          verify_round-Keeps λ _. verify_round-Keeps

module _ {lib : Libcrypto} (supplied : Bool) (crypto : Crypto) (bridge : Bridge (List ℕ)) where
  finished : (r : Exit Ret × App lib) → attestations (finish r).1.events ≡ attestations r.1.events
  finished (go a, t) = refl
  finished (cleanup ret, t) = refl
  finished (leave o, t) = refl

  with_sample-attestations :
      (sample : Option Sample) (s : App lib)
      → attestations (with_sample supplied sample s).1.events ≡ attestations s.events
  with_sample-attestations none s = refl
  with_sample-attestations (some sample) s =
      finished (verify_rounds supplied sample s) ∙ verify_rounds-Keeps supplied sample s

  -- With an argument, whatever it is and whatever the calls answer, no round ends in a success
  -- of the attestation: the events hold as many of them as before.
  pub main_with-attestations :
      (name argument : List ℕ) (more : List (List ℕ)) (s : App lib)
      → attestations (main_with supplied crypto bridge (name ∷ argument ∷ more) s).1.events
        ≡ attestations s.events
  unfolding main_with
  main_with-attestations name argument more s = with_sample-attestations (chosen argument) s
