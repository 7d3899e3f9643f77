-- ===== src/IsvApp/Mismatch.antt =====
-- The precomputed messages 2 and the service provider with SUPPLIED_KEY_DERIVATION.
use sgx_erlang_extension.Prelude.{
  ℕ, zero, suc, ◌+◌, ◌<◌, ◌%◌, ◌≡◌, ◌≢◌, refl, sym, ap, ◌∙◌, ◌⊎◌, inl, inr, Option, none, some,
  Bool, true, false, ◌&&◌, List, [], ◌∷◌, ◌++◌, ℤ, pos, negsuc, length, take, bytes_eq, bytes_eq→eq,
  ◌==◌, arith,
}
use sgx_erlang_extension.Process.{Outcome, returned, aborted, exited, waiting, crashed}
use sgx_erlang_extension.ServiceProvider.Libcrypto.{Libcrypto}
use sgx_erlang_extension.ServiceProvider.Ias.{le16}
use sgx_erlang_extension.ServiceProvider.State.{Sp, Response}
use sgx_erlang_extension.ServiceProvider.Msg1.{Msg2, sp_ra_proc_msg1_req}
use sgx_erlang_extension.ServiceProvider.Network.{msg2, hand_over, ra_network_send_receive}
use sgx_erlang_extension.ServiceProvider.Sizes.{Sizes}
use sgx_erlang_extension.ServiceProvider.Sizes.Requests.{Reach-Sized}
use sgx_erlang_extension.ServiceProvider.Reachable.{Reach, Reach_registered}
use sgx_erlang_extension.ServiceProvider.Sizes.Answers.{msg1_answer_fields}
use sgx_erlang_extension.IsvApp.Calls.{Event, compared_msg2, App, go_on}
use sgx_erlang_extension.IsvApp.Samples.{Sample, get_elem?}
use sgx_erlang_extension.IsvApp.Round.{exit_of, send}
use sgx_erlang_extension.IsvApp.Verification.{
  after_kdf_id, msg2_body, reply_bytes, is_msg2_sample, note_msg2, verify_msg1,
}
use sgx_erlang_extension.IsvApp.Indices.{Matching}

get_elem?-take : (n i : ℕ) (bytes : List ℕ) → i < n → get_elem? (take n bytes) i ≡ get_elem? bytes i
get_elem?-take zero i bytes h = absurd (omega arith)
get_elem?-take (suc n) i [] h = refl
get_elem?-take (suc n) zero (b ∷ bytes) h = refl
get_elem?-take (suc n) (suc i) (b ∷ bytes) h = get_elem?-take n i bytes (omega arith)

get_elem?-append :
    (xs ys : List ℕ) (i j : ℕ) → j ≡ length xs + i → get_elem? (xs ++ ys) j ≡ get_elem? ys i
get_elem?-append [] ys i j h = ap (get_elem? ys) (omega arith)
get_elem?-append (x ∷ xs) ys i zero h = absurd (omega arith)
get_elem?-append (x ∷ xs) ys i (suc j) h = get_elem?-append xs ys i j (omega arith)

-- Message 2 after its SPID.
abbrev after_spid : Msg2 → List ℕ
after_spid m = le16 m.quote_type ++ (le16 m.kdf_id ++ after_kdf_id m)

-- Where the function stands in message 2, and in the response around it.
msg2_body_kdf_id :
    (m : Msg2)
    → length m.g_b ≡ 64
    → length m.spid ≡ 16
    → get_elem? (msg2_body m) 82 ≡ some (m.kdf_id % 256)
unfolding msg2_body
msg2_body_kdf_id m b p =
    get_elem?-append m.g_b (m.spid ++ after_spid m) 18 82 (omega arith)
    ∙ get_elem?-append m.spid (after_spid m) 2 18 (omega arith)

reply_bytes_kdf_id :
    (r : Response Msg2)
    → r.size ≡ 168
    → length r.body.g_b ≡ 64
    → length r.body.spid ≡ 16
    → get_elem? (reply_bytes (msg2 r)) 90 ≡ some (r.body.kdf_id % 256)
unfolding reply_bytes
reply_bytes_kdf_id r n b p =
    get_elem?-take r.size 82 (msg2_body r.body) (omega arith) ∙ msg2_body_kdf_id r.body b p

sized_and : (n : ℕ) (b : Bool) → (8 + n == 176) && b ≡ true → (n ≡ 168) × (b ≡ true)
sized_and n b h = ground arith

some_injective : (m n : ℕ) → some m ≡ some n → m ≡ n
some_injective m n h = ground arith

is_msg2_sample_false :
    (sample : Sample) (r : Response Msg2)
    → Matching sample
    → length r.body.g_b ≡ 64
    → length r.body.spid ≡ 16
    → r.body.kdf_id ≡ 2
    → is_msg2_sample sample (msg2 r) ≢ true
unfolding is_msg2_sample
is_msg2_sample_false sample r m b p k h =
    let n = sized_and r.size (bytes_eq sample.msg2 (reply_bytes (msg2 r))) h in
    let e = bytes_eq→eq sample.msg2 (reply_bytes (msg2 r)) n.1 in
    absurd (
      omega (
        arith,
        some_injective 1 (2 % 256) (
            sym m.msg2_kdf_id
            ∙ ap (λ l. get_elem? l 90) e
            ∙ reply_bytes_kdf_id r n.0 b p
            ∙ ap (λ kdf_id. some (kdf_id % 256)) k),
      ))

-- What the comparison adds to the events, whatever the handler of message 1 gives.
-- No new comparison that has found a match.
abbrev pub Unmatched : List Event → List Event → Type 0
Unmatched after before = (after ≡ before) ⊎ (after ≡ compared_msg2 false ∷ before)

not_true :
    (b : Bool) (events : List Event)
    → b ≢ true
    → compared_msg2 b ∷ events ≡ compared_msg2 false ∷ events
not_true true events h = absurd (h refl)
not_true false events h = refl

-- What the comparison adds to the events, whatever the handler of message 1 gives.
module _ {lib : Libcrypto} (sample : Sample) where
  abbrev noted : Outcome (ℤ × Option (Response Msg2)) × Sp lib → App lib → List Event
  noted answer s =
      let (o, t) = hand_over msg2 answer in
      (go_on (exit_of o, record s { sp = t }) (note_msg2 sample)).1.events

  noted-Unmatched :
      (answer : Outcome (ℤ × Option (Response Msg2)) × Sp lib) (s : App lib)
      → ((r : Response Msg2)
          → answer.0 ≡ returned (pos 0, some r)
          → is_msg2_sample sample (msg2 r) ≢ true)
      → Unmatched (noted answer s) s.events
  noted-Unmatched (returned (n, none), t) s h = inl refl
  noted-Unmatched (returned (pos zero, some r), t) s h =
      inr (not_true (is_msg2_sample sample (msg2 r)) s.events (h r refl))
  noted-Unmatched (returned (pos (suc n), some r), t) s h = inl (ground arith)
  noted-Unmatched (returned (negsuc n, some r), t) s h = inl refl
  noted-Unmatched (aborted, t) s h = inl refl
  noted-Unmatched (exited n, t) s h = inl refl
  noted-Unmatched (waiting, t) s h = inl refl
  noted-Unmatched (crashed, t) s h = inl refl

  module _ (sizes : Sizes lib) where
    -- With SUPPLIED_KEY_DERIVATION the comparison of message 2 never finds a match: for
    -- precomputed messages of the sizes and with the fields of those in the source, a provider
    -- in any state that requests can lead to, with an SPID of 16 bytes, and a library that
    -- writes what its header declares, sending the precomputed message 1 adds nothing to the
    -- events, or a comparison that has failed.
    pub verify_msg1-Unmatched :
        {w : lib.World} (s : App lib)
        → Matching sample
        → Reach true w s.sp
        → length s.sp.g_spid ≡ 16
        → Unmatched (verify_msg1 true sample s).1.events s.events
    unfolding verify_msg1 send ra_network_send_receive
    verify_msg1-Unmatched s m reached p =
        noted-Unmatched (sp_ra_proc_msg1_req true (some sample.msg1) s.sp) s λ r h.
          let v = Reach-Sized sizes true reached in
          let (g, c) = Reach_registered true _ reached in
          let (b, spid, kdf_id) = msg1_answer_fields sizes sample.msg1 s.sp r m.msg1_sized v g h in
          is_msg2_sample_false sample r m b (ap length spid ∙ p) kdf_id
