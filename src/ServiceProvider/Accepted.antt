-- ===== src/ServiceProvider/Accepted.antt =====
-- Message 3 as a whole, `sp_ra_proc_msg3_req` of service_provider/service_provider.cpp: what it takes
-- for the secret to be handed out.
use sgx_erlang_extension.Prelude.{
  ℕ, ◌≡◌, refl, sym, ◌∙◌, ap, ◌≤◌, ◌↔◌, some, Bool, true, false, List, ℤ, pos, length, ltb, arith,
  if◌then◌else◌,
}
use sgx_erlang_extension.Process.{returned}
use sgx_erlang_extension.ServiceProvider.Libcrypto.{Libcrypto, Hashes}
use sgx_erlang_extension.ServiceProvider.Steps.{Steps, ok, fail, finish, go_on, ◌>>=◌, ◌>>◌}
use sgx_erlang_extension.ServiceProvider.Success.{go_on-ok, finish-ok, guards_passed, guards_open}
use sgx_erlang_extension.ServiceProvider.Ias.{AttReport}
use sgx_erlang_extension.ServiceProvider.State.{Sp, Response, ias_group}
use sgx_erlang_extension.ServiceProvider.Msg3.{
  AttResult, msg3_quote, check_msg3, check_report_data, verify_quote, check_quote, make_result,
  sp_ra_proc_msg3_req,
}
use sgx_erlang_extension.ServiceProvider.Acceptance.{
  bound, Authentic, Bound, noted, counted, hashed, verified, IsAnswer, check_msg3-Authentic,
  Authentic-check_msg3, compare_report_data-Bound, Bound-compare_report_data, check_report_data_lem,
  verify_quote_lem, verified_report, make_result-IsAnswer, IsAnswer-make_result, is_zero→eq,
}

not_short : (n : ℕ) → ltb n 336 ≡ false → 336 ≤ n
not_short n h = ground arith

long_enough : (n : ℕ) → 336 ≤ n → ltb n 336 ≡ false
long_enough n h = ground arith

module _ {lib : Libcrypto} (hashes : Hashes lib) where
  -- The quote is of this session, and the server could make its report on it.
  abbrev IsGood : List ℕ → Sp lib → Type 0
  IsGood quote s = Bound hashes s.g_sp_db quote × ((verified hashes quote s).0.0 ≡ pos 0)

  ok_of_if :
      {A : Type 0} {a : A} (test : Bool) (b : A) (n : ℤ)
      → (if test then ok b else fail n) ≡ ok a
      → (test ≡ true) × (a ≡ b)
  ok_of_if true b n h = (refl, cc)
  ok_of_if false b n h = cc

  -- What a report data check that passes, and a verification that passes, give.
  check_report_data-Bound :
      (quote : List ℕ) (s : Sp lib) (u : Unit {0})
      → (check_report_data quote s).0 ≡ ok u
      → Bound hashes s.g_sp_db quote × (check_report_data quote s ≡ (ok tt, hashed hashes s))
  check_report_data-Bound quote s u h =
      let e = check_report_data_lem hashes quote s in
      let b =
        compare_report_data-Bound hashes quote (bound hashes s.g_sp_db) (hashed hashes s)
          (sym (ap (λ p. p.0) e) ∙ h) in
      (b, e ∙ Bound-compare_report_data hashes quote _ (hashed hashes s) b.0 b.1)

  check_quote-IsGood :
      (quote : List ℕ) (s : Sp lib) (report : AttReport)
      → s.group ≡ some (ias_group lib)
      → (check_quote quote s).0 ≡ ok report
      → IsGood quote s
  unfolding check_quote
  check_quote-IsGood quote s report g h =
      let (u, a, v) = go_on-ok (check_report_data quote s) (λ _. verify_quote quote) h in
      let (b, e) = check_report_data-Bound quote s u a in
      let f =
        sym (ap (λ p. p.0) (verify_quote_lem hashes quote (hashed hashes s) g))
        ∙ sym (ap (λ p. (verify_quote quote p.1).0) e)
        ∙ v in
      (b, is_zero→eq hashes _ (ok_of_if _ _ _ f).0)

  IsGood-check_quote :
      (quote : List ℕ) (s : Sp lib)
      → s.group ≡ some (ias_group lib)
      → IsGood quote s
      → check_quote quote s ≡ (ok (verified hashes quote s).0.1, counted hashes quote s)
  unfolding check_quote
  IsGood-check_quote quote s g h = ground (
    arith,
    check_report_data_lem hashes quote s,
    Bound-compare_report_data hashes quote (bound hashes s.g_sp_db) (hashed hashes s),
    verify_quote_lem hashes quote (hashed hashes s),
  )

  -- What it takes for a response `r` to message 3.
  pub record IsAccepted (msg3 : List ℕ) (s : Sp lib) (r : Response AttResult) : Type 0 where
    pub long : 336 ≤ length msg3
    pub registered : s.g_is_sp_registered ≡ true
    pub authentic : Authentic hashes s.g_sp_db msg3
    pub good : IsGood (msg3_quote msg3) s
    pub answered : IsAnswer hashes s.g_sp_db (verified hashes (msg3_quote msg3) s).0.1.info_blob r

  -- The state after an accepted message.
  abbrev pub accepted : List ℕ → Sp lib → Sp lib
  accepted msg3 s = counted hashes (msg3_quote msg3) (noted hashes msg3 s)

  steps-IsAnswer :
      (quote : List ℕ) (s : Sp lib) (r : Response AttResult)
      → s.group ≡ some (ias_group lib)
      → ((check_quote quote >>= make_result) s).0 ≡ ok r
      → IsGood quote s × IsAnswer hashes s.g_sp_db (verified hashes quote s).0.1.info_blob r
  steps-IsAnswer quote s r g h =
      let (report, a, m) = go_on-ok (check_quote quote s) make_result h in
      let good = check_quote-IsGood quote s report g a in
      let e = IsGood-check_quote quote s g good in
      let (q, p) = verified_report hashes quote s in
      (
        good,
        make_result-IsAnswer hashes (verified hashes quote s).0.1 (counted hashes quote s) r q p
            (sym (ap (λ x. (go_on x make_result).0) e) ∙ h),
      )

  abbrev quote_steps : List ℕ → Steps (Sp lib) (Response AttResult)
  quote_steps msg3 = check_quote (msg3_quote msg3) >>= make_result

  steps-IsAccepted :
      (msg3 : List ℕ) (s : Sp lib) (r : Response AttResult)
      → (s.g_is_sp_registered ≡ true → s.group ≡ some (ias_group lib))
      → (sp_ra_proc_msg3_req (some msg3) s).0 ≡ returned (pos 0, some r)
      → IsAccepted msg3 s r
  unfolding sp_ra_proc_msg3_req
  steps-IsAccepted msg3 s r g h =
      let (l, registered, f) =
        guards_passed (ltb (length msg3) 336) s.g_is_sp_registered _ _ s
          (finish ((check_msg3 msg3 >> quote_steps msg3) s)) h in
      let steps = finish-ok ((check_msg3 msg3 >> quote_steps msg3) s) f in
      let (u, c, rest) = go_on-ok (check_msg3 msg3 s) (λ _. quote_steps msg3) steps in
      let authentic = check_msg3-Authentic hashes msg3 s c in
      let noted_state = Authentic-check_msg3 hashes msg3 s authentic in
      let (good, answered) =
        steps-IsAnswer (msg3_quote msg3) (noted hashes msg3 s) r (g registered)
          (sym (ap (λ x. (go_on x λ _. quote_steps msg3).0) noted_state) ∙ steps) in
      record {
        long = not_short (length msg3) l;
        registered = registered;
        authentic = authentic;
        good = good;
        answered = answered;
      }

  pub sp_ra_proc_msg3_req_lem :
      (msg3 : List ℕ) (s : Sp lib) (r : Response AttResult)
      → s.group ≡ some (ias_group lib)
      → IsAccepted msg3 s r
      → sp_ra_proc_msg3_req (some msg3) s ≡ (returned (pos 0, some r), accepted msg3 s)
  unfolding sp_ra_proc_msg3_req
  sp_ra_proc_msg3_req_lem msg3 s r g v =
      let (q, p) = verified_report hashes (msg3_quote msg3) s in
      let check = Authentic-check_msg3 hashes msg3 s v.authentic in
      let quoted = IsGood-check_quote (msg3_quote msg3) (noted hashes msg3 s) g v.good in
      let made =
        IsAnswer-make_result hashes (verified hashes (msg3_quote msg3) s).0.1 (accepted msg3 s) r q
          p v.answered in
      guards_open (ltb (length msg3) 336) s.g_is_sp_registered _ _ s _
        (long_enough (length msg3) v.long) v.registered
      ∙ ap (λ x. finish (go_on x λ _. quote_steps msg3)) check
      ∙ ap (λ x. finish (go_on x make_result)) quoted
      ∙ ap finish made

  -- Where SHA-256 works as documented and a registered provider has its group, the handler of
  -- message 3 answers 0 and hands out a response exactly if the message has at least 336 bytes,
  -- the provider is registered, g_a is the stored one, the MAC is the CMAC of what follows it
  -- under SMK, the quote reaches to the end of its report data and they are the digest of g_a,
  -- g_b and VK over 32 zeros, the simulated server returns 0, the CMAC of its blob under MK can
  -- be computed, and the encryption returns 0. The response is then that blob, its CMAC, and the
  -- secret encrypted under SK, with both status bytes 0.
  pub sp_ra_proc_msg3_req-IsAccepted :
      (msg3 : List ℕ) (s : Sp lib) (r : Response AttResult)
      → (s.g_is_sp_registered ≡ true → s.group ≡ some (ias_group lib))
      → ((sp_ra_proc_msg3_req (some msg3) s).0 ≡ returned (pos 0, some r)) ↔ IsAccepted msg3 s r
  sp_ra_proc_msg3_req-IsAccepted msg3 s r g = (
    steps-IsAccepted msg3 s r g,
    λ v. ap (λ p. p.0) (sp_ra_proc_msg3_req_lem msg3 s r (g v.registered) v),
  )
