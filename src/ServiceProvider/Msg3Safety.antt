-- ===== src/ServiceProvider/Msg3Safety.antt =====
-- Message 3, the invariant, and crashes.
use sgx_erlang_extension.Prelude.{
  ℕ, ◌≡◌, refl, ◌<◌, Option, none, some, Bool, true, false, not, List, ℤ, length, arith,
  if◌then◌else◌, ltb,
}
use sgx_erlang_extension.Process.{Outcome, returned, crashed}
use sgx_erlang_extension.ServiceProvider.Libcrypto.{Libcrypto}
use sgx_erlang_extension.ServiceProvider.Steps.{
  Steps, Result, ok, fail, crash, finish, go_on, ◌>>=◌, ◌>>◌,
}
use sgx_erlang_extension.ServiceProvider.Ias.{AttReport}
use sgx_erlang_extension.ServiceProvider.State.{Sp, ias_group}
use sgx_erlang_extension.ServiceProvider.Msg3.{
  report_data, check_msg3, check_report_data, compare_report_data, verify_quote, check_quote,
  make_result, msg3_quote, sp_ra_proc_msg3_req,
}
use sgx_erlang_extension.ServiceProvider.Keeps.{is_crash}
use sgx_erlang_extension.ServiceProvider.Invariant.{Inv, ias_verify_attestation_evidence-contexts}

module _ {lib : Libcrypto} where
  -- How the steps of message 3 leave the invariant, and when they crash: only on a quote that ends
  -- before its report data.
  abbrev Crashes : Bool → {A : Type 0} → Result A × Sp lib → Type 0
  Crashes short (r, t) = Inv t × (is_crash r ≡ true → short ≡ true)

  check_msg3-Inv : (msg3 : List ℕ) (s : Sp lib) → Inv s → Crashes false (check_msg3 msg3 s)
  unfolding check_msg3
  check_msg3-Inv msg3 s v = ground arith

  check_msg3_group :
      (msg3 : List ℕ) (s : Sp lib)
      → ((check_msg3 msg3 s).1.group ≡ s.group)
        × ((check_msg3 msg3 s).1.g_is_sp_registered ≡ s.g_is_sp_registered)
  unfolding check_msg3
  check_msg3_group msg3 s = ground arith

  report_data-Inv :
      (s : Sp lib) → Inv s → Crashes false (report_data s) × ((report_data s).1.group ≡ s.group)
  unfolding report_data
  report_data-Inv s v = ground arith

  check_quote-Inv :
      (quote : List ℕ) (s : Sp lib)
      → Inv s
      → s.group ≡ some (ias_group lib)
      → Crashes (ltb (length quote) 432) (check_quote quote s)
  unfolding check_quote check_report_data compare_report_data verify_quote
  check_quote-Inv quote s v g = ground (
    arith,
    report_data-Inv s v,
    ias_verify_attestation_evidence-contexts quote (report_data s).1.library,
  )

  make_result-Inv : (report : AttReport) (s : Sp lib) → Inv s → Crashes false (make_result report s)
  unfolding make_result
  make_result-Inv report s v = ground arith

  -- The steps after a first one that returns.
  then-Crashes :
      {A B : Type 0} (short : Bool) (r : Result A × Sp lib) (f : A → Steps (Sp lib) B)
      → Crashes short r
      → ((a : A) (t : Sp lib) → r ≡ (ok a, t) → Inv t → Crashes short (f a t))
      → Crashes short (go_on r f)
  then-Crashes short (ok a, t) f c h = h a t refl c.0
  then-Crashes short (fail n, t) f c h = c
  then-Crashes short (crash, t) f c h = c

  quote_steps-Inv :
      (quote : List ℕ) (s : Sp lib)
      → Inv s
      → s.group ≡ some (ias_group lib)
      → Crashes (ltb (length quote) 432) ((check_quote quote >>= make_result) s)
  quote_steps-Inv quote s v g =
      then-Crashes (ltb (length quote) 432) (check_quote quote s) make_result
        (check_quote-Inv quote s v g) λ report t e u. ground (arith, make_result-Inv report t u)

  msg3_steps-Inv :
      (msg3 : List ℕ) (s : Sp lib)
      → Inv s
      → s.group ≡ some (ias_group lib)
      → Crashes
          (ltb (length (msg3_quote msg3)) 432)
          ((check_msg3 msg3 >> (check_quote (msg3_quote msg3) >>= make_result)) s)
  msg3_steps-Inv msg3 s v g =
      then-Crashes (ltb (length (msg3_quote msg3)) 432) (check_msg3 msg3 s)
        (λ _. check_quote (msg3_quote msg3) >>= make_result)
        (ground (arith, check_msg3-Inv msg3 s v))
        λ a t e u. quote_steps-Inv (msg3_quote msg3) t u (ground (arith, check_msg3_group msg3 s))

  -- What is asked of a handler that may crash on a short quote.
  abbrev pub Safe : {A : Type 0} → ℕ → Outcome (ℤ × Option A) × Sp lib → Type 0
  Safe short r = Inv r.1 × (r.0 ≡ crashed → short < 432)

  finish-Safe :
      {A : Type 0} {short : ℕ} (r : Result A × Sp lib)
      → Crashes (ltb short 432) r
      → Safe short (finish r)
  finish-Safe (ok a, t) c = (c.0, λ h. cc)
  finish-Safe (fail n, t) c = (c.0, λ h. cc)
  finish-Safe (crash, t) c = (c.0, λ h. ground arith)

  -- Two guards before the steps.
  guarded-Safe :
      {A : Type 0} (short : ℕ) (a b : Bool) (n m : ℤ) (s : Sp lib)
      (r : Outcome (ℤ × Option A) × Sp lib)
      → Inv s
      → (b ≡ true → Safe short r)
      → Safe short
          (if a then (returned (n, none), s) else if not b then (returned (m, none), s) else r)
  guarded-Safe short true b n m s r v h = (v, λ h. cc)
  guarded-Safe short false true n m s r v h = h refl
  guarded-Safe short false false n m s r v h = (v, λ h. cc)

  pub msg3-Safe :
      (msg3 : List ℕ) (s : Sp lib)
      → Inv s
      → Safe (length (msg3_quote msg3)) (sp_ra_proc_msg3_req (some msg3) s)
  unfolding sp_ra_proc_msg3_req
  msg3-Safe msg3 s v =
      guarded-Safe (length (msg3_quote msg3)) _ s.g_is_sp_registered _ _ s _ v
        λ r. finish-Safe _ (msg3_steps-Inv msg3 s v (v.grouped r))
