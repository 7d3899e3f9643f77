-- ===== src/ServiceProvider/Sizes/Msg3.antt =====
-- The sizes of the arrays through message 3.
use sgx_erlang_extension.Prelude.{
  ℕ, ◌≤◌, ◌≡◌, Option, none, some, false, not, List, length, drop, length-take, length-drop, ltb,
  tests, bytes_eq, arith,
}
use sgx_erlang_extension.ServiceProvider.Libcrypto.{Libcrypto}
use sgx_erlang_extension.ServiceProvider.Steps.{Steps, fail_if, require, ◌>>=◌, ◌>>◌}
use sgx_erlang_extension.ServiceProvider.Ias.{AttReport}
use sgx_erlang_extension.ServiceProvider.State.{
  Sp, SpDbItem, Response, change_db, sp_internal_error, sp_integrity_failed, sp_protocol_error,
}
use sgx_erlang_extension.ServiceProvider.Msg3.{
  AttResult, msg3_mac, msg3_g_a, report_data, check_msg3, check_report_data, compare_report_data,
  verify_quote, check_quote, make_result, msg3_quote, msg3_ps_sec_prop, sp_ra_proc_msg3_req,
}
use sgx_erlang_extension.ServiceProvider.Sizes.{Sized, finish-Sized, if-Sized, then-Sized}

long_enough : (n : ℕ) → ltb n 336 ≡ false → 336 ≤ n
long_enough n h = ground arith

prop_sized : (msg3 : List ℕ) → ltb (length msg3) 336 ≡ false → length (msg3_ps_sec_prop msg3) ≡ 256
prop_sized msg3 h =
    omega (tests, length-take 256 (drop 80 msg3), length-drop 80 msg3, long_enough (length msg3))

storing-Sized :
    (p : List ℕ) (db : SpDbItem) → length p ≡ 256 → Sized db → Sized (record db { ps_sec_prop = p })
storing-Sized p db l v = record {
  g_a_sized = v.g_a_sized;
  g_b_sized = v.g_b_sized;
  vk_key_sized = v.vk_key_sized;
  mk_key_sized = v.mk_key_sized;
  sk_key_sized = v.sk_key_sized;
  smk_key_sized = v.smk_key_sized;
  b_sized = v.b_sized;
  ps_sec_prop_sized = l;
}

module _ {lib : Libcrypto} where
  report_data-Sized : (s : Sp lib) → Sized s.g_sp_db → Sized (report_data s).1.g_sp_db
  unfolding report_data
  report_data-Sized s v = ground arith

  make_result-Sized :
      (report : AttReport) (s : Sp lib) → Sized s.g_sp_db → Sized (make_result report s).1.g_sp_db
  unfolding make_result
  make_result-Sized report s v = ground arith

  verify_quote-Sized :
      (quote : List ℕ) (s : Sp lib) → Sized s.g_sp_db → Sized (verify_quote quote s).1.g_sp_db
  unfolding verify_quote
  verify_quote-Sized quote s v = ground arith

  compare-Sized :
      (quote expected : List ℕ) (s : Sp lib)
      → Sized s.g_sp_db
      → Sized (compare_report_data quote expected s).1.g_sp_db
  unfolding compare_report_data
  compare-Sized quote expected s v = ground arith

  -- The steps of the check once g_a has been compared, and once the MAC has been computed.
  abbrev storing : List ℕ → List ℕ → Steps (Sp lib) (Unit {0})
  storing msg3 mac =
      fail_if (not (bytes_eq (msg3_mac msg3) mac)) sp_integrity_failed
      >> change_db (λ d. record d { ps_sec_prop = msg3_ps_sec_prop msg3 })

  abbrev authenticating : List ℕ → SpDbItem → Steps (Sp lib) (Unit {0})
  authenticating msg3 db =
      require (lib.cmac db.smk_key (drop 16 msg3)) sp_internal_error >>= storing msg3

  check_msg3-Sized :
      (msg3 : List ℕ) (s : Sp lib)
      → length (msg3_ps_sec_prop msg3) ≡ 256
      → Sized s.g_sp_db
      → Sized (check_msg3 msg3 s).1.g_sp_db
  unfolding check_msg3
  check_msg3-Sized msg3 s l v =
      let db = s.g_sp_db in
      then-Sized (fail_if (not (bytes_eq db.g_a (msg3_g_a msg3))) sp_protocol_error s)
        (λ _. authenticating msg3 db) v
        λ _ s v.
          then-Sized (require (lib.cmac db.smk_key (drop 16 msg3)) sp_internal_error s)
            (storing msg3) v
            λ mac s v.
              then-Sized (fail_if (not (bytes_eq (msg3_mac msg3) mac)) sp_integrity_failed s)
                (λ _. change_db (λ d. record d { ps_sec_prop = msg3_ps_sec_prop msg3 })) v
                λ _ s v. storing-Sized (msg3_ps_sec_prop msg3) s.g_sp_db l v

  check_quote-Sized :
      (quote : List ℕ) (s : Sp lib) → Sized s.g_sp_db → Sized (check_quote quote s).1.g_sp_db
  unfolding check_quote check_report_data
  check_quote-Sized quote s v =
      then-Sized (check_report_data quote s) (λ _. verify_quote quote)
        (then-Sized (report_data s) (compare_report_data quote) (report_data-Sized s v)
          (compare-Sized quote))
        λ _. verify_quote-Sized quote

  -- The steps of message 3 once its size has been checked.
  abbrev steps : List ℕ → Steps (Sp lib) (Response AttResult)
  steps msg3 = check_msg3 msg3 >>= λ _. check_quote (msg3_quote msg3) >>= make_result

  pub msg3-Sized :
      (msg3 : Option (List ℕ)) (s : Sp lib)
      → Sized s.g_sp_db
      → Sized (sp_ra_proc_msg3_req msg3 s).1.g_sp_db
  unfolding sp_ra_proc_msg3_req
  msg3-Sized none s v = v
  msg3-Sized (some msg3) s v =
      if-Sized (ltb (length msg3) 336) _ _ (λ _. v)
        λ e.
          if-Sized (not s.g_is_sp_registered) _ _ (λ _. v)
            λ _. finish-Sized (steps msg3 s) (
              then-Sized (check_msg3 msg3 s) (λ _. check_quote (msg3_quote msg3) >>= make_result)
                (check_msg3-Sized msg3 s (prop_sized msg3 e) v)
                λ _ s v.
                  then-Sized (check_quote (msg3_quote msg3) s) make_result
                    (check_quote-Sized (msg3_quote msg3) s v) make_result-Sized)
