-- ===== src/IsvApp/Retries.antt =====
-- How often the loops of isv_app/isv_app.cpp call.
use sgx_erlang_extension.Prelude.{
  ℕ, zero, suc, ◌+◌, ◌-◌, ◌^◌, ◌≡◌, refl, ap, ◌∙◌, ◌≤◌, ◌<◌, none, some, Bool, true, List, [], ◌∷◌,
  pos, negsuc, length, Bool-cases, inl, inr, arith,
}
use sgx_erlang_extension.Process.{waiting}
use sgx_erlang_extension.Sgx.{Status}
use sgx_erlang_extension.ServiceProvider.Libcrypto.{Libcrypto}
use sgx_erlang_extension.IsvApp.Retry.{retry}
use sgx_erlang_extension.IsvApp.Calls.{App, cleanup, leave, failed}
use sgx_erlang_extension.IsvApp.Round.{is_busy, get_msg1}

-- Each answer makes the loop call again.
abbrev pub All : {A : Type 0} → (A → Bool) → List A → Type 0
All again [] = Unit
All again (a ∷ answers) = (again a ≡ true) × All again answers

module _ {A : Type 0} (again : A → Bool) where
  -- A loop that retries with a counter of n ends with an answer and has used at most n + 1
  -- answers, if it is given more than n of them.
  pub retry_lem :
      (answers : List A) (n : ℕ)
      → n < length answers
      → (a : A) × ((retry again answers (pos n)).0 ≡ some a)
        × (length answers ≤ length (retry again answers (pos n)).1 + n + 1)
  unfolding retry
  retry_lem [] n h = absurd (omega arith)
  retry_lem (a ∷ answers) zero h = elim (Bool-cases (again a)) [
    | inl e ↦ (a, ground arith, ground arith)
    | inr e ↦ (a, ground arith, ground arith)
  ]
  retry_lem (a ∷ answers) (suc n) h =
      let (b, e, l) = retry_lem answers n (omega arith) in
      elim (Bool-cases (again a)) [
        | inl k ↦ (b, ground arith, ground arith)
        | inr k ↦ (a, ground arith, ground arith)
      ]

  retry_below :
      (a : A) (answers : List A) (n : ℕ)
      → again a ≡ true
      → n < 2 ^ 31 - 1
      → retry again (a ∷ answers) (negsuc n) ≡ retry again answers (negsuc (n + 1))
  unfolding retry
  retry_below a answers n h k = ground arith

  -- A counter below 0 is not found to be 0 before it passes INT_MIN.
  pub retry_negative :
      (answers : List A) (n : ℕ)
      → All again answers
      → n + length answers < 2 ^ 31
      → (retry again answers (negsuc n)).0 ≡ none
  unfolding retry
  retry_negative [] n h k = refl
  retry_negative (a ∷ answers) n h k =
      rw (retry_below a answers n h.0 (omega arith))
        (retry_negative answers (n + 1) h.1 (omega arith))

  retry_again :
      (a : A) (answers : List A) (n : ℕ)
      → again a ≡ true
      → retry again (a ∷ answers) (pos (suc n)) ≡ retry again answers (pos n)
  unfolding retry
  retry_again a answers n h = ground arith

  -- A loop whose answers all make it call again uses up its counter.
  retry_exhausted :
      (answers : List A) (n : ℕ)
      → All again answers
      → n < length answers
      → let tried = retry again answers (pos n) in
        (a : A) × (tried.0 ≡ some a)
        × (again a ≡ true)
        × All again tried.1
        × (tried.2 ≡ negsuc 0)
        × (length tried.1 + n + 1 ≡ length answers)
  unfolding retry
  retry_exhausted [] n v h = absurd (omega arith)
  retry_exhausted (a ∷ answers) zero v h = rw v.0 (a, refl, v.0, v.1, refl, omega arith)
  retry_exhausted (a ∷ answers) (suc n) v h = rw (retry_again a answers n v.0) (
      let (b, e, x, w, k, l) = retry_exhausted answers n v.1 (omega arith) in
      (b, e, x, w, k, omega arith))

abbrev pub asks_again : Status × List ℕ → Bool
asks_again answer = is_busy answer.0

module _ {lib : Libcrypto} where
  get_msg1_after :
      (s : App lib) (a : Status × List ℕ)
      → (retry asks_again s.answers.msg1s s.busy_retry_time).0 ≡ some a
      → is_busy a.0 ≡ true
      → (get_msg1 s).0 ≡ cleanup failed
  unfolding get_msg1
  get_msg1_after s a e b = ground arith

  get_msg1_waits :
      (s : App lib)
      → (retry asks_again s.answers.msg1s s.busy_retry_time).0 ≡ none
      → (get_msg1 s).0 ≡ leave waiting
  unfolding get_msg1
  get_msg1_waits s e = ground arith

  get_msg1_state :
      (s : App lib)
      → ((get_msg1 s).1.answers.msg1s ≡ (retry asks_again s.answers.msg1s s.busy_retry_time).1)
        × ((get_msg1 s).1.busy_retry_time ≡ (retry asks_again s.answers.msg1s s.busy_retry_time).2)
  unfolding get_msg1
  get_msg1_state s = ground arith

  -- With a counter of n and more than n answers, all of them SGX_ERROR_BUSY, the loop for
  -- message 1 gives up; and where fewer than 2 ^ 31 further such answers are left, a second run
  -- of it in the state after that takes all of them without giving up: the counter is then below
  -- 0, and so many decrements do not take it past INT_MIN.
  pub get_msg1_busy :
      (s : App lib) (n : ℕ)
      → s.busy_retry_time ≡ pos n
      → All asks_again s.answers.msg1s
      → n < length s.answers.msg1s
      → length s.answers.msg1s ≤ 2 ^ 31 + n
      → ((get_msg1 s).0 ≡ cleanup failed) × ((get_msg1 (get_msg1 s).1).0 ≡ leave waiting)
  get_msg1_busy s n t v h m =
      let (a, e, b, w, k, l) = retry_exhausted asks_again s.answers.msg1s n v h in
      let (x, y) = get_msg1_state s in
      let left = x ∙ ap (λ z. (retry asks_again s.answers.msg1s z).1) t in
      let below = y ∙ ap (λ z. (retry asks_again s.answers.msg1s z).2) t ∙ k in
      (
        get_msg1_after s a (ap (λ z. (retry asks_again s.answers.msg1s z).0) t ∙ e) b,
        get_msg1_waits (get_msg1 s).1
            (rw below (rw left (retry_negative asks_again _ 0 w (omega arith)))),
      )
