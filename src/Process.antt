-- ===== src/Process.antt =====
-- How a C function of the untrusted application ends, and the monad of such functions over a state.
use sgx_erlang_extension.Prelude.{ℕ, ◌≡◌, ap, Option, none, some}

-- `returned` is a normal return; `aborted` is `abort()`; `exited` is `exit(n)`; `waiting` is a call
-- that blocks since the peer sends nothing more; `crashed` is undefined behaviour that the model
-- does not follow: a null or dangling pointer, or an access past the end of a buffer.
pub data Outcome {ℓ} (A : Type ℓ) : Type ℓ where
  returned : A → Outcome A
  aborted : Outcome A
  exited : ℕ → Outcome A
  waiting : Outcome A
  crashed : Outcome A

abbrev pub Run : Type 0 → Type 0 → Type 0
Run S A = S → Outcome A × S

module _ {S : Type 0} where
  abbrev pub pure : {A : Type 0} → A → Run S A
  pure a s = (returned a, s)

  abbrev pub stop : {A : Type 0} → Outcome A → Run S A
  stop o s = (o, s)

  abbrev pub gets : {A : Type 0} → (S → A) → Run S A
  gets f s = (returned (f s), s)

  abbrev pub modify : (S → S) → Run S (Unit {0})
  modify f s = (returned tt, f s)

  -- A pointer that is used must not be NULL.
  abbrev pub deref : {A : Type 0} → Option A → Run S A
  deref none s = (crashed, s)
  deref (some a) s = (returned a, s)

-- What follows a call goes on from its value if it returned, and is passed over if not.
abbrev pub follow : {S A B : Type 0} → Outcome A × S → (A → Run S B) → Outcome B × S
follow (o, s) f = elim o [
  | returned a ↦ f a s
  | aborted ↦ (aborted, s)
  | exited n ↦ (exited n, s)
  | waiting ↦ (waiting, s)
  | crashed ↦ (crashed, s)
]

infixl 5 ◌>>=◌ ◌>>◌
abbrev pub ◌>>=◌ : {S A B : Type 0} → Run S A → (A → Run S B) → Run S B
◌>>=◌ m f s = follow (m s) f

abbrev pub ◌>>◌ : {S A B : Type 0} → Run S A → Run S B → Run S B
m >> k = m >>= λ _. k

-- A step that returns hands over its value and its state.
pub >>=-returned :
    {S A B : Type 0} (m : Run S A) (f : A → Run S B) (s : S) {a : A} {t : S}
    → m s ≡ (returned a, t)
    → (m >>= f) s ≡ f a t
>>=-returned m f s h = ap (λ r. follow r f) h

pub >>-returned :
    {S A B : Type 0} (m : Run S A) (k : Run S B) (s : S) {a : A} {t : S}
    → m s ≡ (returned a, t)
    → (m >> k) s ≡ k t
>>-returned m k s h = >>=-returned m (λ _. k) s h
