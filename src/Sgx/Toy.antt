-- ===== src/Sgx/Toy.antt =====
-- A runtime that numbers its enclaves, for concrete runs.
use sgx_erlang_extension.Prelude.{
  ℕ, ◌+◌, ◌≡◌, ◌≢◌, refl, Bool, true, false, ◌&&◌, ◌||◌, not, ◌==◌, ltb, arith,
}
use sgx_erlang_extension.Sgx.Codes.{Status, success, eq_status}
use sgx_erlang_extension.Sgx.Sdk.{Sdk}

-- The next identifier, and which of the earlier ones are live.
pub record Enclaves : Type 0 where
  pub next : ℕ
  pub kept : ℕ → Bool

unfoldable pub is_live : Enclaves → ℕ → Bool
is_live w i = ltb i w.next && w.kept i

unfoldable pub create_enclave : Enclaves → (Status × ℕ) × Enclaves
create_enclave w =
    ((success, w.next), record { next = w.next + 1; kept = λ i. i == w.next || w.kept i })

unfoldable pub destroy_enclave : ℕ → Enclaves → Enclaves
destroy_enclave i w = record w { kept = λ j. not (j == i) && w.kept j }

pub created_live : (w : Enclaves) → is_live (create_enclave w).1 (create_enclave w).0.1 ≡ true
unfolding is_live create_enclave
created_live w = ground arith

pub created_fresh : (w : Enclaves) → is_live w (create_enclave w).0.1 ≡ false
unfolding is_live create_enclave
created_fresh w = ground arith

pub created_success : (w : Enclaves) → eq_status (create_enclave w).0.0 success ≡ true
unfolding create_enclave
created_success w = refl

pub created_others :
    (w : Enclaves) (i : ℕ)
    → i ≢ (create_enclave w).0.1
    → is_live (create_enclave w).1 i ≡ is_live w i
unfolding is_live create_enclave
created_others w i h = ground arith

pub destroyed_gone : (w : Enclaves) (i : ℕ) → is_live (destroy_enclave i w) i ≡ false
unfolding is_live destroy_enclave
destroyed_gone w i = ground arith

pub destroyed_others :
    (w : Enclaves) (i j : ℕ) → j ≢ i → is_live (destroy_enclave i w) j ≡ is_live w j
unfolding is_live destroy_enclave
destroyed_others w i j h = ground arith

pub created_failed :
    (w : Enclaves) (i : ℕ)
    → eq_status (create_enclave w).0.0 success ≡ false
    → is_live (create_enclave w).1 i ≡ is_live w i
created_failed w i h = ground (arith, created_success w)

abbrev pub sdk : Sdk
sdk = record {
  World = Enclaves;
  create_enclave = create_enclave;
  destroy_enclave = destroy_enclave;
  is_live = is_live;
  create_live = λ w h. created_live w;
  create_fresh = λ w h. created_fresh w;
  create_failed = created_failed;
  create_others = created_others;
  destroy_gone = destroyed_gone;
  destroy_others = destroyed_others;
}
