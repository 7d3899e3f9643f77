-- ===== src/IsvApp/Indices.antt =====
-- Which precomputed messages a verification index chooses.
use sgx_erlang_extension.Prelude.{
  ℕ, zero, suc, ◌≡◌, ◌↔◌, refl, sym, some, true, [], ◌∷◌, ◌++◌, ℤ, pos, negsuc, ltb, ◌^◌, ◌-◌,
  Bool-cases, inl, inr, length, take, drop, arith,
}
use mathlib.Core.Option.{some-injective}
use sgx_erlang_extension.ServiceProvider.Ias.{le32}
use sgx_erlang_extension.IsvApp.Samples.{
  Sample, get_elem?, verification_index_is_valid, array_index, sample_at, msg1_sample1,
  msg2_sample1, msg3_sample1, attestation_msg_sample1, msg1_sample2, msg2_sample2, msg3_sample2,
  attestation_msg_sample2,
}

-- The messages have the sizes that they are copied and compared with; the header of message 2 has the
-- type 2, the size of the rest, and zeros, and message 2 the function 1; and message 3 has the g_a of message 1.
pub record Matching (sample : Sample) : Type 0 where
  pub msg1_sized : length sample.msg1 ≡ 68
  pub msg2_sized : length sample.msg2 ≡ 176
  pub msg3_sized : length sample.msg3 ≡ 1452
  pub attestation_sized : length sample.attestation ≡ 145
  pub msg2_header : take 8 sample.msg2 ≡ (2 ∷ 0 ∷ 0 ∷ []) ++ le32 168 ++ (0 ∷ [])
  pub msg2_kdf_id : get_elem? sample.msg2 90 ≡ some 1
  pub same_g_a : take 64 (drop 16 sample.msg3) ≡ take 64 sample.msg1

abbrev pub first_sample : Sample
first_sample = record {
  msg1 = msg1_sample1;
  msg2 = msg2_sample1;
  msg3 = msg3_sample1;
  attestation = attestation_msg_sample1;
}

pub first_sample-Matching : Matching first_sample
unfolding msg1_sample1 msg2_sample1 msg3_sample1 attestation_msg_sample1
first_sample-Matching = record {
  msg1_sized = refl;
  msg2_sized = refl;
  msg3_sized = refl;
  attestation_sized = refl;
  msg2_header = refl;
  msg2_kdf_id = refl;
  same_g_a = refl;
}

abbrev second_sample : Sample
second_sample = record {
  msg1 = msg1_sample2;
  msg2 = msg2_sample2;
  msg3 = msg3_sample2;
  attestation = attestation_msg_sample2;
}

second_sample-Matching : Matching second_sample
unfolding msg1_sample2 msg2_sample2 msg3_sample2 attestation_msg_sample2
second_sample-Matching = record {
  msg1_sized = refl;
  msg2_sized = refl;
  msg3_sized = refl;
  attestation_sized = refl;
  msg2_header = refl;
  msg2_kdf_id = refl;
  same_g_a = refl;
}

no_elem : (n : ℕ) (sample : Sample) → sample_at (array_index (negsuc n)) ≡ some sample → ⊥
unfolding sample_at
no_elem n sample e = elim (Bool-cases (ltb n (2 ^ 31 - 1))) [
  | inl h ↦ ground (arith, h, e)
  | inr h ↦ ground (arith, h, e)
]

-- A verification index, positive or not, is valid exactly if the array index computed from it
-- lies inside all four arrays. The messages there have the sizes with which they are copied and
-- compared, message 2 has the header of a response with 168 bytes, and message 3 has the g_a of
-- message 1.
pub sample_at-Matching :
    (index : ℤ)
    → ((verification_index_is_valid index ≡ true)
        ↔ ((sample : Sample) × (sample_at (array_index index) ≡ some sample)))
      × ((sample : Sample) → sample_at (array_index index) ≡ some sample → Matching sample)
unfolding verification_index_is_valid sample_at
sample_at-Matching (negsuc n) =
    ((λ h. absurd cc, λ (a, e). absurd (no_elem n a e)), λ a e. absurd (no_elem n a e))
sample_at-Matching (pos zero) = ((λ h. absurd cc, λ (a, e). absurd cc), λ a e. absurd cc)
sample_at-Matching (pos (suc zero)) = (
  (λ h. (first_sample, refl), λ h. refl),
  λ a e. rw (sym (some-injective _ _ e)) first_sample-Matching,
)
sample_at-Matching (pos (suc (suc zero))) = (
  (λ h. (second_sample, refl), λ h. refl),
  λ a e. rw (sym (some-injective _ _ e)) second_sample-Matching,
)
sample_at-Matching (pos (suc (suc (suc n)))) =
    ((λ h. absurd (ground arith), λ (a, e). absurd cc), λ a e. absurd cc)
