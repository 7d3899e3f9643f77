-- ===== src/CNode/Atoms.antt =====
-- Which atoms the C node takes for its two commands. Both tests are `strncmp` over the length of
-- the command's own name.
use sgx_erlang_extension.Prelude.{
  ℕ, ◌≡◌, true, false, List, ◌∷◌, ◌++◌, codes, drop, strncmp_zero, strncmp_zero-prefix,
  prefix-strncmp_zero, if◌then◌else◌, ◌↔◌, ◌≢◌, arith, [], sym, ◌∙◌, Bool-cases, inl, inr,
}
use mathlib.Core.Bool.{false≢true}
use sgx_erlang_extension.CNode.{is_increment, is_return}

pub data Command : Type 0 where
  increment return_a unknown : Command

unfoldable pub command_of : List ℕ → Command
command_of name =
    if is_increment name then increment else if is_return name then return_a else unknown

-- The atoms that stand for a command: all that begin with its name.
abbrev pub Names : Command → List ℕ → Type 0
Names increment name = (rest : List ℕ) × (name ≡ codes "increment" ++ rest)
Names return_a name = (rest : List ℕ) × (name ≡ codes "return" ++ rest)
Names unknown name =
    ((rest : List ℕ) → name ≢ codes "increment" ++ rest)
    × ((rest : List ℕ) → name ≢ codes "return" ++ rest)

-- An atom cannot begin with both names, so the two `if`s of the enclave's version and the chain of
-- the other one test the same.
pub increment-not-return : (name : List ℕ) → is_increment name ≡ true → is_return name ≡ false
unfolding strncmp_zero
increment-not-return [] h = cc
increment-not-return (c ∷ name) h = ground arith

increment_iff : (name : List ℕ) → (is_increment name ≡ true) ↔ Names increment name
increment_iff name = (
  λ h. (drop 9 name, strncmp_zero-prefix name (codes "increment") h),
  λ (rest, e). rw e (prefix-strncmp_zero (codes "increment") rest),
)

return_iff : (name : List ℕ) → (is_return name ≡ true) ↔ Names return_a name
return_iff name = (
  λ h. (drop 6 name, strncmp_zero-prefix name (codes "return") h),
  λ (rest, e). rw e (prefix-strncmp_zero (codes "return") rest),
)

not-Names :
    (name : List ℕ) → is_increment name ≡ false → is_return name ≡ false → Names unknown name
not-Names name i r = (
  λ rest e. false≢true (sym i ∙ (increment_iff name).1 (rest, e)),
  λ rest e. false≢true (sym r ∙ (return_iff name).1 (rest, e)),
)

-- The command taken from an atom is the one whose name begins it, whatever follows the name, and
-- `unknown` where the atom begins with neither name.
pub command_of-Names : (name : List ℕ) → Names (command_of name) name
unfolding command_of
command_of-Names name = elim (Bool-cases (is_increment name)) [
  | inl i ↦ rw i ((increment_iff name).0 i)
  | inr i ↦ elim (Bool-cases (is_return name)) [
    | inl r ↦ rw (i, r) ((return_iff name).0 r)
    | inr r ↦ rw (i, r) (not-Names name i r)
  ]
]
