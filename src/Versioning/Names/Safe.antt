-- ===== src/Versioning/Names/Safe.antt =====
-- What the patterns keep out: the characters that would leave a folder or reach a shell.
use Prim.Native.Char.{Char, code}
use Prim.Native.String as Text
use text.Mathlib.TextBridge.{of_list}
use deltix_server.Common.{
  ℕ, ◌≡◌, ◌≤◌, refl, ap, Bool, true, false, not, ◌&&◌, ◌||◌, String, List, [], ◌∷◌, ◌==◌, ltb,
  string_eq, nat_eq, length, contains, eq_iff, arith, All, All-of_all, map, Bool-cases, inl, inr,
}
use deltix_server.Versioning.Names.{
  codes, to_list, drop_spaces, reverse_onto, trim, valid_repo_id, valid_branch, is_branch,
  is_id_char, is_letter, is_digit, has_dots, first_is, last_is, invalid_branch, spaces,
}

-- Letters, digits, the dash and the underscore: no slash, dot, blank, quote or other sign.
abbrev pub Plain : ℕ → Type 0
Plain c = ((c == 45) || (c == 95) || is_digit c || is_letter c) ≡ true

plain_not_space : (c : ℕ) → (is_id_char c || c == 46 || c == 47) ≡ true → contains spaces c ≡ false
plain_not_space c h = ground (arith, h)

drop_none :
    (cs : List Char) → All (λ c. contains spaces c ≡ false) (map code cs) → drop_spaces cs ≡ cs
drop_none [] h = refl
drop_none (c ∷ cs) h = rw (h.0, drop_spaces) refl

branch_chars : (cs : List ℕ) → is_branch cs ≡ true → All (λ c. contains spaces c ≡ false) cs
branch_chars [] h = tt
branch_chars (c ∷ cs) h = (
  plain_not_space c (ground (arith, h)),
  All-of_all _ (λ d. is_id_char d || d == 46 || d == 47) plain_not_space cs (ground (arith, h)),
)

reverse_onto-Spaceless :
    (cs ds : List Char)
    → All (λ c. contains spaces c ≡ false) (map code cs)
    → All (λ c. contains spaces c ≡ false) (map code ds)
    → All (λ c. contains spaces c ≡ false) (map code (reverse_onto cs ds))
reverse_onto-Spaceless [] ds h k = k
reverse_onto-Spaceless (c ∷ cs) ds h k = reverse_onto-Spaceless cs (c ∷ ds) h.1 (h.0, k)

reverse_twice : (cs ds : List Char) → reverse_onto (reverse_onto cs ds) [] ≡ reverse_onto ds cs
reverse_twice [] ds = refl
reverse_twice (c ∷ cs) ds = reverse_twice cs (c ∷ ds)

of_list-to_list : (s : String) → of_list (to_list s) ≡ s
of_list-to_list Text.[] = refl
of_list-to_list (Text.◌∷◌ c s) = ap (λ t. Text.◌∷◌ c t) (of_list-to_list s)

trim_none : (s : String) → All (λ c. contains spaces c ≡ false) (codes s) → trim s ≡ s
unfolding trim codes
trim_none s h =
    let back = reverse_onto-Spaceless (to_list s) [] h tt in
    rw
      (
        drop_none (to_list s) h,
        drop_none (reverse_onto (to_list s) []) back,
        reverse_twice (to_list s) [],
      )
      (of_list-to_list s)

not_slash_first : (cs : List ℕ) → is_branch cs ≡ true → first_is 47 cs ≡ false
not_slash_first [] h = refl
not_slash_first (c ∷ cs) h = ground (arith, h)

codes-empty : (s : String) → (s == "") ≡ true → is_branch (codes s) ≡ false
unfolding codes
codes-empty s h = let e = (eq_iff s "").0 h in rw e refl

-- The test of a branch name asks no more than the pattern, no two dots in a row and no slash at the
-- end: the tests for blanks at the ends, for an empty name and for a slash at the front decide
-- nothing.
pub invalid_branch-eq :
    (name : String)
    → invalid_branch name
      ≡ not (valid_branch name && not (has_dots (codes name)) && not (last_is 47 (codes name)))
unfolding invalid_branch valid_branch
invalid_branch-eq name = elim (Bool-cases (is_branch (codes name))) [
  | inl valid ↦ ground (
    arith,
    valid,
    trim_none name (branch_chars (codes name) valid),
    ap (λ t. t == name) (trim_none name (branch_chars (codes name) valid)),
    ap (λ t. t == "") (trim_none name (branch_chars (codes name) valid)),
    eq_iff name name,
    not_slash_first (codes name) valid,
    codes-empty name,
  )
  | inr other ↦ ground (arith, other)
]

-- The characters of the pattern for the names of branches.
abbrev pub BranchChar : ℕ → Type 0
BranchChar c = (is_id_char c || c == 46 || c == 47) ≡ true

abbrev pub no_dash : List ℕ → Bool
no_dash [] = false
no_dash (c ∷ cs) = not (c == 45)

branch_kept :
    (cs : List ℕ)
    → is_branch cs ≡ true
    → All BranchChar cs × (no_dash cs ≡ true) × (length cs ≤ 128)
branch_kept [] h = cc
branch_kept (c ∷ cs) h = (
  (
    ground (arith, h),
    All-of_all BranchChar (λ d. is_id_char d || d == 46 || d == 47) (λ d m. m) cs
        (ground (arith, h)),
  ),
  ground (arith, h),
  ground (arith, h),
)

-- A branch name that passes has at most 128 characters, all letters, digits or one of `_ - . /`,
-- and does not begin with a dash, so a command line takes it for no option.
pub valid_branch-BranchChar :
    (name : String)
    → valid_branch name ≡ true
    → All BranchChar (codes name) × (no_dash (codes name) ≡ true) × (length (codes name) ≤ 128)
unfolding valid_branch
valid_branch-BranchChar name h = branch_kept (codes name) h

-- The identifiers of repositories are one path segment: no slash, no backslash, no dot, no colon
-- and no control character.
abbrev pub PathSafe : ℕ → Type 0
PathSafe c = (c == 47 || c == 92 || c == 46 || c == 58 || ltb c 32) ≡ false

pub valid_repo_id-PathSafe :
    (repo_id : String)
    → valid_repo_id repo_id ≡ true
    → All PathSafe (codes repo_id) × (1 ≤ length (codes repo_id)) × (length (codes repo_id) ≤ 64)
unfolding valid_repo_id
valid_repo_id-PathSafe repo_id h = (
  All-of_all PathSafe is_id_char (λ c m. ground (arith, m)) (codes repo_id) (ground (arith, h)),
  ground (arith, h),
  ground (arith, h),
)
