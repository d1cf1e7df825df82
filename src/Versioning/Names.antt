-- ===== src/Versioning/Names.antt =====
-- The regular expressions of contexts/versioning and the string functions around them: `trim`, the
-- order of `sort`, `VALID_REPO_ID`, `VALID_TABLE`, `VALID_BRANCH` and `VALID_COMMIT_HASH`.
pub mod Safe
use Prim.Native.Char.{Char, code}
use Prim.Native.String as Text
use Prim.Native.Nat.{◌/◌, ◌%◌}
use text.Mathlib.TextBridge.{of_list}
use deltix_server.Common.{
  ℕ, zero, suc, ◌-◌, ◌+◌, ◌≡◌, refl, Bool, true, false, not, ◌&&◌, ◌||◌, String, List, [], ◌∷◌,
  ◌++◌, ◌==◌, ltb, leb, if◌then◌else◌, string_eq, nat_eq, length, all, contains, contains-append,
  eq_iff, arith, All, map,
}

abbrev pub to_list : String → List Char
to_list Text.[] = []
to_list (Text.◌∷◌ c s) = c ∷ to_list s

-- A string as its characters' numbers.
unfoldable pub codes : String → List ℕ
codes s = map code (to_list s)

abbrev pub spaces : List ℕ
spaces =
    9 ∷ 10 ∷ 11 ∷ 12 ∷ 13 ∷ 32 ∷ 160 ∷ 5760 ∷ 8192 ∷ 8193 ∷ 8194 ∷ 8195 ∷ 8196 ∷ 8197 ∷ 8198 ∷ 8199
    ∷ 8200 ∷ 8201 ∷ 8202 ∷ 8232 ∷ 8233 ∷ 8239 ∷ 8287 ∷ 12288 ∷ 65279 ∷ []

-- What `trim` removes: white space and line terminators.
abbrev pub is_space : Char → Bool
is_space c = contains spaces (code c)

abbrev pub drop_spaces : List Char → List Char
drop_spaces [] = []
drop_spaces (c ∷ cs) = elim (is_space c) [ true ↦ drop_spaces cs | false ↦ c ∷ cs ]

abbrev pub reverse_onto : List Char → List Char → List Char
reverse_onto [] ds = ds
reverse_onto (c ∷ cs) ds = reverse_onto cs (c ∷ ds)

-- `String.prototype.trim`
unfoldable pub trim : String → String
trim s = of_list (reverse_onto (drop_spaces (reverse_onto (drop_spaces (to_list s)) [])) [])

-- A character's UTF-16 code units, by which `sort` compares.
abbrev pub units : ℕ → List ℕ
units c =
    if ltb c 65536
    then c ∷ []
    else (55296 + ((c - 65536) / 1024)) ∷ (56320 + ((c - 65536) % 1024)) ∷ []

-- The comparison of `sort`.
abbrev pub before : List ℕ → List ℕ → Bool
before [] ys = true
before (x ∷ xs) [] = false
before (x ∷ xs) (y ∷ ys) = if ltb x y then true else if ltb y x then false else before xs ys

abbrev pub utf16 : List ℕ → List ℕ
utf16 [] = []
utf16 (c ∷ cs) = units c ++ utf16 cs

abbrev pub place : String → List String → List String
place s [] = s ∷ []
place s (t ∷ ts) =
    let rest = place s ts in
    if before (utf16 (codes s)) (utf16 (codes t)) then s ∷ t ∷ ts else t ∷ rest

-- `Array.prototype.sort` on strings.
abbrev pub sort : List String → List String
sort [] = []
sort (s ∷ ss) = place s (sort ss)

-- `new Set(values)` keeps the first of equal values.
abbrev pub distinct_onto : List String → List String → List String
distinct_onto seen [] = seen
distinct_onto seen (s ∷ ss) = distinct_onto (if contains seen s then seen else seen ++ s ∷ []) ss

unfoldable pub unique_sorted : List String → List String
unfolding codes
unique_sorted values = sort (distinct_onto [] values)

contains-place :
    (s : String) (ts : List String) (v : String)
    → contains (place s ts) v ≡ (s == v || contains ts v)
contains-place s [] v = refl
contains-place s (t ∷ ts) v = ground (arith, contains-place s ts v)

pub contains-sort : (ss : List String) (v : String) → contains (sort ss) v ≡ contains ss v
contains-sort [] v = refl
contains-sort (s ∷ ss) v = ground (arith, contains-sort ss v, contains-place s (sort ss) v)

contains-distinct_onto :
    (seen ss : List String) (v : String)
    → contains (distinct_onto seen ss) v ≡ (contains seen v || contains ss v)
contains-distinct_onto seen [] v = ground arith
contains-distinct_onto seen (s ∷ ss) v = ground (
  arith,
  contains-distinct_onto seen ss v,
  contains-distinct_onto (seen ++ s ∷ []) ss v,
  contains-append seen (s ∷ []) v,
  eq_iff s v,
)

pub contains-unique_sorted :
    (values : List String) (v : String) → contains (unique_sorted values) v ≡ contains values v
unfolding unique_sorted
contains-unique_sorted values v =
    ground (arith, contains-sort (distinct_onto [] values) v, contains-distinct_onto [] values v)

-- `[A-Za-z]`, `[0-9]`
abbrev pub is_letter : ℕ → Bool
is_letter c = leb 65 c && leb c 90 || leb 97 c && leb c 122

abbrev pub is_digit : ℕ → Bool
is_digit c = leb 48 c && leb c 57

-- `[a-zA-Z0-9_-]`
abbrev pub is_id_char : ℕ → Bool
is_id_char c = is_letter c || is_digit c || c == 95 || c == 45

-- `/^[a-zA-Z0-9_-]{1,64}$/`
unfoldable pub valid_repo_id : String → Bool
valid_repo_id s = all is_id_char (codes s) && leb 1 (length (codes s)) && leb (length (codes s)) 64

-- `/^[A-Za-z_][A-Za-z0-9_]*$/`
abbrev pub is_identifier : List ℕ → Bool
is_identifier [] = false
is_identifier (c ∷ cs) =
    (is_letter c || c == 95) && all (λ d. is_letter d || is_digit d || d == 95) cs

unfoldable pub valid_table : String → Bool
valid_table s = is_identifier (codes s)

-- `/^[A-Za-z0-9_][A-Za-z0-9_.\-/]{0,127}$/`
abbrev pub is_branch : List ℕ → Bool
is_branch [] = false
is_branch (c ∷ cs) =
    (is_letter c || is_digit c || c == 95)
    && all (λ d. is_id_char d || d == 46 || d == 47) cs
    && leb (length cs) 127

unfoldable pub valid_branch : String → Bool
valid_branch s = is_branch (codes s)

-- `/^[0-9a-z]{32}$/`
unfoldable pub valid_commit_hash : String → Bool
valid_commit_hash s =
    all (λ c. leb 97 c && leb c 122 || is_digit c) (codes s) && length (codes s) == 32

-- `includes('..')`
abbrev pub has_dots : List ℕ → Bool
has_dots [] = false
has_dots (c ∷ []) = false
has_dots (c ∷ d ∷ cs) = c == 46 && d == 46 || has_dots (d ∷ cs)

abbrev pub last_is : ℕ → List ℕ → Bool
last_is k [] = false
last_is k (c ∷ []) = c == k
last_is k (c ∷ d ∷ cs) = last_is k (d ∷ cs)

abbrev pub first_is : ℕ → List ℕ → Bool
first_is k [] = false
first_is k (c ∷ cs) = c == k

-- The condition of `assertBranchName`, the same in BranchService, MergeService and LogService.
unfoldable pub invalid_branch : String → Bool
unfolding codes trim valid_branch
invalid_branch name =
    let normalized = trim name in
    normalized == ""
    || not (normalized == name)
    || not (valid_branch name)
    || has_dots (codes name)
    || first_is 47 (codes name)
    || last_is 47 (codes name)

-- `ref === ref.toLowerCase()`, asked only of texts that match a pattern of ASCII characters.
abbrev pub is_lower : String → Bool
is_lower s = all (λ c. not (leb 65 c && leb c 90)) (codes s)

-- The condition of `DiffService.assertRef`.
unfoldable pub invalid_ref : String → Bool
unfolding codes trim valid_branch valid_commit_hash
invalid_ref ref =
    let normalized = trim ref in
    let branch =
      valid_branch ref
      && is_lower ref
      && not (has_dots (codes ref))
      && not (first_is 47 (codes ref))
      && not (last_is 47 (codes ref)) in
    let commit = valid_commit_hash ref && is_lower ref in
    normalized == "" || not (normalized == ref) || not branch && not commit

-- `toLowerCase` as far as ASCII words can tell: the capital letters, the Kelvin sign, and the dotted
-- capital I, which becomes two characters.
abbrev pub lower_code : ℕ → List ℕ
lower_code c =
    if leb 65 c && leb c 90
    then (c + 32) ∷ []
    else if c == 8490
    then 107 ∷ []
    else if c == 304
    then 105 ∷ 775 ∷ []
    else c ∷ []

abbrev pub lower_codes : List ℕ → List ℕ
lower_codes [] = []
lower_codes (c ∷ cs) = lower_code c ++ lower_codes cs

abbrev pub starts : List ℕ → List ℕ → Bool
starts [] cs = true
starts (w ∷ ws) [] = false
starts (w ∷ ws) (c ∷ cs) = w == c && starts ws cs

abbrev pub occurs : List ℕ → List ℕ → Bool
occurs ws [] = starts ws []
occurs ws (c ∷ cs) = starts ws (c ∷ cs) || occurs ws cs

-- `message.toLowerCase().includes(word)`
unfoldable pub says : String → String → Bool
unfolding codes
says message word = occurs (codes word) (lower_codes (codes message))
