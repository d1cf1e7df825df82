-- ===== src/Versioning/Branches/Survive.antt =====
-- Over any sequence of the service's calls the protected branch and the branch that is checked out
-- stay, where the commands do to a folder what their documentation says.
use deltix_server.Common.{
  ◌≡◌, ap, sym, ◌∙◌, subst, ◌⊎◌, inl, inr, Bool, true, false, ◌&&◌, String, List, [], ◌∷◌, ◌==◌,
  string_eq, ok, arith, eq_iff, Bool-cases, Result-cases,
}
use deltix_server.Versioning.Names.{invalid_branch}
use deltix_server.Versioning.Repos.{RepoStore}
use deltix_server.Versioning.Cli.{require_repo}
use deltix_server.Versioning.Branches.{BranchCli}
use deltix_server.Versioning.Branches

-- Which branches a folder has, which one is checked out, and what a command changes of it.
pub record Documented {W : Type 0} (cli : BranchCli W) : Type 0 where
  pub has : W → (path branch : String) → Bool
  pub head : W → (path : String) → String
  pub list_reads : (w : W) (p : String) → (cli.list_branches p w).1 ≡ w
  pub current_reads : (w : W) (p : String) → (cli.current_branch p w).1 ≡ w
  pub current_is_head :
      (w : W) (p name : String) → (cli.current_branch p w).0 ≡ ok name → name ≡ head w p
  pub create_keeps :
      (w : W) (p n q b : String) → has w q b ≡ true → has (cli.create_branch p n w).1 q b ≡ true
  pub create_head : (w : W) (p n q : String) → head (cli.create_branch p n w).1 q ≡ head w q
  pub checkout_keeps :
      (w : W) (p n q b : String) → has w q b ≡ true → has (cli.checkout_branch p n w).1 q b ≡ true
  pub checkout_head :
      (w : W) (p n q : String)
      → (head (cli.checkout_branch p n w).1 q ≡ head w q)
        ⊎ (has w q n ≡ true) × (head (cli.checkout_branch p n w).1 q ≡ n)
  pub delete_keeps :
      (w : W) (p n q b : String)
      → has w q b ≡ true
      → (p == q && n == b) ≡ false
      → has (cli.delete_branch p n w).1 q b ≡ true
  pub delete_head : (w : W) (p n q : String) → head (cli.delete_branch p n w).1 q ≡ head w q

pub data BranchCall : Type 0 where
  list current : (repo_id : String) → BranchCall
  create checkout delete : (repo_id branch_name : String) → BranchCall

module _ {W : Type 0} (cli : BranchCli W) (store : RepoStore) where
  abbrev pub exec : BranchCall → W → W
  exec (list repo_id) w = (Branches.list cli store repo_id w).1
  exec (current repo_id) w = (Branches.current cli store repo_id w).1
  exec (create repo_id name) w = (Branches.create cli store repo_id name w).1
  exec (checkout repo_id name) w = (Branches.checkout cli store repo_id name w).1
  exec (delete repo_id name) w = (Branches.delete cli store repo_id name w).1

  abbrev pub exec_all : List BranchCall → W → W
  exec_all [] w = w
  exec_all (c ∷ cs) w = exec_all cs (exec c w)

module _ {W : Type 0} (cli : BranchCli W) (d : Documented cli) where
  -- The folder has its main branch and the branch that is checked out.
  abbrev pub Intact : String → W → Type 0
  Intact path w = (d.has w path "main" ≡ true) × (d.has w path (d.head w path) ≡ true)

  delete-Intact :
      (p n path : String) (w : W)
      → (n == "main") ≡ false
      → (d.head w p == n) ≡ false
      → Intact path w
      → Intact path (cli.delete_branch p n w).1
  delete-Intact p n path w not_main not_head h = (
    d.delete_keeps w p n path "main" h.0 (ground (arith, not_main)),
    subst (λ b. d.has (cli.delete_branch p n w).1 path b ≡ true) (sym (d.delete_head w p n path))
        (d.delete_keeps w p n path (d.head w path) h.1 apart),
  )
    where
      apart : (p == path && n == d.head w path) ≡ false
      apart = elim (Bool-cases (p == path)) [
        | inl same ↦
            let q = ap (λ k. d.head w k) ((eq_iff p path).0 same) in
            ground (arith, q, not_head, eq_iff n (d.head w path), eq_iff (d.head w p) n)
        | inr other ↦ ground (arith, other)
      ]

  create-Intact :
      (p n path : String) (w : W) → Intact path w → Intact path (cli.create_branch p n w).1
  create-Intact p n path w h = (
    d.create_keeps w p n path "main" h.0,
    subst (λ b. d.has (cli.create_branch p n w).1 path b ≡ true) (sym (d.create_head w p n path))
        (d.create_keeps w p n path (d.head w path) h.1),
  )

  checkout-Intact :
      (p n path : String) (w : W) → Intact path w → Intact path (cli.checkout_branch p n w).1
  checkout-Intact p n path w h = (
    d.checkout_keeps w p n path "main" h.0,
    elim (d.checkout_head w p n path) [
      | inl stays ↦
          subst (λ b. d.has after path b ≡ true) (sym stays)
            (d.checkout_keeps w p n path (d.head w path) h.1)
      | inr (there, moved) ↦
          subst (λ b. d.has after path b ≡ true) (sym moved) (d.checkout_keeps w p n path n there)
    ],
  )
    where
      after : W
      after = (cli.checkout_branch p n w).1

  current-Intact :
      (p path : String) (w : W) → Intact path w → Intact path (cli.current_branch p w).1
  current-Intact p path w h = subst (Intact path) (sym (d.current_reads w p)) h

  module _ (store : RepoStore) (path : String) where
    becomes : {w' w : W} → w' ≡ w → Intact path w → Intact path w'
    becomes e h = subst (Intact path) (sym e) h

    list-Intact :
        (repo_id : String) (w : W)
        → Intact path w
        → Intact path (Branches.list cli store repo_id w).1
    unfolding Branches.list
    list-Intact repo_id w h = elim (Result-cases (require_repo repo_id store)) [
      | inr (e, bad) ↦ becomes (ground (arith, bad)) h
      | inl (repo, known) ↦ becomes (ground (arith, known, d.list_reads w repo.dolt_path)) h
    ]

    current_call-Intact :
        (repo_id : String) (w : W)
        → Intact path w
        → Intact path (Branches.current cli store repo_id w).1
    unfolding Branches.current
    current_call-Intact repo_id w h = elim (Result-cases (require_repo repo_id store)) [
      | inr (e, bad) ↦ becomes (ground (arith, bad)) h
      | inl (repo, known) ↦ becomes (ground (arith, known, d.current_reads w repo.dolt_path)) h
    ]

    created-Intact :
        (repo_id name : String) (w : W)
        → Intact path w
        → Intact path (Branches.create cli store repo_id name w).1
    unfolding Branches.create
    created-Intact repo_id name w h = elim (Bool-cases (invalid_branch name)) [
      | inl bad ↦ becomes (ground (arith, bad)) h
      | inr good ↦ elim (Result-cases (require_repo repo_id store)) [
        | inr (e, bad) ↦ becomes (ground (arith, good, bad)) h
        | inl (repo, known) ↦
            let p = repo.dolt_path in
            let w' = (cli.create_branch p name w).1 in
            let kept = create-Intact p name path w h in
            elim (Result-cases (cli.create_branch p name w).0) [
              | inr (e, failed) ↦ becomes (ground (arith, good, known, failed)) kept
              | inl (u, done) ↦ elim (Result-cases (cli.current_branch p w').0) [
                | inr (e, failed) ↦
                    becomes (ground (arith, good, known, done, failed))
                      (current-Intact p path w' kept)
                | inl (n, asked) ↦
                    becomes (ground (arith, good, known, done, asked))
                      (current-Intact p path w' kept)
              ]
            ]
      ]
    ]

    moved-Intact :
        (repo_id name : String) (w : W)
        → Intact path w
        → Intact path (Branches.checkout cli store repo_id name w).1
    unfolding Branches.checkout
    moved-Intact repo_id name w h = elim (Bool-cases (invalid_branch name)) [
      | inl bad ↦ becomes (ground (arith, bad)) h
      | inr good ↦ elim (Result-cases (require_repo repo_id store)) [
        | inr (e, bad) ↦ becomes (ground (arith, good, bad)) h
        | inl (repo, known) ↦
            let kept = checkout-Intact repo.dolt_path name path w h in
            elim (Result-cases (cli.checkout_branch repo.dolt_path name w).0) [
              | inr (e, failed) ↦ becomes (ground (arith, good, known, failed)) kept
              | inl (u, done) ↦ becomes (ground (arith, good, known, done)) kept
            ]
      ]
    ]

    deleted-Intact :
        (repo_id name : String) (w : W)
        → Intact path w
        → Intact path (Branches.delete cli store repo_id name w).1
    unfolding Branches.delete
    deleted-Intact repo_id name w h = elim (Bool-cases (invalid_branch name)) [
      | inl bad ↦ becomes (ground (arith, bad)) h
      | inr good ↦ elim (Result-cases (require_repo repo_id store)) [
        | inr (e, bad) ↦ becomes (ground (arith, good, bad)) h
        | inl (repo, known) ↦
            let p = repo.dolt_path in
            let w' = (cli.current_branch p w).1 in
            let asked = current-Intact p path w h in
            elim (Result-cases (cli.current_branch p w).0) [
              | inr (e, failed) ↦ becomes (ground (arith, good, known, failed)) asked
              | inl (head_name, done) ↦ elim (Bool-cases (head_name == name)) [
                | inl out ↦ becomes (ground (arith, good, known, done, out)) asked
                | inr free ↦ elim (Bool-cases (name == "main")) [
                  | inl main ↦ becomes (ground (arith, good, known, done, free, main)) asked
                  | inr other ↦
                      let head =
                        d.current_is_head w p head_name done
                        ∙ sym (ap (λ v. d.head v p) (d.current_reads w p)) in
                      becomes (ground (arith, good, known, done, free, other)) (
                        delete-Intact p name path w' other (ap (λ b. b == name) (sym head) ∙ free)
                          asked)
                ]
              ]
            ]
      ]
    ]

    exec-Intact : (c : BranchCall) (w : W) → Intact path w → Intact path (exec cli store c w)
    exec-Intact (list repo_id) w h = list-Intact repo_id w h
    exec-Intact (current repo_id) w h = current_call-Intact repo_id w h
    exec-Intact (create repo_id name) w h = created-Intact repo_id name w h
    exec-Intact (checkout repo_id name) w h = moved-Intact repo_id name w h
    exec-Intact (delete repo_id name) w h = deleted-Intact repo_id name w h

-- Whatever branches clients list, create, check out and delete, in any order and on any
-- repositories, a folder that had its main branch and its checked-out branch still has its main
-- branch and the branch that is then checked out.
pub exec_all-Intact :
    {W : Type 0} (cli : BranchCli W) (d : Documented cli) (store : RepoStore) (path : String)
    (calls : List BranchCall) (w : W)
    → Intact cli d path w
    → Intact cli d path (exec_all cli store calls w)
exec_all-Intact cli d store path [] w h = h
exec_all-Intact cli d store path (c ∷ calls) w h =
    exec_all-Intact cli d store path calls (exec cli store c w) (exec-Intact cli d store path c w h)
