-- ===== src/Job/Files/Qids.antt =====
-- Which file of the tree in job/fs.go a qid and a name stand for.
use sh.Prelude.{
  ℕ, ◌+◌, ◌*◌, ◌^◌, ◌<◌, ◌≤◌, ◌≡◌, refl, ap, ◌∙◌, inl, inr, false, Option, none, some, List, [],
  ◌∷◌, Runes, codes, same, same_iff, arith, Bool-cases,
}
use sh.Job.State.{Job}
use sh.Job.Manager.{Manager, get}
use sh.Job.Files.{
  Leaf, leaf_name, file_offset, child_names, Node, root, clone, job_dir, leaf, job_dir_path,
  qid_path, find_leaf, leaf_of, walk,
}

-- The file, whether or not a clone file has been opened.
abbrev pub file_of : Node → Node
file_of (clone id) = clone 0
file_of n = n

abbrev pub id_of : Node → ℕ
id_of root = 0
id_of (clone id) = 0
id_of (job_dir id) = id
id_of (leaf id l) = id

file_offset-eq : (l k : Leaf) → file_offset l ≡ file_offset k → l ≡ k
unfolding file_offset
file_offset-eq Leaf.ctl_file Leaf.ctl_file h = refl
file_offset-eq Leaf.status_file Leaf.status_file h = refl
file_offset-eq Leaf.events_file Leaf.events_file h = refl
file_offset-eq Leaf.wait_file Leaf.wait_file h = refl
file_offset-eq Leaf.argv_file Leaf.argv_file h = refl
file_offset-eq Leaf.env_file Leaf.env_file h = refl
file_offset-eq Leaf.stdin_file Leaf.stdin_file h = refl
file_offset-eq Leaf.stdout_file Leaf.stdout_file h = refl
file_offset-eq Leaf.stderr_file Leaf.stderr_file h = refl
file_offset-eq Leaf.cwd_file Leaf.cwd_file h = refl
file_offset-eq _ _ h = absurd (omega (arith, h))

file_offset-bounds : (l : Leaf) → (1 ≤ file_offset l) × (file_offset l ≤ 10)
unfolding file_offset
file_offset-bounds l = ground arith

job_dir_path-small : (id : ℕ) → id * 20 + 1010 < 2 ^ 64 → job_dir_path id ≡ 1000 + id * 20
unfolding job_dir_path
job_dir_path-small id h = omega (arith, h)

leaf-small :
    (id : ℕ) (l : Leaf)
    → id * 20 + 1010 < 2 ^ 64
    → qid_path (leaf id l) ≡ 1000 + id * 20 + file_offset l
unfolding qid_path
leaf-small id l h = omega (arith, h, job_dir_path-small id h, file_offset-bounds l)

-- Two files of the tree with the same qid are the same file, as long as the ids of their jobs leave
-- room in 64 bits.
pub qid_path-file_of :
    (a b : Node)
    → id_of a * 20 + 1010 < 2 ^ 64
    → id_of b * 20 + 1010 < 2 ^ 64
    → qid_path a ≡ qid_path b
    → file_of a ≡ file_of b
unfolding qid_path
qid_path-file_of root root p q h = refl
qid_path-file_of root (clone i) p q h = absurd (omega (arith, h))
qid_path-file_of root (job_dir i) p q h = absurd (omega (arith, h, job_dir_path-small i q))
qid_path-file_of root (leaf i l) p q h = absurd (omega (arith, h, leaf-small i l q))
qid_path-file_of (clone i) root p q h = absurd (omega (arith, h))
qid_path-file_of (clone i) (clone j) p q h = refl
qid_path-file_of (clone i) (job_dir j) p q h = absurd (omega (arith, h, job_dir_path-small j q))
qid_path-file_of (clone i) (leaf j l) p q h = absurd (omega (arith, h, leaf-small j l q))
qid_path-file_of (job_dir i) root p q h = absurd (omega (arith, h, job_dir_path-small i p))
qid_path-file_of (job_dir i) (clone j) p q h = absurd (omega (arith, h, job_dir_path-small i p))
qid_path-file_of (job_dir i) (job_dir j) p q h =
    ap job_dir (omega (arith, h, job_dir_path-small i p, job_dir_path-small j q))
qid_path-file_of (job_dir i) (leaf j l) p q h =
    absurd (omega (arith, h, job_dir_path-small i p, leaf-small j l q, file_offset-bounds l))
qid_path-file_of (leaf i k) root p q h = absurd (omega (arith, h, leaf-small i k p))
qid_path-file_of (leaf i k) (clone j) p q h = absurd (omega (arith, h, leaf-small i k p))
qid_path-file_of (leaf i k) (job_dir j) p q h =
    absurd (omega (arith, h, leaf-small i k p, job_dir_path-small j q, file_offset-bounds k))
qid_path-file_of (leaf i k) (leaf j l) p q h =
    let e = leaf-small i k p in
    let f = leaf-small j l q in
    let ids : i ≡ j = omega (arith, h, e, f, file_offset-bounds k, file_offset-bounds l) in
    let offs : file_offset k ≡ file_offset l = omega (arith, h, e, f, ids) in
    ap (λ x. leaf x k) ids ∙ ap (leaf j) (file_offset-eq k l offs)

find_leaf-name :
    (ls : List Leaf) (name : Runes) (l : Leaf) → find_leaf ls name ≡ some l → leaf_name l ≡ name
unfolding find_leaf
find_leaf-name [] name l h = cc
find_leaf-name (k ∷ ls) name l h = elim (Bool-cases (same name (leaf_name k))) [
  | inl e ↦ ground (arith, h, (same_iff name (leaf_name k)).0 e)
  | inr e ↦ find_leaf-name ls name l (ground (arith, h, e))
]

leaf_name-facts :
    (l : Leaf)
    → (same (leaf_name l) (codes "..") ≡ false) × (find_leaf child_names (leaf_name l) ≡ some l)
unfolding find_leaf leaf_name same
leaf_name-facts Leaf.ctl_file = (refl, refl)
leaf_name-facts Leaf.status_file = (refl, refl)
leaf_name-facts Leaf.events_file = (refl, refl)
leaf_name-facts Leaf.wait_file = (refl, refl)
leaf_name-facts Leaf.argv_file = (refl, refl)
leaf_name-facts Leaf.env_file = (refl, refl)
leaf_name-facts Leaf.stdin_file = (refl, refl)
leaf_name-facts Leaf.stdout_file = (refl, refl)
leaf_name-facts Leaf.stderr_file = (refl, refl)
leaf_name-facts Leaf.cwd_file = (refl, refl)

leaf_of-cases :
    (id i : ℕ) (o : Option Leaf) (job : Option Job) (l : Leaf)
    → leaf_of id o job ≡ some (leaf i l)
    → (i ≡ id) × (o ≡ some l)
leaf_of-cases id i none job l h = absurd (ground (arith, h))
leaf_of-cases id i (some k) none l h = absurd (ground (arith, h))
leaf_of-cases id i (some k) (some j) l h = (ground (arith, h), ground (arith, h))

-- In the directory of a job that the Manager has, a walk to the name of each of the ten files
-- reaches that file of that job; and a walk in any job's directory that reaches a file of a job
-- reaches one of the same job, and the name was that file's.
pub walk-leaf :
    (m : Manager) (id : ℕ)
    → ((j : Job) (l : Leaf)
        → get m id ≡ some j
        → walk m (job_dir id) (leaf_name l) ≡ some (leaf id l))
      × ((name : Runes) (i : ℕ) (l : Leaf)
          → walk m (job_dir id) name ≡ some (leaf i l)
          → (i ≡ id) × (leaf_name l ≡ name))
unfolding walk
walk-leaf m id = (
  λ j l e. let f = leaf_name-facts l in rw (f.0, f.1) (rw e refl),
  λ name i l h. elim (Bool-cases (same name (codes ".."))) [
    | inl up ↦ absurd (ground (arith, h, up))
    | inr down ↦
        let (e, f) =
          leaf_of-cases id i (find_leaf child_names name) (get m id) l (ground (arith, h, down)) in
        (e, find_leaf-name child_names name l f)
  ],
)
