-- ===== src/Job/Manager/Listing.antt =====
-- What the Manager of job/job.go gives out: ids from 1 on, and the jobs in the order of their ids.
use sh.Prelude.{
  ℕ, zero, suc, ◌≤◌, ◌<◌, ◌≡◌, refl, sym, ap, ◌∙◌, inl, inr, Option, none, some, List, [], ◌∷◌,
  ◌++◌, map, Runes, ◌==◌, if◌then◌else◌, arith, Bool-cases,
}
use sh.Job.State.{Kind, Job}
use sh.Job.Control.{Host, append_event}
use sh.Job.Steps.{alloc_job}
use sh.Job.Manager.{
  Jobs, Manager, new_manager, find_job, set_on_finish, alloc, get, insert_int, sort_ints, ids, list,
  update,
}

-- 1, 2, …, n
abbrev pub one_to : ℕ → List ℕ
one_to zero = []
one_to (suc n) = one_to n ++ suc n ∷ []

-- The managers of a run: jobs are allocated, and methods change jobs in any way but for the id.
pub data Reached : Manager → Type 0 where
  starts : Reached new_manager
  hooks : {m : Manager} → Reached m → Reached (set_on_finish m)
  allocates :
      {m : Manager} (h : Host) (kind : Kind) (cwd : Runes)
      → Reached m
      → Reached (alloc h kind cwd m).0
  changes :
      {m : Manager} (id : ℕ) (j : Job)
      → j.id ≡ id
      → Reached m
      → Reached (record m { jobs = update m.jobs id j })

abbrev Below : ℕ → List ℕ → Type 0
Below n [] = Unit
Below n (x ∷ xs) = (x ≤ n) × Below n xs

Below-mono : (n : ℕ) (xs : List ℕ) → Below n xs → Below (suc n) xs
Below-mono n [] b = tt
Below-mono n (x ∷ xs) (b, bs) = (omega arith, Below-mono n xs bs)

Below-append : (n : ℕ) (xs : List ℕ) (x : ℕ) → Below n xs → x ≤ n → Below n (xs ++ x ∷ [])
Below-append n [] x b h = (h, tt)
Below-append n (y ∷ ys) x (b, bs) h = (b, Below-append n ys x bs h)

one_to-Below : (n : ℕ) → Below n (one_to n)
one_to-Below zero = tt
one_to-Below (suc n) =
    Below-append (suc n) (one_to n) (suc n) (Below-mono n (one_to n) (one_to-Below n)) (omega arith)

insert_int-last : (n : ℕ) (xs : List ℕ) → Below n xs → insert_int (suc n) xs ≡ xs ++ suc n ∷ []
unfolding insert_int
insert_int-last n [] b = refl
insert_int-last n (x ∷ xs) (b, bs) = ground (arith, b, insert_int-last n xs bs)

ids-update : (jobs : Jobs) (id : ℕ) (j : Job) → ids (update jobs id j) ≡ ids jobs
unfolding update
ids-update [] id j = refl
ids-update ((k, j') ∷ jobs) id j = ground (arith, ids-update jobs id j)

Reached-sorted : {m : Manager} → Reached m → sort_ints (ids m.jobs) ≡ one_to m.next_id
unfolding sort_ints set_on_finish alloc
Reached-sorted starts = refl
Reached-sorted (hooks r) = Reached-sorted r
Reached-sorted (allocates {m} h kind cwd r) =
    ap (insert_int (suc m.next_id)) (Reached-sorted r)
    ∙ insert_int-last m.next_id (one_to m.next_id) (one_to-Below m.next_id)
Reached-sorted (changes {m} id j e r) = ap sort_ints (ids-update m.jobs id j) ∙ Reached-sorted r

-- Another job in the place of one that is there.
abbrev in_place : Job → Option Job → Option Job
in_place j none = none
in_place j (some old) = some j

find_job-update :
    (jobs : Jobs) (id x : ℕ) (j : Job)
    → find_job (update jobs id j) x
      ≡ (if x == id then in_place j (find_job jobs x) else find_job jobs x)
unfolding find_job update
find_job-update [] id x j = ground arith
find_job-update ((k, j') ∷ jobs) id x j = ground (arith, find_job-update jobs id x j)

Reached-none : {m : Manager} → Reached m → (x : ℕ) → m.next_id < x → find_job m.jobs x ≡ none
unfolding find_job set_on_finish alloc
Reached-none starts x h = refl
Reached-none (hooks r) x h = Reached-none r x h
Reached-none (allocates h kind cwd r) x lt = ground (arith, Reached-none r x, lt)
Reached-none (changes {m} id j e r) x lt =
    ground (arith, find_job-update m.jobs id x j, Reached-none r x lt)

alloc_job-id : (h : Host) (id : ℕ) (kind : Kind) (cwd : Runes) → (alloc_job h id kind cwd).id ≡ id
unfolding alloc_job append_event
alloc_job-id h id kind cwd = refl

-- The job of an id.
abbrev Has : Manager → ℕ → Type 0
Has m x = (j : Job) × (find_job m.jobs x ≡ some j) × (j.id ≡ x)

find_job-alloc :
    (h : Host) (kind : Kind) (cwd : Runes) (m : Manager) (x : ℕ)
    → find_job (alloc h kind cwd m).0.jobs x ≡ (
        if x == suc m.next_id
        then some (alloc_job h (suc m.next_id) kind cwd)
        else find_job m.jobs x)
unfolding find_job alloc
find_job-alloc h kind cwd m x = refl

Has-alloc :
    (h : Host) (kind : Kind) (cwd : Runes) (m : Manager) (x : ℕ)
    → (x ≤ m.next_id → Has m x)
    → x ≤ suc m.next_id
    → Has (alloc h kind cwd m).0 x
Has-alloc h kind cwd m x old le = elim (Bool-cases (x == suc m.next_id)) [
  | inl e ↦ (
    alloc_job h (suc m.next_id) kind cwd,
    find_job-alloc h kind cwd m x ∙ rw e refl,
    alloc_job-id h (suc m.next_id) kind cwd ∙ ground (arith, e),
  )
  | inr e ↦
      let (j, f, g) = old (ground (arith, e, le)) in (j, find_job-alloc h kind cwd m x ∙ rw e f, g)
]

Has-update :
    (m : Manager) (id : ℕ) (j : Job) (x : ℕ)
    → j.id ≡ id
    → Has m x
    → Has (record m { jobs = update m.jobs id j }) x
Has-update m id j x h (old, f, g) = elim (Bool-cases (x == id)) [
  | inl e ↦ (j, find_job-update m.jobs id x j ∙ rw e (ap (in_place j) f), h ∙ ground (arith, e))
  | inr e ↦ (old, find_job-update m.jobs id x j ∙ rw e f, g)
]

Reached-Has : {m : Manager} → Reached m → (x : ℕ) → 1 ≤ x → x ≤ m.next_id → Has m x
unfolding set_on_finish
Reached-Has starts x lo hi = absurd (omega (arith, lo, hi))
Reached-Has (hooks r) x lo hi = Reached-Has r x lo hi
Reached-Has (allocates {m} h kind cwd r) x lo hi =
    Has-alloc h kind cwd m x (λ le. Reached-Has r x lo le) (unfold alloc in hi)
Reached-Has (changes {m} id j e r) x lo hi = Has-update m id j x e (Reached-Has r x lo hi)

map-append : {A B : Type 0} (f : A → B) (xs ys : List A) → map f (xs ++ ys) ≡ map f xs ++ map f ys
map-append f [] ys = refl
map-append f (x ∷ xs) ys = ap (◌∷◌ (f x)) (map-append f xs ys)

-- The jobs of the ids 1, …, n.
listed :
    {m : Manager} (r : Reached m) (n : ℕ)
    → n ≤ m.next_id
    → (js : List Job) × (map (find_job m.jobs) (one_to n) ≡ map some js)
      × (map (λ (j : Job). j.id) js ≡ one_to n)
listed r zero h = ([], refl, refl)
listed {m} r (suc n) h =
    let (js, e, f) = listed r n (omega (arith, h)) in
    let (j, g, i) = Reached-Has r (suc n) (omega arith) h in
    (
      js ++ j ∷ [],
      map-append (find_job m.jobs) (one_to n) (suc n ∷ [])
          ∙ rw (e, g) refl
          ∙ sym (map-append some js (j ∷ [])),
      map-append (λ (j : Job). j.id) js (j ∷ []) ∙ rw (f, i) refl,
    )

-- In every run, `List` returns every job of the Manager, each of them not nil, in the order of the
-- ids, and the ids are 1, 2, … up to the number of jobs allocated.
pub list-one_to :
    {m : Manager}
    → Reached m
    → (js : List Job) × (list m ≡ map some js) × (map (λ (j : Job). j.id) js ≡ one_to m.next_id)
unfolding list
list-one_to {m} r =
    let (js, e, f) = listed r m.next_id (omega arith) in
    (js, ap (map (find_job m.jobs)) (Reached-sorted r) ∙ e, f)

map-Below :
    {A : Type 0} (f g : ℕ → A) (n : ℕ) (xs : List ℕ)
    → ((x : ℕ) → x ≤ n → f x ≡ g x)
    → Below n xs
    → map f xs ≡ map g xs
map-Below f g n [] h b = refl
map-Below f g n (x ∷ xs) h (b, bs) = rw (h x b) (ap (◌∷◌ (g x)) (map-Below f g n xs h bs))

list-alloc :
    (h : Host) (kind : Kind) (cwd : Runes) {m : Manager}
    → Reached m
    → list (alloc h kind cwd m).0 ≡ list m ++ some (alloc h kind cwd m).1 ∷ []
unfolding list alloc
list-alloc h kind cwd {m} r =
    let found = find_job-alloc h kind cwd m in
    let old =
      map-Below (find_job (alloc h kind cwd m).0.jobs) (find_job m.jobs) m.next_id
        (one_to m.next_id) (λ x le. found x ∙ ground (arith, le)) (one_to-Below m.next_id) in
    let fresh : find_job (alloc h kind cwd m).0.jobs (suc m.next_id) ≡ some (alloc h kind cwd m).1 =
      found (suc m.next_id) ∙ ground arith in
    ap (map (find_job (alloc h kind cwd m).0.jobs)) (Reached-sorted (allocates h kind cwd r))
    ∙ map-append (find_job (alloc h kind cwd m).0.jobs) (one_to m.next_id) (suc m.next_id ∷ [])
    ∙ rw (old, fresh) refl
    ∙ ap (λ xs. map (find_job m.jobs) xs ++ some (alloc h kind cwd m).1 ∷ [])
        (sym (Reached-sorted r))

-- A new job has an id that no job had; behind its allocation `Get` finds it there, and every other
-- job as before, and `List` returns the jobs as before and then the new one.
pub alloc-list :
    (h : Host) (kind : Kind) (cwd : Runes) {m : Manager}
    → Reached m
    → (get m (alloc h kind cwd m).1.id ≡ none)
      × ((x : ℕ)
          → get (alloc h kind cwd m).0 x
            ≡ (if x == (alloc h kind cwd m).1.id then some (alloc h kind cwd m).1 else get m x))
      × (list (alloc h kind cwd m).0 ≡ list m ++ some (alloc h kind cwd m).1 ∷ [])
unfolding get
alloc-list h kind cwd {m} r =
    let is : (alloc h kind cwd m).1.id ≡ suc m.next_id =
      unfold alloc in alloc_job-id h (suc m.next_id) kind cwd in
    let found = find_job-alloc h kind cwd m in
    (
      ap (find_job m.jobs) is ∙ Reached-none r (suc m.next_id) (omega arith),
      λ x. found x ∙ rw is (unfold alloc in refl),
      list-alloc h kind cwd r,
    )
