-- ===== src/Kyu/Builtins/Unique.antt =====
-- uniq of kyu/eval/builtins.go.
use sh.Prelude.{◌≡◌, ◌⊎◌, inl, inr, refl, ap, subst, Bool, true, false, Option, none, some}
use sh.Kyu.Machine.{Val, Vals, no_vals, val_cons, Answer, Outside, State}
use sh.Kyu.Machine.Values.{append_vals}
use sh.Kyu.Machine.Host.{Rules}
use sh.Kyu.Builtins.{last_as_list}
use sh.Kyu.Builtins.Rows.{one, seen_if, is_seen, grown, uniq_rows, and_on, uniq_answer, bi_uniq}

seen_if-false :
    (o rest : Option Bool) → seen_if o rest ≡ some false → (o ≡ some false) × (rest ≡ some false)
seen_if-false (some false) rest h = (refl, h)
seen_if-false (some true) rest h = cc
seen_if-false none rest h = cc

seen_if-true :
    (o rest : Option Bool) → seen_if o rest ≡ some true → (o ≡ some true) ⊎ (rest ≡ some true)
seen_if-true (some false) rest h = inr h
seen_if-true (some true) rest h = inl refl
seen_if-true none rest h = cc

-- A value is one of a list.
pub data In (v : Val) : Vals → Type 0 where
  here : {w : Val} {vs : Vals} → w ≡ v → In v (val_cons w vs)
  there : {w : Val} {vs : Vals} → In v vs → In v (val_cons w vs)

In-append_left : {v : Val} (xs ys : Vals) → In v xs → In v (append_vals xs ys)
unfolding append_vals
In-append_left no_vals ys h = elim h [ ]
In-append_left (val_cons x xs) ys (here e) = here e
In-append_left (val_cons x xs) ys (there h) = there (In-append_left xs ys h)

In-append : {v : Val} (xs ys : Vals) → In v (append_vals xs ys) → In v xs ⊎ In v ys
unfolding append_vals
In-append no_vals ys h = inr h
In-append (val_cons x xs) ys (here e) = inl (here e)
In-append (val_cons x xs) ys (there h) = elim (In-append xs ys h) [
  | inl is_in ↦ inl (there is_in)
  | inr is_in ↦ inr is_in
]

In-append_one : (v : Val) (xs : Vals) → In v (append_vals xs (one v))
unfolding append_vals
In-append_one v no_vals = here refl
In-append_one v (val_cons x xs) = there (In-append_one v xs)

module _ {O : Outside} (R : Rules O) (st : State O) where
  -- No value is Equal to one in front of it.
  pub data AllApart : Vals → Type 0 where
    nothing : AllApart no_vals
    apart :
        {vs : Vals} {v : Val}
        → AllApart vs
        → ((w : Val) → In w vs → R.equal st w v ≡ some false)
        → AllApart (append_vals vs (one v))

  -- The value is in a list, or one that is Equal to it.
  abbrev pub Kept : Val → Vals → Type 0
  Kept v out = (w : Val) × In w out × ((w ≡ v) ⊎ (R.equal st w v ≡ some true))

  not_seen :
      (out : Vals) (v : Val)
      → is_seen O R st out v ≡ some false
      → (w : Val) → In w out
      → R.equal st w v ≡ some false
  unfolding is_seen
  not_seen no_vals v h w is_in = elim is_in [ ]
  not_seen (val_cons x xs) v h w (here e) =
      subst (λ u. R.equal st u v ≡ some false) e (seen_if-false (R.equal st x v) _ h).0
  not_seen (val_cons x xs) v h w (there is_in) =
      not_seen xs v (seen_if-false (R.equal st x v) _ h).1 w is_in

  seen_by :
      (out : Vals) (v : Val)
      → is_seen O R st out v ≡ some true
      → (w : Val) × In w out × (R.equal st w v ≡ some true)
  unfolding is_seen
  seen_by no_vals v h = cc
  seen_by (val_cons x xs) v h = elim (seen_if-true (R.equal st x v) _ h) [
    | inl e ↦ (x, here refl, e)
    | inr e ↦ let (w, is_in, eq) = seen_by xs v e in (w, there is_in, eq)
  ]

  -- What stands in the list that the loop of `biUniq` makes of `xs` behind `out`.
  abbrev pub UniqueOf : Vals → Vals → Vals → Type 0
  UniqueOf xs out result =
      AllApart result
      × ((v : Val) → In v result → In v out ⊎ In v xs)
      × ((v : Val) → In v out → In v result)
      × ((v : Val) → In v xs → Kept v result)

  unique_none : (out : Vals) → AllApart out → UniqueOf no_vals out out
  unique_none out separate = (separate, λ v h. inl h, λ v h. h, λ v h. elim h [ ])

  unique_seen :
      (x : Val) (xs out result : Vals)
      → is_seen O R st out x ≡ some true
      → UniqueOf xs out result
      → UniqueOf (val_cons x xs) out result
  unique_seen x xs out result e (separate, from, keeps, kept) =
      (separate, λ v h. further v (from v h), keeps, at)
    where
      further : (v : Val) → In v out ⊎ In v xs → In v out ⊎ In v (val_cons x xs)
      further v (inl h) = inl h
      further v (inr h) = inr (there h)

      at : (v : Val) → In v (val_cons x xs) → Kept v result
      at v (here eq) =
          let (w, is_in, same_val) = seen_by out x e in
          (w, keeps w is_in, inr (subst (λ u. R.equal st w u ≡ some true) eq same_val))
      at v (there h) = kept v h

  unique_new :
      (x : Val) (xs out result : Vals)
      → UniqueOf xs (append_vals out (one x)) result
      → UniqueOf (val_cons x xs) out result
  unique_new x xs out result (separate, from, keeps, kept) =
      (separate, λ v h. further v (from v h), λ v h. keeps v (In-append_left out (one x) h), at)
    where
      split : (v : Val) → In v out ⊎ In v (one x) → In v out ⊎ In v (val_cons x xs)
      split v (inl h) = inl h
      split v (inr (here e)) = inr (here e)
      split v (inr (there h)) = elim h [ ]

      further :
          (v : Val) → In v (append_vals out (one x)) ⊎ In v xs → In v out ⊎ In v (val_cons x xs)
      further v (inl h) = split v (In-append out (one x) h)
      further v (inr h) = inr (there h)

      at : (v : Val) → In v (val_cons x xs) → Kept v result
      at v (here eq) = (x, keeps x (In-append_one x out), inl eq)
      at v (there h) = kept v h

  uniq_rows-UniqueOf :
      (xs out result : Vals)
      → AllApart out
      → uniq_rows O R st xs out ≡ some result
      → UniqueOf xs out result
  unfolding uniq_rows
  uniq_rows-UniqueOf no_vals out result separate h =
      let eq : out ≡ result = cc in subst (UniqueOf no_vals out) eq (unique_none out separate)
  uniq_rows-UniqueOf (val_cons x xs) out result separate h =
      by_seen (is_seen O R st out x) refl h
        (λ out' (separate' : AllApart out'). uniq_rows-UniqueOf xs out' result separate')
    where
      by_seen :
          (b : Option Bool)
          → is_seen O R st out x ≡ b
          → and_on O R (λ out'. uniq_rows O R st xs out') (grown O R out x b) ≡ some result
          → ((out' : Vals)
              → AllApart out'
              → uniq_rows O R st xs out' ≡ some result
              → UniqueOf xs out' result)
          → UniqueOf (val_cons x xs) out result
      by_seen none e is ih = cc
      by_seen (some true) e is ih = unique_seen x xs out result e (ih out separate is)
      by_seen (some false) e is ih =
          unique_new x xs out result
            (ih (append_vals out (one x)) (apart separate (not_seen out x e)) is)

  -- Where every comparison that it makes ends, uniq returns values of its list only, none of them Equal to one
  -- in front of it, and of each value of its list that value itself or one that is Equal to it; and it
  -- changes no state.
  pub bi_uniq-UniqueOf :
      (xs result : Vals)
      → uniq_rows O R st xs no_vals ≡ some result
      → (bi_uniq O R (one (Val.list xs)) st ≡ some (Answer.value (Val.list result), st))
        × AllApart result
        × ((v : Val) → In v result → In v xs)
        × ((v : Val) → In v xs → Kept v result)
  unfolding bi_uniq last_as_list
  bi_uniq-UniqueOf xs result h =
      let (separate, from, keeps, kept) = uniq_rows-UniqueOf xs no_vals result nothing h in
      (ap (λ o. uniq_answer O R o st) h, separate, λ v is_in. only v (from v is_in), kept)
    where
      only : (v : Val) → In v no_vals ⊎ In v xs → In v xs
      only v (inl is_in) = elim is_in [ ]
      only v (inr is_in) = is_in
