-- ===== src/Kyu/Token/Keywords.antt =====
-- The keyword table of kyu/token/token.go against the printing of kinds.
use sh.Prelude.{
  ◌≡◌, ◌≢◌, refl, subst, ◌⊎◌, inl, inr, Bool, true, false, List, [], ◌∷◌, Runes, same, same_iff,
  Bool-cases, arith,
}
use sh.Kyu.Token.{
  Kind, true_word, false_word, null, if_word, else_word, bind, while, break, continue, unbind,
  in_ns, ident, eof, newline, keywords, find_kind, lookup_ident, kind_string,
}

abbrev Each {ℓ} : (Runes × Kind → Type ℓ) → List (Runes × Kind) → Type ℓ
Each P [] = Unit
Each P (e ∷ es) = P e × Each P es

-- What a lookup finds is an entry for the name, or the default.
find_kind-elim {ℓ} :
    (P : Runes × Kind → Type ℓ) (table : List (Runes × Kind)) (name : Runes)
    → Each P table
    → P (name, find_kind table name) ⊎ (find_kind table name ≡ ident)
unfolding find_kind
find_kind-elim P [] name h = inr refl
find_kind-elim P ((word, k) ∷ rest) name (p, ps) = elim (Bool-cases (same word name)) [
  | inl e ↦ rw e (inl (subst (λ (n : Runes). P (n, k)) ((same_iff word name).0 e) p))
  | inr e ↦ rw e (find_kind-elim P rest name ps)
]

-- Each keyword prints as its entry, and no entry is a mark of the lexer.
abbrev Entry : Runes × Kind → Type 0
Entry (word, k) = (kind_string k ≡ word) × (k ≢ eof) × (k ≢ newline)

keywords-Each : Each Entry keywords
unfolding kind_string
keywords-Each = ground arith

pub lookup_ident-ne : (name : Runes) → (lookup_ident name ≢ eof) × (lookup_ident name ≢ newline)
unfolding lookup_ident
lookup_ident-ne name = elim (find_kind-elim Entry keywords name keywords-Each) [
  | inl found ↦ (found.1, found.2)
  | inr default ↦ (λ e. cc, λ e. cc)
]

lookup_ident-cases :
    (name : Runes) → (lookup_ident name ≡ ident) ⊎ (kind_string (lookup_ident name) ≡ name)
unfolding lookup_ident
lookup_ident-cases name = elim (find_kind-elim Entry keywords name keywords-Each) [
  | inl found ↦ inr found.0
  | inr default ↦ inl default
]

abbrev pub is_keyword : Kind → Bool
is_keyword true_word = true
is_keyword false_word = true
is_keyword null = true
is_keyword if_word = true
is_keyword else_word = true
is_keyword bind = true
is_keyword while = true
is_keyword break = true
is_keyword continue = true
is_keyword unbind = true
is_keyword in_ns = true
is_keyword _ = false

lookup_ident-kind_string : (k : Kind) → is_keyword k ≡ true → lookup_ident (kind_string k) ≡ k
unfolding lookup_ident kind_string
lookup_ident-kind_string true_word h = refl
lookup_ident-kind_string _ h = ground arith

-- The keyword table and the printing of kinds are inverse: a keyword's printed form is looked up
-- as that keyword, and any name is either an ordinary identifier or the printed form of the
-- keyword that the lookup returns.
pub keywords_roundtrip :
    ((k : Kind) → is_keyword k ≡ true → lookup_ident (kind_string k) ≡ k)
    × ((name : Runes) → (lookup_ident name ≡ ident) ⊎ (kind_string (lookup_ident name) ≡ name))
keywords_roundtrip = (lookup_ident-kind_string, lookup_ident-cases)
