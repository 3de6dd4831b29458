-- ===== src/Job/Buffer/Reader.antt =====
-- A reader that follows a buffer of job/growbuf.go from its start: each read begins where the bytes
-- that it has got end, while other goroutines write and close.
use sh.Prelude.{
  ℕ, ◌≡◌, refl, sym, ap, ◌∙◌, ◌⊎◌, inl, inr, Bool, true, false, if◌then◌else◌, ◌↔◌, List, [], ◌∷◌,
  ◌++◌, append_assoc, append-nil, length, take, drop, leb, arith, length-append, Bool-cases, zero,
  suc,
}
use sh.Job.Buffer.{
  GrowBuf, new_grow_buf, write, close, ReadResult, copied, eof, cancelled, blocks, read,
}

pub record Follow : Type 0 where
  pub buf : GrowBuf
  pub got : List ℕ

pub data Moment (s : Follow) : Follow → Type 0 where
  writes : (p : List ℕ) → Moment s (record s { buf = (write s.buf p).0 })
  closes : Moment s (record s { buf = close s.buf })
  reads :
      (done : Bool) (size : ℕ) (p : List ℕ)
      → read s.buf done (length s.got) size ≡ copied p
      → Moment s (record s { got = s.got ++ p })

pub data History : Follow → Type 0 where
  starts : History (record { buf = new_grow_buf; got = [] })
  next : {s t : Follow} → History s → Moment s t → History t

-- What has been read is the beginning of what has been written.
abbrev pub IsBehind : Follow → Type 0
IsBehind s = (rest : List ℕ) × (s.buf.bytes ≡ s.got ++ rest)

drop-append : (xs ys : List ℕ) → drop (length xs) (xs ++ ys) ≡ ys
drop-append [] ys = refl
drop-append (x ∷ xs) ys = drop-append xs ys

take-drop : (n : ℕ) (xs : List ℕ) → xs ≡ take n xs ++ drop n xs
take-drop zero xs = refl
take-drop (suc n) [] = refl
take-drop (suc n) (x ∷ xs) = ap (◌∷◌ x) (take-drop n xs)

write-bytes :
    (b : GrowBuf) (p : List ℕ) → ((write b p).0 ≡ b) ⊎ ((write b p).0.bytes ≡ b.bytes ++ p)
unfolding write
write-bytes b p = elim (Bool-cases b.closed) [ inl h ↦ inl (rw h refl) | inr h ↦ inr (rw h refl) ]

close-bytes : (b : GrowBuf) → (close b).bytes ≡ b.bytes
unfolding close
close-bytes b = elim (Bool-cases b.closed) [ inl h ↦ rw h refl | inr h ↦ rw h refl ]

read-copied :
    (b : GrowBuf) (done : Bool) (offset size : ℕ) (p : List ℕ)
    → read b done offset size ≡ copied p
    → p ≡ take size (drop offset b.bytes)
unfolding read
read-copied b done offset size p h = ground (arith, h)

IsBehind-write :
    (s : Follow) (p : List ℕ) → IsBehind s → IsBehind (record s { buf = (write s.buf p).0 })
IsBehind-write s p (rest, e) = elim (write-bytes s.buf p) [
  | inl same ↦ (rest, ap (λ b. b.bytes) same ∙ e)
  | inr more ↦ (rest ++ p, more ∙ ap (◌++ p) e ∙ append_assoc s.got rest p)
]

IsBehind-read :
    (s : Follow) (done : Bool) (size : ℕ) (p : List ℕ)
    → read s.buf done (length s.got) size ≡ copied p
    → IsBehind s
    → IsBehind (record s { got = s.got ++ p })
IsBehind-read s done size p h (rest, e) =
    let left = ap (λ x. drop (length s.got) x) e ∙ drop-append s.got rest in
    let piece = read-copied s.buf done (length s.got) size p h ∙ ap (take size) left in
    let whole = take-drop size rest ∙ ap (◌++ drop size rest) (sym piece) in
    (drop size rest, e ∙ ap (s.got ++◌) whole ∙ sym (append_assoc s.got p (drop size rest)))

History-IsBehind : {s : Follow} → History s → IsBehind s
History-IsBehind starts = ([], refl)
History-IsBehind (next {s} h (writes p)) = IsBehind-write s p (History-IsBehind h)
History-IsBehind (next {s} h closes) =
    let (rest, e) = History-IsBehind h in (rest, close-bytes s.buf ∙ e)
History-IsBehind (next {s} h (reads done size p e)) =
    IsBehind-read s done size p e (History-IsBehind h)

-- What a read returns where `rest` has not been read yet.
abbrev pub answer : List ℕ → Bool → Bool → ℕ → ReadResult
answer (r ∷ rest) closed done size = copied (take size (r ∷ rest))
answer [] true done size = eof
answer [] false true size = cancelled
answer [] false false size = blocks

by_flags :
    (closed done : Bool) (size : ℕ)
    → (if closed then eof else if done then cancelled else blocks) ≡ answer [] closed done size
by_flags true done size = refl
by_flags false true size = refl
by_flags false false size = refl

read-answer :
    (s : Follow) (done : Bool) (size : ℕ) (rest : List ℕ)
    → s.buf.bytes ≡ s.got ++ rest
    → read s.buf done (length s.got) size ≡ answer rest s.buf.closed done size
unfolding read
read-answer s done size [] e =
    let at_end : leb (length s.buf.bytes) (length s.got) ≡ true =
      ground (arith, ap length e, length-append s.got []) in
    rw at_end (by_flags s.buf.closed done size)
read-answer s done size (r ∷ rest) e =
    let before : leb (length s.buf.bytes) (length s.got) ≡ false =
      ground (arith, ap length e, length-append s.got (r ∷ rest)) in
    rw before
      (ap (λ x. copied (take size x)) (ap (drop (length s.got)) e ∙ drop-append s.got (r ∷ rest)))

answer-eof :
    (rest : List ℕ) (closed done : Bool) (size : ℕ)
    → answer rest closed done size ≡ eof
    → (closed ≡ true) × (rest ≡ [])
answer-eof (r ∷ rest) closed done size h = cc
answer-eof [] true done size h = (refl, refl)
answer-eof [] false true size h = cc
answer-eof [] false false size h = cc

-- A reader that has read from the start, each time where its last read ended, has got the beginning of
-- what has been written, whatever writers and a `Close` did in between, and `rest` is what it has not got.
-- Its next read copies the beginning of `rest`, as much as it asks for, if `rest` is not empty. If it is
-- empty, the read answers EOF on a closed buffer, and on an open one fails if its context is cancelled and
-- blocks if not. So it answers EOF exactly if the buffer is closed and everything has been read.
pub reader-exact :
    {s : Follow} (done : Bool) (size : ℕ)
    → History s
    → (rest : List ℕ) × (s.buf.bytes ≡ s.got ++ rest)
      × (read s.buf done (length s.got) size ≡ answer rest s.buf.closed done size)
      × (read s.buf done (length s.got) size ≡ eof ↔ (s.buf.closed ≡ true) × (s.got ≡ s.buf.bytes))
reader-exact {s} done size h =
    let (rest, e) = History-IsBehind h in
    let is = read-answer s done size rest e in
    (
      rest,
      e,
      is,
      (
        λ end. at_end rest e (answer-eof rest s.buf.closed done size (sym is ∙ end)),
        λ all.
            read-answer s done size [] (sym all.1 ∙ sym (append-nil s.got))
            ∙ ap (λ c. answer [] c done size) all.0,
      ),
    )
  where
    at_end :
        (rest : List ℕ)
        → s.buf.bytes ≡ s.got ++ rest
        → (s.buf.closed ≡ true) × (rest ≡ [])
        → (s.buf.closed ≡ true) × (s.got ≡ s.buf.bytes)
    at_end rest e (closed, none_left) =
        (closed, sym (append-nil s.got) ∙ sym (ap (s.got ++◌) none_left) ∙ sym e)
