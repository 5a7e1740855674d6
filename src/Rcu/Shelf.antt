-- ===== src/Rcu/Shelf.antt =====
-- What the module ksync-rcu/list_rcu.c promises to its callers: a shelf that knows of each number the
-- marks of the books with it, the latest book first. Addresses and other contents are forgotten.
use hack.Base.{
  ℕ, Option, List, some, ◌∷◌, none, [], Distinct, Fresh, ◌≡◌, if◌then◌else◌, ◌≢◌, suc, ◌==◌, zero,
  arith, refl,
}
use hack.Base.Int.{ℤ, pos, negsuc}
use hack.Rcu.Books.{
  find_book, State, Command, list_del_rcu, list_replace_rcu, add, Book, borrow_it, return_it,
  delete_it, reclaim_all,
}
use hack.Rcu.Books.Heap.{addrs}

abbrev pub marks : ℕ → List Book → List ℕ
marks id [] = []
marks id (b ∷ later) = if b.id == id then b.borrow ∷ marks id later else marks id later

abbrev pub tail : List ℕ → List ℕ
tail [] = []
tail (x ∷ xs) = xs

-- a new mark for the first book, if there is memory
abbrev pub remark : Option ℕ → ℕ → List ℕ → ℤ × List ℕ
remark none mark ms = (negsuc 0, ms)
remark (some addr) mark ms = (pos 0, mark ∷ tail ms)

abbrev pub spec_borrow : Option ℕ → List ℕ → ℤ × List ℕ
spec_borrow kzalloc [] = (negsuc 0, [])
spec_borrow kzalloc (zero ∷ ms) = remark kzalloc 1 (0 ∷ ms)
spec_borrow kzalloc (suc n ∷ ms) = (negsuc 0, suc n ∷ ms)

abbrev pub spec_return : Option ℕ → List ℕ → ℤ × List ℕ
spec_return kzalloc [] = (negsuc 0, [])
spec_return kzalloc (zero ∷ ms) = (negsuc 0, 0 ∷ ms)
spec_return kzalloc (suc n ∷ ms) = remark kzalloc 0 (suc n ∷ ms)

abbrev pub spec_add : Option ℕ → List ℕ → List ℕ
spec_add none ms = ms
spec_add (some addr) ms = 0 ∷ ms

-- the answer to a call, and the marks of its number behind it
abbrev pub spec : Command → List ℕ → ℤ × List ℕ
spec (add kzalloc id name author) ms = (pos 0, spec_add kzalloc ms)
spec (borrow_it id kzalloc async) ms = spec_borrow kzalloc ms
spec (return_it id kzalloc async) ms = spec_return kzalloc ms
spec (delete_it id async) ms = (pos 0, tail ms)
spec reclaim_all ms = (pos 0, ms)

abbrev pub number : Command → ℕ
number (add kzalloc id name author) = id
number (borrow_it id kzalloc async) = id
number (return_it id kzalloc async) = id
number (delete_it id async) = id
number reclaim_all = 0

-- the marks behind the call, of any number
abbrev pub Refines : State → Command → ℕ → ℤ × State → Type 0
Refines s c i r =
    (r.0 ≡ (spec c (marks (number c) s.books)).0)
    × (marks i r.1.books
        ≡ (if i == number c then (spec c (marks (number c) s.books)).1 else marks i s.books))

pub find_book-none : (id : ℕ) (books : List Book) → find_book id books ≡ none → marks id books ≡ []
unfolding find_book
find_book-none id [] e = refl
find_book-none id (b ∷ later) e = ground (arith, find_book-none id later)

pub find_book-some :
    (id : ℕ) (books : List Book) (b : Book)
    → find_book id books ≡ some b
    → (b.id ≡ id) × (marks id books ≡ b.borrow ∷ tail (marks id books))
unfolding find_book
find_book-some id [] b e = cc
find_book-some id (x ∷ later) b e = ground (arith, find_book-some id later b)

pub find_book-Fresh :
    (a id : ℕ) (books : List Book) (b : Book)
    → Fresh a (addrs books)
    → find_book id books ≡ some b
    → a ≢ b.addr
unfolding find_book
find_book-Fresh a id [] b h e = cc
find_book-Fresh a id (x ∷ later) b h e = ground (arith, find_book-Fresh a id later b h.1, h.0)

pub replace-marks :
    (id i : ℕ) (books : List Book) (old new_b : Book)
    → Distinct (addrs books)
    → find_book id books ≡ some old
    → new_b.id ≡ id
    → marks i (list_replace_rcu old.addr new_b books)
      ≡ (if i == id then new_b.borrow ∷ tail (marks id books) else marks i books)
unfolding find_book list_replace_rcu
replace-marks id i [] old new_b d e n = cc
replace-marks id i (b ∷ later) old new_b d e n =
    ground (arith, replace-marks id i later old new_b d.1, find_book-Fresh b.addr id later old d.0)

pub del-marks :
    (id i : ℕ) (books : List Book) (old : Book)
    → Distinct (addrs books)
    → find_book id books ≡ some old
    → marks i (list_del_rcu old.addr books)
      ≡ (if i == id then tail (marks id books) else marks i books)
unfolding find_book list_del_rcu
del-marks id i [] old d e = cc
del-marks id i (b ∷ later) old d e =
    ground (arith, del-marks id i later old d.1, find_book-Fresh b.addr id later old d.0)
