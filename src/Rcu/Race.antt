-- ===== src/Rcu/Race.antt =====
-- Two callers of `borrow_book` of ksync-rcu/list_rcu.c at once. Its walk and its test stand in a read
-- section of RCU, which does not exclude another updater; only the exchange of the nodes is under
-- `books_lock`. A node that was taken out of the list has LIST_POISON2 as its `prev`, through which
-- `list_replace_rcu` would write: that is `none`.
use hack.Base.{
  ℕ, Bool, List, Option, ◌≡◌, false, some, none, arith, true, ◌∷◌, if◌then◌else◌, refl, [], ◌>>=◌,
  ◌==◌, not,
}
use hack.Base.Int.{ℤ, negsuc, pos}
use hack.Rcu.Books.{
  State, Book, borrow_book, find_book, list_replace_rcu, reclaim, borrow_found, update_book,
}
use hack.Rcu.Books.Heap.{Sound, occurs, addrs, replace-occurs, del-occurs}

-- the walk and the test
unfoldable pub free_book : Option Book → Option Book
free_book none = none
free_book (some b) = if not (b.borrow == 0) then none else some b

unfoldable pub look_borrow : State → ℕ → Option Book
unfolding free_book
look_borrow s id = free_book (find_book id s.books)

-- whether a node is in the list
unfoldable pub is_linked : ℕ → List Book → Bool
is_linked addr [] = false
is_linked addr (b ∷ later) = if b.addr == addr then true else is_linked addr later

-- the copy and the exchange under the lock
unfoldable pub swap_book : State → Book → ℕ → ℕ → Option State
unfolding is_linked
swap_book s old_b borrow addr =
    let new_b : Book = record old_b { addr = addr; borrow = borrow } in
    let books = list_replace_rcu old_b.addr new_b s.books in
    if is_linked old_b.addr s.books
    then some (record s { books = books; live = addr ∷ s.live })
    else none

is_linked-occurs :
    (addr : ℕ) (books : List Book)
    → is_linked addr books ≡ (if occurs addr (addrs books) == 0 then false else true)
unfolding is_linked
is_linked-occurs addr [] = refl
is_linked-occurs addr (b ∷ later) = ground (arith, is_linked-occurs addr later)

find_book-linked :
    (id : ℕ) (books : List Book) (b : Book)
    → find_book id books ≡ some b
    → is_linked b.addr books ≡ true
unfolding find_book is_linked
find_book-linked id [] b e = cc
find_book-linked id (x ∷ later) b e = ground (arith, find_book-linked id later b)

free_book-some : (r : Option Book) (b : Book) → free_book r ≡ some b → (r ≡ some b) × (b.borrow ≡ 0)
unfolding free_book
free_book-some none b e = cc
free_book-some (some x) b e = ground arith

-- the other half of `borrow_book`, with memory at an address
unfoldable pub after_look : Bool → ℕ → State → Option Book → Option (ℤ × State)
after_look async addr s none = some (negsuc 0, s)
after_look async addr s (some b) = do
  s1 ← swap_book s b 1 addr
  some (pos 0, reclaim async b.addr s1)

look-swap_found :
    (s : State) (id addr : ℕ) (async : Bool) (r : Option Book)
    → find_book id s.books ≡ r
    → after_look async addr s (free_book r) ≡ some (borrow_found s r (some addr) async)
unfolding after_look free_book borrow_found swap_book update_book
look-swap_found s id addr async none e = refl
look-swap_found s id addr async (some b) e = ground (arith, find_book-linked id s.books b e)

-- A caller alone, with memory, finds its book still in the list when it comes to the exchange: the two
-- halves of its call make up the whole.
pub look-swap :
    (s : State) (id addr : ℕ) (async : Bool)
    → after_look async addr s (look_borrow s id) ≡ some (borrow_book s id (some addr) async)
unfolding look_borrow borrow_book
look-swap s id addr async = look-swap_found s id addr async (find_book id s.books) refl

-- Of two callers that both have looked for a book before the first of them exchanges it, both have found
-- it free, and the second one writes through the poisoned pointer of a node that is gone.
pub borrow_race :
    (s : State) (id addr addr' : ℕ) (b : Book)
    → Sound s
    → occurs addr s.live ≡ 0
    → look_borrow s id ≡ some b
    → (s1 : State) × (swap_book s b 1 addr ≡ some s1) × (swap_book s1 b 1 addr' ≡ none)
unfolding look_borrow swap_book
borrow_race s id addr addr' b v unused e =
    let new_b : Book = record b { addr = addr; borrow = 1 } in
    let books = list_replace_rcu b.addr new_b s.books in
    let found = free_book-some (find_book id s.books) b e in
    let linked = find_book-linked id s.books b found.0 in
    let gone : is_linked b.addr books ≡ false = ground (
      arith,
      is_linked-occurs b.addr books,
      replace-occurs id b.addr s.books b new_b found.0,
      del-occurs id b.addr s.books b found.0,
      v.owned b.addr,
      v.single b.addr,
      unused,
    ) in
    (record s { books = books; live = addr ∷ s.live }, rw linked refl, rw gone refl)
