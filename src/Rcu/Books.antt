-- ===== src/Rcu/Books.antt =====
-- The functions of ksync-rcu/list_rcu.c, each run without another between its steps. A node is never
-- written once it is in the list, so the list is that of the nodes' contents, each with its address.
-- What `kzalloc` gives, an address or nothing, is an argument.
pub mod Heap
use hack.Base.{
  ℕ, [], Bool, Option, List, ◌∷◌, none, some, suc, true, zero, if◌then◌else◌, false, not, ◌==◌,
}
use hack.Base.Int.{ℤ, pos, negsuc}

-- `struct book`, with the address of the node
pub record Book : Type 0 where
  pub addr : ℕ
  pub id : ℕ
  pub name : List ℕ
  pub author : List ℕ
  pub borrow : ℕ

-- `books`, the nodes that wait for a grace period to be freed, and the memory that is allocated
pub record State : Type 0 where
  pub books : List Book
  pub pending : List ℕ
  pub live : List ℕ

-- `strncpy` into an array of `n` bytes: no zero is left at the end of a text of `n` bytes or more
unfoldable pub strncpy : ℕ → List ℕ → List ℕ
strncpy zero src = []
strncpy (suc n) [] = 0 ∷ strncpy n []
strncpy (suc n) (c ∷ src) = c ∷ strncpy n src

unfoldable pub add_book : State → Option ℕ → ℕ → List ℕ → List ℕ → State
unfolding strncpy
add_book s none id name author = s
add_book s (some addr) id name author =
    let b : Book = record {
      addr = addr;
      id = id;
      name = strncpy 64 name;
      author = strncpy 64 author;
      borrow = 0;
    } in
    record s { books = b ∷ s.books; live = addr ∷ s.live }

-- the walk over the list to the first book with a number
unfoldable pub find_book : ℕ → List Book → Option Book
find_book id [] = none
find_book id (b ∷ later) = if b.id == id then some b else find_book id later

-- `list_replace_rcu` puts a node in the place of another.
unfoldable pub list_replace_rcu : ℕ → Book → List Book → List Book
list_replace_rcu old new_b [] = []
list_replace_rcu old new_b (b ∷ later) =
    if b.addr == old then new_b ∷ later else b ∷ list_replace_rcu old new_b later

unfoldable pub list_del_rcu : ℕ → List Book → List Book
list_del_rcu old [] = []
list_del_rcu old (b ∷ later) = if b.addr == old then later else b ∷ list_del_rcu old later

unfoldable pub kfree : ℕ → List ℕ → List ℕ
kfree addr [] = []
kfree addr (x ∷ live) = if x == addr then live else x ∷ kfree addr live

-- `call_rcu`, or `synchronize_rcu` and `kfree`
unfoldable pub reclaim : Bool → ℕ → State → State
unfolding kfree
reclaim true addr s = record s { pending = addr ∷ s.pending }
reclaim false addr s = record s { live = kfree addr s.live }

-- `book_reclaim_callback` for all nodes that wait, at the end of a grace period
unfoldable pub free_all : List ℕ → List ℕ → List ℕ
unfolding kfree
free_all [] live = live
free_all (addr ∷ later) live = free_all later (kfree addr live)

unfoldable pub grace_period : State → State
unfolding free_all
grace_period s = record s { pending = []; live = free_all s.pending s.live }

-- The copy of a book, with another mark, takes its place.
unfoldable pub update_book : State → Book → ℕ → Option ℕ → Bool → ℤ × State
unfolding list_replace_rcu reclaim
update_book s old_b borrow none async = (negsuc 0, s)
update_book s old_b borrow (some addr) async =
    let new_b : Book = record old_b { addr = addr; borrow = borrow } in
    let books = list_replace_rcu old_b.addr new_b s.books in
    (pos 0, reclaim async old_b.addr (record s { books = books; live = addr ∷ s.live }))

unfoldable pub borrow_found : State → Option Book → Option ℕ → Bool → ℤ × State
unfolding update_book
borrow_found s none kzalloc async = (negsuc 0, s)
borrow_found s (some b) kzalloc async =
    if not (b.borrow == 0) then (negsuc 0, s) else update_book s b 1 kzalloc async

unfoldable pub borrow_book : State → ℕ → Option ℕ → Bool → ℤ × State
unfolding borrow_found find_book
borrow_book s id kzalloc async = borrow_found s (find_book id s.books) kzalloc async

unfoldable pub return_found : State → Option Book → Option ℕ → Bool → ℤ × State
unfolding update_book
return_found s none kzalloc async = (negsuc 0, s)
return_found s (some b) kzalloc async =
    if b.borrow == 0 then (negsuc 0, s) else update_book s b 0 kzalloc async

unfoldable pub return_book : State → ℕ → Option ℕ → Bool → ℤ × State
unfolding return_found find_book
return_book s id kzalloc async = return_found s (find_book id s.books) kzalloc async

unfoldable pub is_borrowed_book : State → ℕ → ℤ
unfolding find_book
is_borrowed_book s id = elim (find_book id s.books) [ none ↦ negsuc 0 | some b ↦ pos b.borrow ]

unfoldable pub delete_found : State → Bool → Option Book → State
unfolding list_del_rcu reclaim
delete_found s async none = s
delete_found s async (some b) =
    reclaim async b.addr (record s { books = list_del_rcu b.addr s.books })

unfoldable pub delete_book : State → ℕ → Bool → State
unfolding find_book delete_found
delete_book s id async = delete_found s async (find_book id s.books)

-- the calls of this module, with what `kzalloc` gives
pub data Command : Type 0 where
  add : Option ℕ → ℕ → List ℕ → List ℕ → Command
  borrow_it : ℕ → Option ℕ → Bool → Command
  return_it : ℕ → Option ℕ → Bool → Command
  delete_it : ℕ → Bool → Command
  reclaim_all : Command

unfoldable pub run : State → Command → ℤ × State
unfolding add_book borrow_book return_book delete_book grace_period
run s (add kzalloc id name author) = (pos 0, add_book s kzalloc id name author)
run s (borrow_it id kzalloc async) = borrow_book s id kzalloc async
run s (return_it id kzalloc async) = return_book s id kzalloc async
run s (delete_it id async) = (pos 0, delete_book s id async)
run s reclaim_all = (pos 0, grace_period s)
