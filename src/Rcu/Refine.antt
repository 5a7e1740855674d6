-- ===== src/Rcu/Refine.antt =====
-- The functions of ksync-rcu/list_rcu.c do what the shelf says, after any history of calls.
use hack.Base.{
  ℕ, Bool, Option, ◌≡◌, true, Distinct, false, refl, some, if◌then◌else◌, arith, ◌==◌, ◌∷◌, none,
  ap, ◌∙◌, List, [], ap₂,
}
use hack.Base.Int.{ℤ}
use hack.Rcu.Books.{
  run, delete_found, return_found, borrow_found, update_book, reclaim, add_book, State, borrow_book,
  Book, return_book, delete_book, grace_period, find_book, Command, add, return_it, borrow_it,
  delete_it, list_replace_rcu, reclaim_all, list_del_rcu,
}
use hack.Rcu.Books.Heap.{addrs, Sound, Allocates, run-Sound, Sound-Distinct}
use hack.Rcu.Shelf.{
  marks, Refines, tail, find_book-none, find_book-some, del-marks, replace-marks, number, spec,
}

reclaim-books : (async : Bool) (addr : ℕ) (s : State) → (reclaim async addr s).books ≡ s.books
unfolding reclaim
reclaim-books true addr s = refl
reclaim-books false addr s = refl

-- A copy of a book that the list has.
update_book-marks :
    (s : State) (id i mark addr : ℕ) (old : Book) (async : Bool)
    → Distinct (addrs s.books)
    → find_book id s.books ≡ some old
    → marks i (update_book s old mark (some addr) async).1.books
      ≡ (if i == id then mark ∷ tail (marks id s.books) else marks i s.books)
unfolding update_book
update_book-marks s id i mark addr old async d e =
    let new_b : Book = record old { addr = addr; borrow = mark } in
    let books = list_replace_rcu old.addr new_b s.books in
    ap (marks i) (reclaim-books async old.addr (record s { books = books; live = addr ∷ s.live }))
    ∙ replace-marks id i s.books old new_b d e (find_book-some id s.books old e).0

borrow_found-Refines :
    (s : State) (id i : ℕ) (kzalloc : Option ℕ) (async : Bool) (found : Option Book)
    → Distinct (addrs s.books)
    → find_book id s.books ≡ found
    → Refines s (borrow_it id kzalloc async) i (borrow_found s found kzalloc async)
unfolding borrow_found update_book
borrow_found-Refines s id i kzalloc async none d e = ground (arith, find_book-none id s.books e)
borrow_found-Refines s id i none async (some b) d e = ground (arith, find_book-some id s.books b e)
borrow_found-Refines s id i (some addr) async (some b) d e =
    ground (arith, find_book-some id s.books b e, update_book-marks s id i 1 addr b async d e)

return_found-Refines :
    (s : State) (id i : ℕ) (kzalloc : Option ℕ) (async : Bool) (found : Option Book)
    → Distinct (addrs s.books)
    → find_book id s.books ≡ found
    → Refines s (return_it id kzalloc async) i (return_found s found kzalloc async)
unfolding return_found update_book
return_found-Refines s id i kzalloc async none d e = ground (arith, find_book-none id s.books e)
return_found-Refines s id i none async (some b) d e = ground (arith, find_book-some id s.books b e)
return_found-Refines s id i (some addr) async (some b) d e =
    ground (arith, find_book-some id s.books b e, update_book-marks s id i 0 addr b async d e)

delete_found-marks :
    (s : State) (id i : ℕ) (async : Bool) (found : Option Book)
    → Distinct (addrs s.books)
    → find_book id s.books ≡ found
    → marks i (delete_found s async found).books
      ≡ (if i == id then tail (marks id s.books) else marks i s.books)
unfolding delete_found
delete_found-marks s id i async none d e = ground (arith, find_book-none id s.books e)
delete_found-marks s id i async (some b) d e =
    ap (marks i) (reclaim-books async b.addr (record s { books = list_del_rcu b.addr s.books }))
    ∙ del-marks id i s.books b d e

-- Each call answers as the shelf does and leaves the shelf as its description says: `borrow_book`
-- succeeds only for a book that is there and not borrowed, `return_book` only for one that is borrowed,
-- both only if there is memory, and no call touches the marks of another number.
pub run-Refines :
    (s : State) (c : Command) (i : ℕ) → Distinct (addrs s.books) → Refines s c i (run s c)
unfolding run add_book borrow_book return_book delete_book grace_period
run-Refines s (add none id name author) i d = ground arith
run-Refines s (add (some addr) id name author) i d = ground arith
run-Refines s (borrow_it id kzalloc async) i d =
    borrow_found-Refines s id i kzalloc async (find_book id s.books) d refl
run-Refines s (return_it id kzalloc async) i d =
    return_found-Refines s id i kzalloc async (find_book id s.books) d refl
run-Refines s (delete_it id async) i d =
    (refl, delete_found-marks s id i async (find_book id s.books) d refl)
run-Refines s reclaim_all i d = ground arith

-- what each call of a history is answered, and the state behind it
abbrev pub run_all : State → List Command → List ℤ × State
run_all s [] = ([], s)
run_all s (c ∷ later) = let rest = run_all (run s c).1 later in ((run s c).0 ∷ rest.0, rest.1)

abbrev pub spec_state : Command → (ℕ → List ℕ) → ℕ → List ℕ
spec_state c m i = if i == number c then (spec c (m (number c))).1 else m i

-- the same by the description of the shelf alone
abbrev pub spec_all : (ℕ → List ℕ) → List Command → List ℤ × (ℕ → List ℕ)
spec_all m [] = ([], m)
spec_all m (c ∷ later) =
    let rest = spec_all (spec_state c m) later in ((spec c (m (number c))).0 ∷ rest.0, rest.1)

-- Each call is given memory that is not in use.
abbrev pub AllAllocate : State → List Command → Type 0
AllAllocate s [] = Unit
AllAllocate s (c ∷ later) = Allocates s c × AllAllocate (run s c).1 later

spec-cong :
    (s : State) (c : Command) (m : ℕ → List ℕ)
    → ((i : ℕ) → marks i s.books ≡ m i)
    → Sound s
    → ((run s c).0 ≡ (spec c (m (number c))).0)
      × ((i : ℕ) → marks i (run s c).1.books ≡ spec_state c m i)
spec-cong s c m e v =
    let d = Sound-Distinct s v in
    (
      (run-Refines s c 0 d).0 ∙ ap (λ ms. (spec c ms).0) (e (number c)),
      λ i.
          (run-Refines s c i d).1
          ∙ ap₂ (λ ms ns. if i == number c then (spec c ms).1 else ns) (e (number c)) (e i),
    )

-- After any history of calls from a sound state the memory is sound, each call has been answered as the
-- shelf answers it, and the list holds of every number the marks that the shelf has when it follows the
-- same calls by their description alone.
pub run_all-Refines :
    (s : State) (cs : List Command) (m : ℕ → List ℕ)
    → Sound s
    → ((i : ℕ) → marks i s.books ≡ m i)
    → AllAllocate s cs
    → Sound (run_all s cs).1
      × ((run_all s cs).0 ≡ (spec_all m cs).0)
      × ((i : ℕ) → marks i (run_all s cs).1.books ≡ (spec_all m cs).1 i)
run_all-Refines s [] m v e u = (v, refl, e)
run_all-Refines s (c ∷ later) m v e u =
    let now = spec-cong s c m e v in
    let rest = run_all-Refines (run s c).1 later (spec_state c m) (run-Sound s c v u.0) now.1 u.1 in
    (rest.0, ap₂ ◌∷◌ now.0 rest.1, rest.2)
