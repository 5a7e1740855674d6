-- ===== src/Rcu/Books/Heap.antt =====
-- The memory of ksync-rcu/list_rcu.c: what is allocated is in the list or waits to be freed.
use hack.Base.{
  ℕ, List, ◌<◌, ◌≤◌, Option, ◌≡◌, ◌∷◌, [], Distinct, Fresh, some, ◌+◌, if◌then◌else◌, none, arith,
  ◌==◌, suc, Bool, true, Bool-cases, false, inl, inr, refl,
}
use hack.Rcu.Books.{
  find_book, free_all, kfree, State, list_del_rcu, list_replace_rcu, Command, Book, add, borrow_it,
  return_it, delete_it, reclaim_all, run, return_found, borrow_found, delete_found, update_book,
  add_book, reclaim, borrow_book, return_book, delete_book, grace_period,
}

abbrev pub occurs : ℕ → List ℕ → ℕ
occurs a [] = 0
occurs a (x ∷ xs) = if x == a then suc (occurs a xs) else occurs a xs

abbrev pub addrs : List Book → List ℕ
addrs [] = []
addrs (b ∷ later) = b.addr ∷ addrs later

-- Every address that is allocated is that of one node, which is in the list or waits for a grace period,
-- and no other node is there.
pub record Sound (s : State) : Type 0 where
  pub owned : (a : ℕ) → occurs a s.live ≡ occurs a (addrs s.books) + occurs a s.pending
  pub single : (a : ℕ) → occurs a s.live ≤ 1

-- `kzalloc` gives memory that is not allocated.
abbrev pub Unused : State → Option ℕ → Type 0
Unused s none = Unit
Unused s (some addr) = occurs addr s.live ≡ 0

abbrev pub Allocates : State → Command → Type 0
Allocates s (add kzalloc id name author) = Unused s kzalloc
Allocates s (borrow_it id kzalloc async) = Unused s kzalloc
Allocates s (return_it id kzalloc async) = Unused s kzalloc
Allocates s (delete_it id async) = Unit
Allocates s reclaim_all = Unit

Fresh-none : (a : ℕ) (xs : List ℕ) → occurs a xs ≡ 0 → Fresh a xs
Fresh-none a [] h = tt
Fresh-none a (x ∷ xs) h = (ground arith, Fresh-none a xs (ground arith))

-- What occurs once at most stands apart.
pub Distinct-single : (xs : List ℕ) → ((a : ℕ) → occurs a xs ≤ 1) → Distinct xs
Distinct-single [] h = tt
Distinct-single (x ∷ xs) h =
    (Fresh-none x xs (ground (arith, h x)), Distinct-single xs (λ a. ground (arith, h a)))

kfree-occurs :
    (addr a : ℕ) (live : List ℕ)
    → 0 < occurs addr live
    → occurs a (kfree addr live) + (if a == addr then 1 else 0) ≡ occurs a live
unfolding kfree
kfree-occurs addr a [] h = absurd (omega arith)
kfree-occurs addr a (x ∷ live) h = ground (arith, kfree-occurs addr a live)

free_all-occurs :
    (a : ℕ) (pending live : List ℕ)
    → ((b : ℕ) → occurs b pending ≤ occurs b live)
    → occurs a (free_all pending live) + occurs a pending ≡ occurs a live
unfolding free_all
free_all-occurs a [] live h = omega arith
free_all-occurs a (addr ∷ later) live h = ground (
  arith,
  h addr,
  kfree-occurs addr a live,
  free_all-occurs a later (kfree addr live)
      (λ b. ground (arith, h b, h addr, kfree-occurs addr b live)),
)

pub replace-occurs :
    (id a : ℕ) (books : List Book) (old new_b : Book)
    → find_book id books ≡ some old
    → occurs a (addrs (list_replace_rcu old.addr new_b books)) + (if a == old.addr then 1 else 0)
      ≡ occurs a (addrs books) + (if a == new_b.addr then 1 else 0)
unfolding find_book list_replace_rcu
replace-occurs id a [] old new_b e = cc
replace-occurs id a (b ∷ later) old new_b e = ground (arith, replace-occurs id a later old new_b)

pub del-occurs :
    (id a : ℕ) (books : List Book) (old : Book)
    → find_book id books ≡ some old
    → occurs a (addrs (list_del_rcu old.addr books)) + (if a == old.addr then 1 else 0)
      ≡ occurs a (addrs books)
unfolding find_book list_del_rcu
del-occurs id a [] old e = cc
del-occurs id a (b ∷ later) old e = ground (arith, del-occurs id a later old)

-- A copy takes the place of a node that the list has, and the node goes its way to be freed.
update_book-Sound :
    (s : State) (id mark addr : ℕ) (old : Book) (async : Bool)
    → Sound s
    → occurs addr s.live ≡ 0
    → find_book id s.books ≡ some old
    → Sound (update_book s old mark (some addr) async).1
unfolding update_book reclaim
update_book-Sound s id mark addr old true v unused e =
    let new_b : Book = record old { addr = addr; borrow = mark } in
    record {
      owned = λ a. ground (arith, v.owned a, replace-occurs id a s.books old new_b e);
      single = λ a. ground (arith, v.single a, unused);
    }
update_book-Sound s id mark addr old false v unused e =
    let new_b : Book = record old { addr = addr; borrow = mark } in
    let there : 0 < occurs old.addr (addr ∷ s.live) =
      ground (arith, v.owned old.addr, del-occurs id old.addr s.books old e) in
    record {
      owned = λ a. ground (
        arith,
        v.owned a,
        replace-occurs id a s.books old new_b e,
        kfree-occurs old.addr a (addr ∷ s.live) there,
      );
      single =
          λ a. ground (arith, v.single a, unused, kfree-occurs old.addr a (addr ∷ s.live) there);
    }

delete_found-Sound :
    (s : State) (id : ℕ) (async : Bool) (found : Option Book)
    → Sound s
    → find_book id s.books ≡ found
    → Sound (delete_found s async found)
unfolding delete_found reclaim
delete_found-Sound s id async none v e = v
delete_found-Sound s id true (some old) v e = record {
  owned = λ a. ground (arith, v.owned a, del-occurs id a s.books old e);
  single = v.single;
}
delete_found-Sound s id false (some old) v e =
    let there : 0 < occurs old.addr s.live =
      ground (arith, v.owned old.addr, del-occurs id old.addr s.books old e) in
    record {
      owned = λ a.
          ground
            (arith, v.owned a, del-occurs id a s.books old e, kfree-occurs old.addr a s.live there);
      single = λ a. ground (arith, v.single a, kfree-occurs old.addr a s.live there);
    }

borrow_found-Sound :
    (s : State) (id : ℕ) (kzalloc : Option ℕ) (async : Bool) (found : Option Book)
    → Sound s
    → Unused s kzalloc
    → find_book id s.books ≡ found
    → Sound (borrow_found s found kzalloc async).1
unfolding borrow_found
borrow_found-Sound s id kzalloc async none v u e = v
borrow_found-Sound s id none async (some b) v u e = elim (Bool-cases (b.borrow == 0)) [
  | inl z ↦ rw z (unfold update_book in v)
  | inr nz ↦ rw nz v
]
borrow_found-Sound s id (some addr) async (some b) v u e = elim (Bool-cases (b.borrow == 0)) [
  | inl z ↦ rw z (update_book-Sound s id 1 addr b async v u e)
  | inr nz ↦ rw nz v
]

return_found-Sound :
    (s : State) (id : ℕ) (kzalloc : Option ℕ) (async : Bool) (found : Option Book)
    → Sound s
    → Unused s kzalloc
    → find_book id s.books ≡ found
    → Sound (return_found s found kzalloc async).1
unfolding return_found
return_found-Sound s id kzalloc async none v u e = v
return_found-Sound s id none async (some b) v u e = elim (Bool-cases (b.borrow == 0)) [
  | inl z ↦ rw z v
  | inr nz ↦ rw nz (unfold update_book in v)
]
return_found-Sound s id (some addr) async (some b) v u e = elim (Bool-cases (b.borrow == 0)) [
  | inl z ↦ rw z v
  | inr nz ↦ rw nz (update_book-Sound s id 0 addr b async v u e)
]

-- Every call keeps the memory sound: no node is leaked, and none is freed that is in the list, or twice.
pub run-Sound : (s : State) (c : Command) → Sound s → Allocates s c → Sound (run s c).1
unfolding run add_book borrow_book return_book delete_book grace_period
run-Sound s (add none id name author) v u = v
run-Sound s (add (some addr) id name author) v u = record {
  owned = λ a. ground (arith, v.owned a, u);
  single = λ a. ground (arith, v.single a, u);
}
run-Sound s (borrow_it id kzalloc async) v u =
    borrow_found-Sound s id kzalloc async (find_book id s.books) v u refl
run-Sound s (return_it id kzalloc async) v u =
    return_found-Sound s id kzalloc async (find_book id s.books) v u refl
run-Sound s (delete_it id async) v u = delete_found-Sound s id async (find_book id s.books) v refl
run-Sound s reclaim_all v u =
    let freed = λ (a : ℕ). free_all-occurs a s.pending s.live (λ b. omega (arith, v.owned b)) in
    record {
      owned = λ a. omega (arith, freed a, v.owned a);
      single = λ a. omega (arith, freed a, v.single a);
    }

pub Sound-Distinct : (s : State) → Sound s → Distinct (addrs s.books)
Sound-Distinct s v = Distinct-single (addrs s.books) (λ a. omega (arith, v.owned a, v.single a))
