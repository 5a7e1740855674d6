-- ===== src/Rcu/Tests.antt =====
-- Runs of the model of ksync-rcu/list_rcu.c.
use hack.Base.{ℕ, List, true, arith, [], ◌∷◌, ◌≡◌, some, refl, none, false}
use hack.Base.Int.{pos, negsuc}
use hack.Rcu.Race.{look_borrow, swap_book, borrow_race}
use hack.Rcu.Books.{
  run, State, find_book, add_book, Command, borrow_book, add, return_book, grace_period, borrow_it,
  return_it, reclaim_all, delete_it,
}
use hack.Rcu.Books.Heap.{Sound}
use hack.Rcu.Refine.{run_all, AllAllocate, spec_all, run_all-Refines}
use hack.Rcu.Shelf.{marks}

abbrev empty : State
empty = record { books = []; pending = []; live = [] }

empty-Sound : Sound empty
empty-Sound = record { owned = λ a. omega arith; single = λ a. omega arith }

-- a part of `test_example`, with two addresses for the copies
abbrev history : List Command
history =
    add (some 10) 0 (98 ∷ 49 ∷ []) (106 ∷ 98 ∷ [])
    ∷ borrow_it 0 (some 11) true
    ∷ borrow_it 0 (some 12) true
    ∷ return_it 0 (some 12) false
    ∷ reclaim_all
    ∷ delete_it 0 true
    ∷ []

history-AllAllocate : AllAllocate empty history
unfolding run add_book borrow_book return_book grace_period
history-AllAllocate = omega arith

run_all-Refines_example :
    Sound (run_all empty history).1
    × ((run_all empty history).0 ≡ pos 0 ∷ pos 0 ∷ negsuc 0 ∷ pos 0 ∷ pos 0 ∷ pos 0 ∷ [])
    × ((i : ℕ) → marks i (run_all empty history).1.books ≡ (spec_all (λ i. []) history).1 i)
run_all-Refines_example =
    run_all-Refines empty history (λ i. []) empty-Sound (λ i. refl) history-AllAllocate

abbrev one_book : State
one_book = record {
  books = record { addr = 10; id = 3; name = []; author = []; borrow = 0 } ∷ [];
  pending = [];
  live = 10 ∷ [];
}

look_run :
    look_borrow one_book 3 ≡ some (record { addr = 10; id = 3; name = []; author = []; borrow = 0 })
unfolding look_borrow find_book
look_run = refl

borrow_race_example :
    (s1 : State) × (swap_book one_book
        (record { addr = 10; id = 3; name = []; author = []; borrow = 0 })
        1
        20
      ≡ some s1)
    × (swap_book s1 (record { addr = 10; id = 3; name = []; author = []; borrow = 0 }) 1 21 ≡ none)
borrow_race_example =
    borrow_race one_book 3 20 21 (record { addr = 10; id = 3; name = []; author = []; borrow = 0 })
      (record { owned = λ a. ground arith; single = λ a. ground arith }) refl look_run
