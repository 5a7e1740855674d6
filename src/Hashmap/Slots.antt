-- ===== src/Hashmap/Slots.antt =====
-- Which slots of the map of hashmap/main.c are read and written.
use hack.Base.{
  ℕ, zero, suc, List, ◌∷◌, [], ◌≡◌, refl, true, false, some, ◌>>=◌, Option, if◌then◌else◌, set,
  Bool, ap, ◌==◌, ◌∙◌, subst, sym, ne→==-false, Bool-cases, arith, inl, eq→==, inr, ==→eq, ne→==,
}
use hack.Base.Fault.{
  Whenever, Whenever-eq, Whenever-bind, Whenever-any, Whenever-self, bind_cong, Runs,
}
use hack.Base.Int.{ℤ, pos, negsuc}
use hack.Hashmap.{Map, Key, map_set, slot_at, map_get, load, get_hash, store}

abbrev pub same : ℤ → ℤ → Bool
same (pos a) (pos b) = a == b
same a b = false

==-suc : (n k : ℕ) → (suc n == suc k) ≡ (n == k)
==-suc n k = elim (Bool-cases (n == k)) [
  | inl e ↦ eq→== (suc n) (suc k) (ap suc (==→eq n k e)) ∙ sym e
  | inr e ↦ ne→==-false (suc n) (suc k) (λ f. ne→== n k e (omega arith)) ∙ sym e
]

slot_at-set :
    (map : List Map) (n k : ℕ) (m old : Map)
    → slot_at map n ≡ some old
    → slot_at (set map n m) k ≡ (if n == k then some m else slot_at map k)
slot_at-set [] n k m old e = absurd (subst (Runs (λ _. Unit {0})) (sym e) tt)
slot_at-set (x ∷ map) zero zero m old e = refl
slot_at-set (x ∷ map) zero (suc k) m old e = rw (ne→==-false 0 (suc k) (omega arith)) refl
slot_at-set (x ∷ map) (suc n) zero m old e = rw (ne→==-false (suc n) 0 (omega arith)) refl
slot_at-set (x ∷ map) (suc n) (suc k) m old e = rw (==-suc n k) (slot_at-set map n k m old e)

load-set :
    (map : List Map) (n : ℕ) (m old : Map)
    → slot_at map n ≡ some old
    → (h' : ℤ) → load (set map n m) h' ≡ (if same (pos n) h' then some m else load map h')
load-set map n m old e (pos k) = slot_at-set map n k m old e
load-set map n m old e (negsuc k) = refl

load-store :
    (map : List Map) (h : ℤ) (m : Map)
    → Whenever
        (λ map'. (h' : ℤ) → load map' h' ≡ (if same h h' then some m else load map h'))
        (store map h m)
load-store map (negsuc n) m = tt
load-store map (pos n) m =
    Whenever-bind (λ old. slot_at map n ≡ some old) _ (slot_at map n) _ (Whenever-self _)
      λ old e. load-set map n m old e

-- the value in a slot
abbrev pub value_of : Option Map → Option ℤ
value_of slot = do m ← slot; some m.value

value_of-if :
    (b : Bool) (m : Map) (slot : Option Map)
    → value_of (if b then some m else slot) ≡ (if b then some m.value else value_of slot)
value_of-if true m slot = refl
value_of-if false m slot = refl

-- After a store that stays inside the array, a key is found with the value stored if it has the same hash as the key that
-- was stored, whatever the keys are, and with the value that its slot had before if it has another.
pub map_get-map_set :
    (map map' : List Map) (key key' : Key) (value h : ℤ)
    → map_set map key value ≡ some (h, map')
    → map_get map' key'
      ≡ (get_hash key' >>= λ h'. if same h h' then some value else value_of (load map h'))
unfolding map_set map_get
map_get-map_set map map' key key' value h e =
    Whenever-eq
      (λ r.
        (get_hash key' >>= λ h'. value_of (load r.1 h'))
        ≡ (get_hash key' >>= λ h'. if same r.0 h' then some value else value_of (load map h')))
      (map_set map key value) (h, map')
      (Whenever-bind (λ _. Unit {0}) _ (get_hash key) _ (Whenever-any _)
        λ hash u.
          Whenever-bind _ _ (store map hash (record { assigned = true; key = key; value = value }))
            _ (load-store map hash _)
            λ r law.
              bind_cong (get_hash key') _ _
                λ h'. ap value_of (law h') ∙ value_of-if (same hash h') _ (load map h'))
      e
