-- ===== src/Ncat/Client/Waits.antt =====
-- What a client of ncat can send while its reader has the lock.
use hack.Base.{ℕ, List, ◌∷◌, [], ◌≡◌, refl, ◌∙◌, ◌++◌, subst, append-nil}
use hack.Ncat.Client.{
  Client, Step, connects, Place, Reader, gives_up, idle, writing, holding, marks, types, passes,
  breaks, writes, leaves, closes, looks, reads, prints, overflows, stops,
}

abbrev pub IsHolding : Reader → Type 0
IsHolding idle = ⊥
IsHolding (holding rbuff) = Unit

-- steps all through which the reader has the lock
pub data Held (max : ℕ) (s : Client) : Client → Type 0 where
  from_now : IsHolding s.reader → Held max s s
  and_then : (s1 s2 : Client) → Held max s s1 → Step max s1 s2 → IsHolding s2.reader → Held max s s2

-- the line that has been let through
abbrev pub passed : Place → List (List ℕ)
passed (writing wbuff) = wbuff ∷ []
passed p = []

-- what has been sent, and what is let through
abbrev pub out : Client → List (List ℕ)
out s = s.sent ++ passed s.place

idle_not : (r : Reader) → IsHolding r → r ≡ idle → ⊥
idle_not r h e = subst IsHolding e h

Step-out :
    (max : ℕ) (s s' : Client)
    → Step max s s'
    → IsHolding s.reader
    → IsHolding s'.reader
    → out s' ≡ out s
Step-out max _ _ (connects s e f) h h' = rw e refl
Step-out max _ _ (gives_up s e) h h' = rw e refl
Step-out max _ _ (marks s e f) h h' = absurd (idle_not s.reader h f)
Step-out max _ _ (types s line e) h h' = rw e refl
Step-out max _ _ (passes s w e f g) h h' = absurd (idle_not s.reader h f)
Step-out max _ _ (breaks s w e f g) h h' = absurd (idle_not s.reader h f)
Step-out max _ _ (writes s w e) h h' = rw e (append-nil (s.sent ++ w ∷ []))
Step-out max _ _ (leaves s e f) h h' = absurd (idle_not s.reader h f)
Step-out max _ _ (closes s e) h h' = rw e refl
Step-out max _ _ (looks s e f) h h' = absurd (idle_not s.reader h e)
Step-out max _ _ (reads s r t e f) h h' = refl
Step-out max _ _ (prints s r t x e f g) h h' = absurd h'
Step-out max _ _ (overflows s r t e f) h h' = absurd h'
Step-out max _ _ (stops s r e) h h' = absurd h'

Held-now : (max : ℕ) (s s' : Client) → Held max s s' → IsHolding s'.reader
Held-now max s s' (from_now h) = h
Held-now max s s' (and_then s1 s2 r step h) = h

-- As long as the reader has the lock, a client sends no line but the one that had been let through before the reader
-- took it.
pub Held-out : (max : ℕ) (s s' : Client) → Held max s s' → out s' ≡ out s
Held-out max s s' (from_now h) = refl
Held-out max s s' (and_then s1 s2 r step h) =
    Step-out max s1 s' step (Held-now max s s1 r) h ∙ Held-out max s s1 r
