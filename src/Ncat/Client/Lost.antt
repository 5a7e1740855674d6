-- ===== src/Ncat/Client/Lost.antt =====
-- What a client of ncat does after it has lost its connection.
use hack.Base.{ℕ, List, ◌≡◌, refl, true, false, Bool, subst, ◌∙◌}
use hack.Ncat.Client.{
  Client, Step, Reach, Place, connecting, ended, started, writing, next, connects, here, gives_up,
  marks, types, connected, passes, typing, breaks, checking, writes, leaves, leaving, closes,
  closing, looks, reads, prints, overflows, stops,
}
use hack.Ncat.{client_message}

-- the places where a client with a closed socket can be
abbrev pub AtEnd : Place → Type 0
AtEnd connecting = Unit
AtEnd ended = Unit
AtEnd p = ⊥

-- a closed socket is only there at the end
abbrev Closing : Bool → Place → Type 0
Closing true p = AtEnd p
Closing false p = Unit

abbrev IsSound : Client → Type 0
IsSound s = Closing s.closed s.place

open_place :
    (c : Bool) (p q : Place) → Closing c p → p ≡ q → (AtEnd q → ⊥) → (r : Place) → Closing c r
open_place true p q h e ne r = absurd (ne (subst AtEnd e h))
open_place false p q h e ne r = tt

ended_lem : (c : Bool) → Closing c ended
ended_lem true = tt
ended_lem false = tt

Step-IsSound : (max : ℕ) (s s' : Client) → Step max s s' → IsSound s → IsSound s'
Step-IsSound max _ _ (connects s e f) h = rw f tt
Step-IsSound max _ _ (gives_up s e) h = ended_lem s.closed
Step-IsSound max _ _ (marks s e f) h = open_place s.closed s.place connected h e (λ x. x) typing
Step-IsSound max _ _ (types s line e) h =
    open_place s.closed s.place typing h e (λ x. x) (checking (client_message max line))
Step-IsSound max _ _ (passes s w e f g) h =
    open_place s.closed s.place (checking w) h e (λ x. x) (writing w)
Step-IsSound max _ _ (breaks s w e f g) h =
    open_place s.closed s.place (checking w) h e (λ x. x) leaving
Step-IsSound max _ _ (writes s w e) h = open_place s.closed s.place (writing w) h e (λ x. x) typing
Step-IsSound max _ _ (leaves s e f) h = open_place s.closed s.place leaving h e (λ x. x) closing
Step-IsSound max _ _ (closes s e) h = tt
Step-IsSound max _ _ (looks s e f) h = h
Step-IsSound max _ _ (reads s r t e f) h = h
Step-IsSound max _ _ (prints s r t x e f g) h = h
Step-IsSound max _ _ (overflows s r t e f) h = h
Step-IsSound max _ _ (stops s r e) h = h

Reach-IsSound : (max : ℕ) (s s' : Client) → Reach max s s' → IsSound s → IsSound s'
Reach-IsSound max s s' here h = h
Reach-IsSound max s s' (next s1 s2 r step) h =
    Step-IsSound max s1 s' step (Reach-IsSound max s s1 r h)

-- what a step leaves alone once the socket is closed
record IsLost (s s' : Client) : Type 0 where
  pub still : s'.closed ≡ true
  pub same : s'.sent ≡ s.sent

lost_already : (s : Client) (w : List ℕ) → IsSound s → s.closed ≡ true → s.place ≡ writing w → ⊥
lost_already s w h c e = subst AtEnd e (subst (λ b. Closing b s.place) c h)

Step-IsLost : (max : ℕ) (s s' : Client) → Step max s s' → IsSound s → s.closed ≡ true → IsLost s s'
Step-IsLost max _ _ (connects s e f) h c = record { still = c; same = refl }
Step-IsLost max _ _ (gives_up s e) h c = record { still = c; same = refl }
Step-IsLost max _ _ (marks s e f) h c = record { still = c; same = refl }
Step-IsLost max _ _ (types s line e) h c = record { still = c; same = refl }
Step-IsLost max _ _ (passes s w e f g) h c = record { still = c; same = refl }
Step-IsLost max _ _ (breaks s w e f g) h c = record { still = c; same = refl }
Step-IsLost max _ _ (writes s w e) h c = absurd (lost_already s w h c e)
Step-IsLost max _ _ (leaves s e f) h c = record { still = c; same = refl }
Step-IsLost max _ _ (closes s e) h c = record { still = refl; same = refl }
Step-IsLost max _ _ (looks s e f) h c = record { still = c; same = refl }
Step-IsLost max _ _ (reads s r t e f) h c = record { still = c; same = refl }
Step-IsLost max _ _ (prints s r t x e f g) h c = record { still = c; same = refl }
Step-IsLost max _ _ (overflows s r t e f) h c = record { still = c; same = refl }
Step-IsLost max _ _ (stops s r e) h c = record { still = c; same = refl }

Reach-IsLost :
    (max : ℕ) (s s' : Client) → Reach max s s' → IsSound s → s.closed ≡ true → IsLost s s'
Reach-IsLost max s s' here h c = record { still = c; same = refl }
Reach-IsLost max s s' (next s1 s2 r step) h c =
    let before = Reach-IsLost max s s1 r h c in
    let after = Step-IsLost max s1 s' step (Reach-IsSound max s s1 r h) before.still in
    record { still = after.still; same = after.same ∙ before.same }

-- Once a client has closed its socket, it stays in the loop that connects, or ends, and sends no line any more,
-- whatever comes: it connects with the descriptor that it has closed.
pub Reach-Lost :
    (max : ℕ) (s s' : Client)
    → Reach max started s
    → s.closed ≡ true
    → Reach max s s'
    → AtEnd s'.place × (s'.sent ≡ s.sent)
Reach-Lost max s s' r c later =
    let sound = Reach-IsSound max started s r tt in
    let lost = Reach-IsLost max s s' later sound c in
    (subst (λ b. Closing b s'.place) lost.still (Reach-IsSound max s s' later sound), lost.same)
