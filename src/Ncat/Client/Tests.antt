-- ===== src/Ncat/Client/Tests.antt =====
-- Runs of the two threads of a client of ncat.
use hack.Base.{◌∷◌, [], ◌≡◌, refl, true}
use hack.Ncat.Client.{
  Client, Reach, checking, started, typing, ended, holding, next, here, types, gives_up, connects,
  marks, looks, stops, breaks, leaves, closes,
}
use hack.Ncat.Client.Waits.{out, Held-out, and_then, from_now}
use hack.Ncat.Client.Lost.{AtEnd, Reach-Lost}
use hack.Ncat.{client_message, strip}

-- The server ends the connection, and the client finds this with its next line.
abbrev lost : Client
lost = record started { closed = true }

started-lost : Reach 4 started lost
unfolding client_message strip
started-lost =
    let r1 = next started _ here (connects started refl refl) in
    let r2 = next _ _ r1 (marks _ refl refl) in
    let r3 = next _ _ r2 (looks _ refl refl) in
    let r4 = next _ _ r3 (stops _ [] refl) in
    let r5 = next _ _ r4 (types _ (b'h' ∷ 10 ∷ []) refl) in
    let r6 = next _ _ r5 (breaks _ (client_message 4 (b'h' ∷ 10 ∷ [])) refl refl refl) in
    let r7 = next _ _ r6 (leaves _ refl refl) in next _ lost r7 (closes _ refl)

Reach-Lost_example : AtEnd ended × (lost.sent ≡ [])
Reach-Lost_example =
    Reach-Lost 4 lost (record lost { place = ended }) started-lost refl
      (next lost _ here (gives_up lost refl))

-- a client that types a line when its reader has the lock
abbrev waiting : Client
waiting = record started { client_sock_ready = true; place = typing; reader = holding [] }

abbrev typed : Client
typed = record waiting { place = checking (client_message 4 (b'h' ∷ 10 ∷ [])) }

Held-out_example : out typed ≡ out waiting
Held-out_example =
    Held-out 4 waiting typed
      (and_then waiting typed (from_now tt) (types waiting (b'h' ∷ 10 ∷ []) refl) tt)
