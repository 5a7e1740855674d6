-- ===== src/Keth/Receive/Freed.antt =====
-- How the two interrupt handlers of keth-if/kernel/core.c free the socket buffer of a transmission.
use hack.Base.{ℕ, ◌≡◌, some, true, ◌∷◌, arith}
use hack.Keth.Receive.{napi_tx, regular_tx}
use hack.Keth.Model.{Net, Dev, at, kfree_skb, eth0, eth1}

-- A second transmit interrupt with no transmission in between, such as a timeout raises: the handler
-- for NAPI frees the buffer once, the regular handler frees the same buffer twice.
pub regular_tx-twice :
    (s : Net) (d : Dev) (addr : ℕ)
    → (at s d).skb ≡ some addr
    → ((at (napi_tx true (napi_tx true s d) d) d).calls ≡ kfree_skb (some addr) ∷ (at s d).calls)
      × ((at (regular_tx true (regular_tx true s d) d) d).calls
          ≡ kfree_skb (some addr) ∷ kfree_skb (some addr) ∷ (at s d).calls)
unfolding napi_tx regular_tx
regular_tx-twice s eth0 addr e = ground arith
regular_tx-twice s eth1 addr e = ground arith
