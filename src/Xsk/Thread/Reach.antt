-- ===== src/Xsk/Thread/Reach.antt =====
-- The forwarding program of ebpf-xdp/xsk at work: ports are opened, threads go round for ports, and the
-- kernel moves frames from the fill rings to the receive rings and from the transmit rings to the
-- completion rings, in any order.
use hack.Base.{
  ℕ, ◌/◌, ◌≡◌, if◌then◌else◌, ◌==◌, ◌<◌, length, some, ◌∷◌, [], List, get_or, set, ◌++◌, refl, ap,
  ◌∙◌, arith,
}
use hack.Base.Fault.{Runs-eq, Runs-some}
use hack.Xsk.Pool.{Bpool, BpoolParams}
use hack.Xsk.Args.{max_threads}
use hack.Xsk.Thread.{World, forward, no_port, n_bursts, burst_of, max_ports_per_thread}
use hack.Xsk.Thread.Conserve.{WorldOk, in_world, forward-Moves}
use hack.Xsk.Port.{Rings, Host, Port, port_init, Desc}
use hack.Xsk.Port.Balance.{RingLaws, in_descs}
use hack.Xsk.Port.Open.{ReservedOk}
use hack.Xsk.Pool.Balance.{SamePool}
use hack.Xsk.Pool.Sums.{sum_all, one, sum_all-append}
use hack.Xsk.Thread.Kept.{opens-Kept, ring-Kept}

-- the frame of the memory area that an address lies in
abbrev pub frame_of : World → ℕ → ℕ
frame_of s addr = addr / s.pool.params.buffer_size

-- `forward` of a round that the rings answer as `k` says, `port_init` of a port that is opened, and what
-- the kernel does: it may write the packet of a frame behind some headroom.
pub data Step (s s' : World) : Type 0 where
  forwards :
      (k : Rings) (comp_size b i j : ℕ)
      → RingLaws k
      → b < n_bursts
      → i < length s.ports
      → j < length s.ports
      → forward k comp_size b i j s ≡ some s'
      → Step s s'
  opens :
      (host : Host) (size : ℕ) (p : Port) (bp : Bpool)
      → ReservedOk s.pool
      → port_init host size s.pool ≡ some (some p, bp)
      → s' ≡ record { pool = bp; ports = s.ports ++ p ∷ []; burst_tx = s.burst_tx }
      → Step s s'
  receives :
      (i addr : ℕ) (later : List ℕ) (d : Desc)
      → i < length s.ports
      → (get_or s.ports i no_port).umem_fq ≡ addr ∷ later
      → frame_of s d.addr ≡ frame_of s addr
      → s' ≡ record s {
        ports = set s.ports i (record (get_or s.ports i no_port) {
          umem_fq = later;
          rxq = (get_or s.ports i no_port).rxq ++ d ∷ [];
        });
      }
      → Step s s'
  completes :
      (i : ℕ) (d : Desc) (later : List Desc)
      → i < length s.ports
      → (get_or s.ports i no_port).txq ≡ d ∷ later
      → s' ≡ record s {
        ports = set s.ports i (record (get_or s.ports i no_port) {
          txq = later;
          umem_cq = (get_or s.ports i no_port).umem_cq ++ d.addr ∷ [];
        });
      }
      → Step s s'

pub data Reach (s : World) : World → Type 0 where
  here : Reach s s
  next : {s1 s2 : World} → Reach s s1 → Step s1 s2 → Reach s s2

-- 1 for the addresses of a frame
abbrev pub counted : ℕ → ℕ → ℕ → ℕ
counted buffer_size f addr = if addr / buffer_size == f then 1 else 0

-- how often a frame is there, in the pool, the caches, the rings and the bursts
abbrev pub copies : World → ℕ → ℕ
copies s f = in_world (counted s.pool.params.buffer_size f) s

-- What every step keeps.
pub record Keeps (s s' : World) : Type 0 where
  pub still_ok : WorldOk s'
  pub same_params : s'.pool.params ≡ s.pool.params
  pub same_copies : (f : ℕ) → copies s' f ≡ copies s f

module _ (w : ℕ → ℕ) (s s' : World) (ok : WorldOk s)
    (even : (a b : ℕ) → frame_of s a ≡ frame_of s b → w a ≡ w b) where
  pub Step-Kept : Step s s' → WorldOk s' × SamePool s.pool s'.pool × (in_world w s' ≡ in_world w s)
  Step-Kept (forwards k comp_size b i j law lb li lj e) =
      let (good, frame, sum) =
        Runs-eq _ _ _ (forward-Moves k law w comp_size b j i s ok lb li lj) e in
      (good, frame.same_pool, sum)
  Step-Kept (opens host size p bp r e e') = rw e' (opens-Kept w s ok host size p bp r e)
  Step-Kept (receives i addr later d lt e near e') =
      let p = get_or s.ports i no_port in
      let same = even d.addr addr near in
      rw e' (
        ring-Kept w s ok i (record p { umem_fq = later; rxq = p.rxq ++ d ∷ [] }) lt refl
          (omega
            (arith, ap (sum_all w) e, same, sum_all-append (λ (x : Desc). w x.addr) p.rxq (d ∷ [])))
          (omega (arith, ap (sum_all one) e, sum_all-append {A = Desc} one p.rxq (d ∷ []))))
  Step-Kept (completes i d later lt e e') =
      let p = get_or s.ports i no_port in
      rw e' (
        ring-Kept w s ok i (record p { txq = later; umem_cq = p.umem_cq ++ d.addr ∷ [] }) lt refl
          (omega (arith, ap (in_descs w) e, sum_all-append w p.umem_cq (d.addr ∷ [])))
          (omega (arith, ap (in_descs one) e, sum_all-append one p.umem_cq (d.addr ∷ []))))

Keeps-Keeps : (s s1 s2 : World) → Keeps s s1 → Keeps s1 s2 → Keeps s s2
Keeps-Keeps s s1 s2 h k = record {
  still_ok = k.still_ok;
  same_params = k.same_params ∙ h.same_params;
  same_copies = λ f. k.same_copies f ∙ h.same_copies f;
}

-- A step keeps the number of copies of every frame.
Step-Keeps : (s s' : World) → WorldOk s → Step s s' → Keeps s s'
Step-Keeps s s' ok st =
    let size = s.pool.params.buffer_size in
    let kept = λ (f : ℕ).
      Step-Kept (counted size f) s s' ok (λ a b e. ap (λ (n : ℕ). if n == f then 1 else 0) e) st in
    let same : s'.pool.params.buffer_size ≡ size =
      ap (λ (p : BpoolParams). p.buffer_size) (kept 0).1.params_kept in
    record {
      still_ok = (kept 0).0;
      same_params = (kept 0).1.params_kept;
      same_copies = λ f. ap (λ (n : ℕ). in_world (counted n f) s') same ∙ (kept f).2;
    }

-- Whatever rounds the threads have made and whatever the kernel has done, in whatever order: the world is
-- well formed, and every frame is there as often as at the start, in the pool, in a cache, in a ring or in
-- a burst.
pub Reach-Keeps : (s s' : World) → WorldOk s → Reach s s' → Keeps s s'
Reach-Keeps s s' ok here = record { still_ok = ok; same_params = refl; same_copies = λ f. refl }
Reach-Keeps s s' ok (next r st) =
    Keeps-Keeps s _ s' (Reach-Keeps s _ ok r) (Step-Keeps _ s' (Reach-Keeps s _ ok r).still_ok st)

-- From a well-formed world on, whatever has happened: the round of a thread for two open ports, with rings that keep
-- to their rules and the entry of one of the 64 threads for one of its 16 places, stays inside the
-- arrays, finds a buffer where it takes one and room in a slab where it puts one, and comes to its end
-- in a well-formed world.
pub Reach-forward :
    (s s' : World) (k : Rings) (comp_size thread place i j : ℕ)
    → WorldOk s
    → Reach s s'
    → RingLaws k
    → thread < max_threads
    → place < max_ports_per_thread
    → i < length s'.ports
    → j < length s'.ports
    → (s2 : World) × (forward k comp_size (burst_of thread place) i j s' ≡ some s2) × WorldOk s2
Reach-forward s s' k comp_size thread place i j ok r law lt lp li lj =
    let (s2, e, q) = Runs-some _ _ (
      forward-Moves k law one comp_size (burst_of thread place) j i s'
        (Reach-Keeps s s' ok r).still_ok (omega arith) li lj) in
    (s2, e, q.0)
