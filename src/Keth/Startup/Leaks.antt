-- ===== src/Keth/Startup/Leaks.antt =====
-- Which devices are left behind when the module of keth-if/kernel/core.c fails to start.
use hack.Base.{
  ℕ, Bool, List, Option, true, none, false, ◌≡◌, ◌∷◌, [], ◌||◌, some, not, arith, ◌&&◌, refl,
}
use hack.Keth.Startup.{
  init_module, cleanup_module, Ask, enomem, success, alloc_netdev, free_netdev, register_netdevice,
  unregister_netdev, err, teardown,
}
use hack.Keth.Model.{Dev, eth0, same_dev, eth1}

-- allocated and not freed since; the calls stand last one first
abbrev pub is_live : Dev → List Ask → Bool
is_live d [] = false
is_live d (alloc_netdev e ∷ asks) = same_dev d e || is_live d asks
is_live d (free_netdev e ∷ asks) = not (same_dev d e) && is_live d asks
is_live d (register_netdevice e ∷ asks) = is_live d asks
is_live d (unregister_netdev e ∷ asks) = is_live d asks
is_live d (teardown e ∷ asks) = is_live d asks

-- registered, and not unregistered since
abbrev pub is_registered : Dev → List Ask → Bool
is_registered d [] = false
is_registered d (alloc_netdev e ∷ asks) = is_registered d asks
is_registered d (free_netdev e ∷ asks) = is_registered d asks
is_registered d (register_netdevice e ∷ asks) = same_dev d e || is_registered d asks
is_registered d (unregister_netdev e ∷ asks) = not (same_dev d e) && is_registered d asks
is_registered d (teardown e ∷ asks) = is_registered d asks

-- Loading and unloading: when both devices are allocated and registered the module starts, and the
-- exit, which finds both, unregisters and frees both.
pub init_module-cleanup :
    (present0 present1 : Bool)
    → let (r, asks) = init_module true true none none in
      (r ≡ success)
      × (is_live eth0 asks ≡ true)
      × (is_live eth1 asks ≡ true)
      × (is_live eth0 (cleanup_module present0 present1 asks) ≡ not present0)
      × (is_live eth1 (cleanup_module present0 present1 asks) ≡ not present1)
      × (is_registered eth0 (cleanup_module present0 present1 asks) ≡ not present0)
      × (is_registered eth1 (cleanup_module present0 present1 asks) ≡ not present1)
unfolding init_module cleanup_module
init_module-cleanup present0 present1 = ground arith

-- The start fails in four ways. If the first device is not allocated, nothing is left. If only the
-- second is not, the first stays allocated. If the first is not registered, with an error `e`, the second
-- stays allocated. If the second is not registered, nothing stays allocated, but the first is freed while
-- it is still registered.
pub init_module-leaks :
    (alloc1 : Bool) (r0 r1 : Option ℕ) (e : ℕ)
    → (init_module false alloc1 r0 r1 ≡ (enomem, []))
      × (let (r, asks) = init_module true false r0 r1 in
          (r ≡ enomem) × (is_live eth0 asks ≡ true) × (is_live eth1 asks ≡ false))
      × (let (r, asks) = init_module true true (some e) r1 in
          (r ≡ err e) × (is_live eth0 asks ≡ false) × (is_live eth1 asks ≡ true))
      × (let (r, asks) = init_module true true none (some e) in
          (r ≡ err e)
          × (is_live eth0 asks ≡ false)
          × (is_live eth1 asks ≡ false)
          × (is_registered eth0 asks ≡ true))
unfolding init_module
init_module-leaks alloc1 r0 r1 e =
    (refl, (refl, refl, refl), (refl, refl, refl), (refl, refl, refl, refl))
