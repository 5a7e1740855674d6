-- ===== src/Wlan/Context.antt =====
-- The context of kwlan-if/core.c, from its making to its end.
use hack.Base.{Bool, [], ◌≡◌, refl, true, false, ◌⊎◌, ◌∷◌, inl, inr}
use hack.Wlan.{
  create_context, free_context, registered_ndev, ndev, registered_wiphy, wiphy, context,
}

-- Whatever the kernel answers: either the context cannot be made and no piece of it is left, or it is there, with its
-- parts allocated and registered, and when it is freed no piece of it is left.
pub create_context-free_context :
    (kmalloc new register alloc register_ndev : Bool)
    → let r = create_context kmalloc new register alloc register_ndev in
      ((r.0 ≡ false) × (r.1 ≡ []))
      ⊎ ((r.0 ≡ true)
          × (r.1 ≡ registered_ndev ∷ ndev ∷ registered_wiphy ∷ wiphy ∷ context ∷ [])
          × (free_context r.1 ≡ []))
unfolding create_context
create_context-free_context false n r a g = inl (refl, refl)
create_context-free_context true false r a g = inl (refl, refl)
create_context-free_context true true false a g = inl (refl, refl)
create_context-free_context true true true false g = inl (refl, refl)
create_context-free_context true true true true false = inl (refl, refl)
create_context-free_context true true true true true = inr (refl, refl, refl)
