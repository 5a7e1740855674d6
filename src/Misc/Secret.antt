-- ===== src/Misc/Secret.antt =====
-- What is written to the device of kmisc/miscdrv_rdwr.c and read from it.
use hack.Base.{
  ℕ, List, Bool, take, length, ◌≡◌, ◌++◌, ◌∷◌, ◌≤◌, ap, ◌<◌, none, some, [], ◌^◌, true, arith, refl,
  suc, zero, drop, ◌+◌, length-append, ◌∙◌, ◌==◌, false, le→ltb, ne→==-false, NonZero,
}
use hack.Base.Int.{pos}
use hack.Misc.{
  Ctx, write_miscdrv_rdwr, strnlen, strlen, strlcpy, read_miscdrv_rdwr, max_bytes, add32,
}

strlen-text : (text rest : List ℕ) → NonZero text → strlen (text ++ 0 ∷ rest) ≡ some (length text)
unfolding strlen
strlen-text [] rest h = refl
strlen-text (c ∷ text) rest h = ground (arith, strlen-text text rest h.1, h.0)

strlen-none : (text : List ℕ) → NonZero text → strlen text ≡ none
unfolding strlen
strlen-none [] h = refl
strlen-none (c ∷ text) h = ground (arith, strlen-none text h.1, h.0)

strnlen-text :
    (text rest : List ℕ) (n : ℕ)
    → NonZero text
    → length text < n
    → strnlen (text ++ 0 ∷ rest) n ≡ length text
unfolding strnlen
strnlen-text [] rest zero h lt = absurd (omega arith)
strnlen-text [] rest (suc n) h lt = refl
strnlen-text (c ∷ text) rest zero h lt = absurd (omega arith)
strnlen-text (c ∷ text) rest (suc n) h lt = ground (arith, strnlen-text text rest n h.1, h.0)

take-append : (xs ys : List ℕ) → take (length xs) (xs ++ ys) ≡ xs
take-append [] ys = refl
take-append (x ∷ xs) ys = ap (◌∷◌ x) (take-append xs ys)

strlcpy-text :
    (dst text rest : List ℕ) (size : ℕ)
    → NonZero text
    → length text < size
    → strlcpy dst (text ++ 0 ∷ rest) size ≡ some (text ++ 0 ∷ drop (length text + 1) dst)
unfolding strlcpy
strlcpy-text dst text rest size h lt =
    rw (strlen-text text rest h) (ground (arith, take-append text (0 ∷ rest)))

write-text :
    (ctx : Ctx) (text rest : List ℕ)
    → NonZero text
    → length (text ++ 0 ∷ rest) ≤ max_bytes
    → write_miscdrv_rdwr ctx (text ++ 0 ∷ rest) true true
      ≡ some (
        pos (length (text ++ 0 ∷ rest)),
        record ctx {
          oursecret = text ++ 0 ∷ drop (length text + 1) ctx.oursecret;
          rx = add32 ctx.rx (length (text ++ 0 ∷ rest));
        },
      )
unfolding write_miscdrv_rdwr
write-text ctx text rest h fits =
    let ubuf = text ++ 0 ∷ rest in
    ground (
      arith,
      strlcpy-text ctx.oursecret text rest (length ubuf) h
          (omega (arith, length-append {0} text (0 ∷ rest))),
    )

read-text :
    (ctx : Ctx) (text later : List ℕ) (count : ℕ)
    → ctx.oursecret ≡ text ++ 0 ∷ later
    → NonZero text
    → 0 < length text
    → length text < max_bytes
    → max_bytes ≤ count
    → read_miscdrv_rdwr ctx count true
      ≡ (pos (length text), text, record ctx { tx = add32 ctx.tx (length text) })
unfolding read_miscdrv_rdwr
read-text ctx text later count e h some_text short room =
    let n : strnlen ctx.oursecret max_bytes ≡ length text =
      ap (λ o. strnlen o max_bytes) e ∙ strnlen-text text later max_bytes h short in
    let t : take (length text) ctx.oursecret ≡ text =
      ap (take (length text)) e ∙ take-append text (0 ∷ later) in
    let z : (length text == 0) ≡ false =
      ne→==-false (length text) 0 (λ q. absurd (omega (arith, some_text, q))) in
    rw (le→ltb count max_bytes room) (rw n (rw z (rw t refl)))

-- When there is memory and both copies succeed: a text of one character or more, none of them zero, that is written
-- with a zero behind it, in 128 bytes at most, is what a read for 128 bytes or more then gives, whatever stands
-- behind the zero; each call answers with the number of its bytes, and the counters are raised by them.
pub read-write :
    (ctx : Ctx) (text rest : List ℕ) (count : ℕ)
    → NonZero text
    → 0 < length text
    → length (text ++ 0 ∷ rest) ≤ max_bytes
    → max_bytes ≤ count
    → (ctx' : Ctx) × (write_miscdrv_rdwr ctx (text ++ 0 ∷ rest) true true
        ≡ some (pos (length (text ++ 0 ∷ rest)), ctx'))
      × (read_miscdrv_rdwr ctx' count true
          ≡ (pos (length text), text, record ctx' { tx = add32 ctx.tx (length text) }))
      × (ctx'.rx ≡ add32 ctx.rx (length (text ++ 0 ∷ rest)))
read-write ctx text rest count h some_text fits room =
    let later = drop (length text + 1) ctx.oursecret in
    let short = length-append {0} text (0 ∷ rest) in
    (
      record ctx { oursecret = text ++ 0 ∷ later; rx = add32 ctx.rx (length (text ++ 0 ∷ rest)) },
      write-text ctx text rest h fits,
      read-text
          (record ctx {
            oursecret = text ++ 0 ∷ later;
            rx = add32 ctx.rx (length (text ++ 0 ∷ rest));
          })
          text later count refl h some_text (omega (arith, short, fits)) room,
      refl,
    )

-- A write of more than 128 bytes answers as if all had been written, and changes nothing.
pub write-too_long :
    (ctx : Ctx) (ubuf : List ℕ) (kvmalloc copy_from_user : Bool)
    → max_bytes < length ubuf
    → length ubuf < 2 ^ 31
    → write_miscdrv_rdwr ctx ubuf kvmalloc copy_from_user ≡ some (pos (length ubuf), ctx)
unfolding write_miscdrv_rdwr
write-too_long ctx ubuf kvmalloc copy_from_user long int = ground arith

-- A write of up to 128 bytes with no zero among them makes the driver read behind its buffer.
pub write-unterminated :
    (ctx : Ctx) (ubuf : List ℕ)
    → length ubuf ≤ max_bytes
    → NonZero ubuf
    → write_miscdrv_rdwr ctx ubuf true true ≡ none
unfolding write_miscdrv_rdwr strlcpy
write-unterminated ctx ubuf fits h = ground (arith, strlen-none ubuf h)
