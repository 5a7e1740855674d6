-- ===== src/Misc/Tests.antt =====
-- Runs of the model of kmisc/miscdrv_rdwr.c.
use hack.Base.{replicate, true, ◌∷◌, [], ◌≡◌, some, refl, arith}
use hack.Base.Int.{pos}
use hack.Misc.{write_miscdrv_rdwr, read_miscdrv_rdwr, Ctx}
use hack.Misc.Secret.{read-write}

-- as the driver starts
abbrev initial : Ctx
initial = record {
  tx = 0;
  rx = 0;
  oursecret = 105 ∷ 110 ∷ 105 ∷ 116 ∷ 109 ∷ 115 ∷ 103 ∷ replicate 121 0;
  ga = 0;
  gb = 1;
}

read_run : (read_miscdrv_rdwr initial 128 true).0 ≡ pos 7
unfolding read_miscdrv_rdwr
read_run = refl

read-write_example :
    (ctx' : Ctx) × (write_miscdrv_rdwr initial (97 ∷ 98 ∷ 0 ∷ 99 ∷ []) true true
      ≡ some (pos 4, ctx'))
    × (read_miscdrv_rdwr ctx' 128 true ≡ (pos 2, 97 ∷ 98 ∷ [], record ctx' { tx = 2 }))
    × (ctx'.rx ≡ 4)
read-write_example =
    read-write initial (97 ∷ 98 ∷ []) (99 ∷ []) 128 (omega arith) (omega arith) (omega arith)
      (omega arith)
