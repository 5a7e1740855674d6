-- ===== src/Xdp/Parsing/Frames.antt =====
-- Ethernet frames with VLAN tags, written out, and what the loop of `parse_ethhdr_vlan`
-- (ebpf-xdp/packet/kernel/parsing_helpers.h) reads from them.
use hack.Base.{
  ℕ, zero, suc, ◌+◌, ◌*◌, ◌/◌, ◌%◌, ◌≤◌, ◌<◌, ◌≡◌, ◌≢◌, ◌⊎◌, inl, inr, refl, sym, ap, ◌∙◌, true,
  false, Option, none, some, List, [], ◌∷◌, ◌++◌, append_assoc, arith, length, length-append, set,
}
use hack.Xdp.Memory.{Packet, byte, swap16, word16, load16}
use hack.Xdp.Parsing.{Walk, vlan_round, vlan_loop, parse_ethhdr_vlan, proto_is_vlan}

-- a 16-bit field in network order, as its two bytes
abbrev pub be16 : ℕ → List ℕ
be16 x = x / 256 ∷ x % 256 ∷ []

pub record Tag : Type 0 where
  pub tpid : ℕ
  pub tci : ℕ

-- from the first EtherType on
abbrev pub tagged : List Tag → ℕ → List ℕ → List ℕ
tagged [] proto payload = be16 proto ++ payload
tagged (t ∷ ts) proto payload = be16 t.tpid ++ (be16 t.tci ++ tagged ts proto payload)

abbrev pub frame : List ℕ → List Tag → ℕ → List ℕ → Packet
frame macs ts proto payload = macs ++ tagged ts proto payload

-- what one round leaves in the array, and what the loop does from index `i` on
abbrev pub keep : ℕ → Tag → Option (List ℕ) → Option (List ℕ)
keep i t none = none
keep i t (some id) = some (set id i (t.tci % 4096))

abbrev pub ids : ℕ → List Tag → Option (List ℕ) → Option (List ℕ)
ids i [] vlans = vlans
ids i (t ∷ ts) vlans = ids (i + 1) ts (keep i t vlans)

abbrev AreRecognised : List Tag → Type 0
AreRecognised [] = Unit
AreRecognised (t ∷ ts) =
    (proto_is_vlan (swap16 t.tpid) ≡ true) × (t.tpid < 65536) × (t.tci < 65536) × AreRecognised ts

-- the first EtherType as it is loaded
abbrev first_proto : List Tag → ℕ → ℕ
first_proto [] proto = swap16 proto
first_proto (t ∷ ts) proto = swap16 t.tpid

word16-append :
    (pre : List ℕ) (a b : ℕ) (rest : List ℕ)
    → word16 (pre ++ (a ∷ b ∷ rest)) (length pre) ≡ a + 256 * b
word16-append [] a b rest = refl
word16-append (x ∷ pre) a b rest =
    let e : suc (length pre) + 1 ≡ suc (length pre + 1) = omega arith in
    ap (λ k. byte (pre ++ (a ∷ b ∷ rest)) (length pre) + 256 * byte (x ∷ (pre ++ (a ∷ b ∷ rest))) k)
      e
    ∙ word16-append pre a b rest

-- a field in network order, as a load finds it
word16_at :
    (p pre rest : List ℕ) (x i : ℕ)
    → p ≡ pre ++ (be16 x ++ rest)
    → i ≡ length pre
    → x < 65536
    → word16 p i ≡ swap16 x
word16_at p pre rest x i e at lt =
    rw (e, at) (omega (arith, word16-append pre (x / 256) (x % 256) rest))

module _ (p pre : List ℕ) (t : Tag) (ts : List Tag) (proto : ℕ) (payload : List ℕ) where
  -- the first fields of a tagged frame, each with what stands before it
  split_tci :
      p ≡ pre ++ tagged (t ∷ ts) proto payload
      → p ≡ (pre ++ be16 t.tpid) ++ (be16 t.tci ++ tagged ts proto payload)
  split_tci e = e ∙ sym (append_assoc pre (be16 t.tpid) _)

  split_next :
      p ≡ pre ++ tagged (t ∷ ts) proto payload
      → p ≡ (pre ++ (be16 t.tpid ++ be16 t.tci)) ++ tagged ts proto payload
  split_next e = e ∙ sym (append_assoc pre (be16 t.tpid ++ be16 t.tci) _)

first_proto_at :
    (p pre payload : List ℕ) (ts : List Tag) (proto i : ℕ)
    → p ≡ pre ++ tagged ts proto payload
    → i ≡ length pre
    → AreRecognised ts
    → proto < 65536
    → (word16 p i ≡ first_proto ts proto) × (i + 2 ≤ length p)
first_proto_at p pre payload [] proto i e at ok lt = (
  word16_at p pre payload proto i e at lt,
  rw e (omega (arith, length-append pre (be16 proto ++ payload))),
)
first_proto_at p pre payload (t ∷ ts) proto i e at ok lt = (
  word16_at p pre _ t.tpid i e at ok.1,
  rw e (omega (arith, length-append pre (tagged (t ∷ ts) proto payload))),
)

vlan_round-tagged :
    (p pre payload : List ℕ) (t : Tag) (ts : List Tag) (proto i : ℕ) (w : Walk)
    → p ≡ pre ++ tagged (t ∷ ts) proto payload
    → w.vlh ≡ length pre + 2
    → AreRecognised (t ∷ ts)
    → proto < 65536
    → vlan_round p i w
      ≡ some (record { vlh = w.vlh + 4; h_proto = first_proto ts proto; vlans = keep i t w.vlans })
unfolding vlan_round load16
vlan_round-tagged p pre payload t ts proto i w e at ok lt = ground (
  arith,
  word16_at p (pre ++ be16 t.tpid) _ t.tci w.vlh (split_tci p pre t ts proto payload e)
      (at ∙ sym (length-append pre (be16 t.tpid))) ok.2,
  first_proto_at p (pre ++ (be16 t.tpid ++ be16 t.tci)) payload ts proto (w.vlh + 2)
      (split_next p pre t ts proto payload e)
      (omega (arith, length-append pre (be16 t.tpid ++ be16 t.tci))) ok.3 lt,
)

-- With a round for each tag the loop stops behind the last tag, at the inner EtherType.
vlan_loop-tagged :
    (n : ℕ) (ts : List Tag) (p pre payload : List ℕ) (proto i : ℕ) (w : Walk)
    → p ≡ pre ++ tagged ts proto payload
    → w.vlh ≡ length pre + 2
    → w.h_proto ≡ first_proto ts proto
    → AreRecognised ts
    → proto < 65536
    → proto_is_vlan (swap16 proto) ≡ false
    → length ts ≤ n
    → vlan_loop n p i w
      ≡ some
          (record { vlh = w.vlh + 4 * length ts; h_proto = swap16 proto; vlans = ids i ts w.vlans })
unfolding vlan_loop
vlan_loop-tagged zero [] p pre payload proto i w e at first ok lt plain le = ground arith
vlan_loop-tagged zero (t ∷ ts) p pre payload proto i w e at first ok lt plain le =
    absurd (omega arith)
vlan_loop-tagged (suc n) [] p pre payload proto i w e at first ok lt plain le = ground arith
vlan_loop-tagged (suc n) (t ∷ ts) p pre payload proto i w e at first ok lt plain le = ground (
  arith,
  vlan_round-tagged p pre payload t ts proto i w e at ok lt,
  first_proto_at p (pre ++ (be16 t.tpid ++ be16 t.tci)) payload ts proto (w.vlh + 2)
      (split_next p pre t ts proto payload e)
      (omega (arith, length-append pre (be16 t.tpid ++ be16 t.tci))) ok.3 lt,
  vlan_loop-tagged n ts p (pre ++ (be16 t.tpid ++ be16 t.tci)) payload proto (i + 1)
      (record { vlh = w.vlh + 4; h_proto = first_proto ts proto; vlans = keep i t w.vlans })
      (split_next p pre t ts proto payload e)
      (omega (arith, length-append pre (be16 t.tpid ++ be16 t.tci))) refl ok.3 lt plain
      (omega arith),
)

module _ (macs : List ℕ) (ts : List Tag) (proto : ℕ) (payload : List ℕ) where
  recognised-frame :
      (vlans : Option (List ℕ))
      → length macs ≡ 12
      → AreRecognised ts
      → length ts ≤ 2
      → proto < 65536
      → proto_is_vlan (swap16 proto) ≡ false
      → parse_ethhdr_vlan (frame macs ts proto payload) 0 vlans
        ≡ some (record {
          parse = record { pos = 14 + 4 * length ts; hdr = some 0; ret = some (swap16 proto) };
          vlans = ids 0 ts vlans;
        })
  unfolding parse_ethhdr_vlan load16
  recognised-frame vlans len ok le lt plain = ground (
    arith,
    first_proto_at (frame macs ts proto payload) macs payload ts proto 12 refl (sym len) ok lt,
    vlan_loop-tagged 2 ts (frame macs ts proto payload) macs payload proto 0
        (record { vlh = 14; h_proto = first_proto ts proto; vlans = vlans }) refl (omega arith) refl
        ok lt plain le,
  )

-- the EtherTypes of 802.1Q and 802.1ad
abbrev pub IsTpid : ℕ → Type 0
IsTpid tpid = (tpid ≡ 0x8100) ⊎ (tpid ≡ 0x88a8)

abbrev pub AreTags : List Tag → Type 0
AreTags [] = Unit
AreTags (t ∷ ts) = IsTpid t.tpid × (t.tci < 65536) × AreTags ts

proto_is_vlan-tpid :
    (tpid : ℕ) → IsTpid tpid → (proto_is_vlan (swap16 tpid) ≡ true) × (tpid < 65536)
unfolding proto_is_vlan
proto_is_vlan-tpid tpid (inl e) = rw e (refl, omega arith)
proto_is_vlan-tpid tpid (inr e) = rw e (refl, omega arith)

proto_is_vlan-other :
    (proto : ℕ)
    → proto < 65536
    → proto ≢ 0x8100
    → proto ≢ 0x88a8
    → proto_is_vlan (swap16 proto) ≡ false
unfolding proto_is_vlan
proto_is_vlan-other proto lt q ad = ground arith

AreTags-AreRecognised : (ts : List Tag) → AreTags ts → AreRecognised ts
AreTags-AreRecognised [] h = tt
AreTags-AreRecognised (t ∷ ts) h =
    let (vlan, lt) = proto_is_vlan-tpid t.tpid h.0 in (vlan, lt, h.1, AreTags-AreRecognised ts h.2)

-- A frame with at most two VLAN tags, each of 802.1Q or 802.1ad, and an inner EtherType that is neither, is read
-- as it was written: the cursor stands behind the inner EtherType, which is returned in network
-- order, and the array, if there is one, gets the 12-bit ids of the tags from index 0 on.
pub parse_ethhdr_vlan-frame :
    (macs : List ℕ) (ts : List Tag) (proto : ℕ) (payload : List ℕ) (vlans : Option (List ℕ))
    → length macs ≡ 12
    → AreTags ts
    → length ts ≤ 2
    → proto < 65536
    → proto ≢ 0x8100
    → proto ≢ 0x88a8
    → parse_ethhdr_vlan (frame macs ts proto payload) 0 vlans
      ≡ some (record {
        parse = record { pos = 14 + 4 * length ts; hdr = some 0; ret = some (swap16 proto) };
        vlans = ids 0 ts vlans;
      })
parse_ethhdr_vlan-frame macs ts proto payload vlans len tags le lt q ad =
    recognised-frame macs ts proto payload vlans len (AreTags-AreRecognised ts tags) le lt
      (proto_is_vlan-other proto lt q ad)
