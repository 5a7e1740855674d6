-- ===== src/Keth/Header/Twin.antt =====
-- The headers of keth-if/kernel/core.c lead to the twin device.
use hack.Base.{ℕ, List, none, ◌≡◌, take, drop, refl}
use hack.Keth.Header.{header, rebuild_header}
use hack.Keth.Model.{Dev, other, eth0, eth1}
use hack.Keth.Control.{hw_addr}

-- A header that a device builds without addresses of the caller's goes from it to the other device,
-- as `dummeth_open` names the two; rebuilding it changes nothing.
pub header-twin :
    (d : Dev) (type : ℕ) (payload : List ℕ)
    → let (len, built) = header (hw_addr d) type none none payload in
      (len ≡ 14)
      × (take 6 built ≡ hw_addr (other d))
      × (take 6 (drop 6 built) ≡ hw_addr d)
      × (drop len built ≡ payload)
      × (rebuild_header (hw_addr d) built ≡ built)
unfolding header rebuild_header
header-twin eth0 type payload = (refl, refl, refl, refl, refl)
header-twin eth1 type payload = (refl, refl, refl, refl, refl)
