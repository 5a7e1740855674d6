-- ===== src/Wlan.antt =====
-- The wireless device of kwlan-if/core.c: what the kernel asks of it, the routines that run later from a work queue, and
-- the making of its context. Each call and routine runs as a whole; whether a signal keeps it from
-- its semaphore is an argument. `none` is a write behind an array, or a call of the kernel with a null pointer.
pub mod Calls
pub mod Names
pub mod Scans
pub mod Stuck
pub mod Context
mod Tests
use hack.Base.{
  ℕ, List, Bool, Option, ◌∷◌, [], some, none, true, false, if◌then◌else◌, ltb, not, ◌++◌, take,
  ◌>>=◌, ◌&&◌, ◌==◌, set, length, drop,
}
use hack.Base.Int.{ℤ, pos, negsuc, erestartsys}

abbrev pub ebusy : ℤ
ebusy = negsuc 15

-- what the kernel is told
pub data Told : Type 0 where
  scan_done : (request : ℕ) → Told
  connect_bss : Told
  connect_timeout : Told
  disconnected : (reason_code : ℕ) → Told

-- `struct wlanidt_context`, with what is in the work queue; a request is its address
pub record Wlan : Type 0 where
  pub scan_request : Option ℕ
  pub connecting_ssid : List ℕ
  pub disconnect_reason_code : ℕ
  pub ws_scan : Bool
  pub ws_connect : Bool
  pub ws_disconnect : Bool
  pub told : List Told

-- the context as the module leaves it; of the array of 8 bytes only the first is set
abbrev pub started : List ℕ → Wlan
started unset = record {
  scan_request = none;
  connecting_ssid = 0 ∷ take 7 unset;
  disconnect_reason_code = 0;
  ws_scan = false;
  ws_connect = false;
  ws_disconnect = false;
  told = [];
}

-- `schedule_work` of the scan: it is refused if the work is in the queue already
abbrev pub schedule_scan : Wlan → ℤ × Wlan
schedule_scan s = if s.ws_scan then (ebusy, s) else (pos 0, record s { ws_scan = true })

abbrev pub request_scan : ℕ → Option ℕ → Wlan → ℤ × Wlan
request_scan request none s = schedule_scan (record s { scan_request = some request })
request_scan request (some earlier) s = (ebusy, s)

unfoldable pub wi_scan : Bool → ℕ → Wlan → ℤ × Wlan
wi_scan interrupted request s =
    if interrupted then (erestartsys, s) else request_scan request s.scan_request s

-- The name is copied with a limit of 15 bytes, and an end is put behind it.
abbrev pub copy_ssid : List ℕ → List ℕ → Option (List ℕ)
copy_ssid connecting_ssid ssid =
    let ssid_len = if ltb 15 (length ssid) then 15 else length ssid in
    if ltb ssid_len (length connecting_ssid)
    then some (set (take ssid_len ssid ++ drop ssid_len connecting_ssid) ssid_len 0)
    else none

abbrev pub schedule_connect : Wlan → ℤ × Wlan
schedule_connect s = if s.ws_connect then (ebusy, s) else (pos 0, record s { ws_connect = true })

unfoldable pub wi_connect : Bool → List ℕ → Wlan → Option (ℤ × Wlan)
wi_connect interrupted ssid s = if interrupted then some (erestartsys, s) else do
  copied ← copy_ssid s.connecting_ssid ssid
  some (schedule_connect (record s { connecting_ssid = copied }))

unfoldable pub wi_disconnect : Bool → ℕ → Wlan → ℤ × Wlan
wi_disconnect interrupted reason_code s =
    let s1 = record s { disconnect_reason_code = reason_code } in
    if interrupted
    then (erestartsys, s)
    else if s.ws_disconnect
    then (ebusy, s1)
    else (pos 0, record s1 { ws_disconnect = true })

abbrev pub tell : Told → Wlan → Wlan
tell t s = record s { told = s.told ++ t ∷ [] }

-- The routines; the queue has let go of the work when one begins.
abbrev pub finish_scan : Wlan → Option Wlan
finish_scan s = do
  request ← s.scan_request
  some (record (tell (scan_done request) s) { scan_request = none })

unfoldable pub wlanidt_scan_routine : Bool → Wlan → Option Wlan
wlanidt_scan_routine interrupted s =
    let s1 = record s { ws_scan = false } in if interrupted then some s1 else finish_scan s1

-- `memcmp`, as a test of equality
unfoldable pub memcmp : List ℕ → List ℕ → Bool
memcmp [] [] = true
memcmp [] (d ∷ y) = false
memcmp (c ∷ x) [] = false
memcmp (c ∷ x) (d ∷ y) = c == d && memcmp x y

abbrev pub ssid_dummy : List ℕ
ssid_dummy = b'A' ∷ b'P' ∷ b'I' ∷ b'D' ∷ b'I' ∷ b'O' ∷ b'T' ∷ 0 ∷ []

unfoldable pub wlanidt_connect_routine : Bool → Wlan → Wlan
wlanidt_connect_routine interrupted s =
    let s1 = record s { ws_connect = false } in
    let answer = if memcmp s.connecting_ssid ssid_dummy then connect_bss else connect_timeout in
    if interrupted
    then s1
    else record (tell answer s1) { connecting_ssid = set s.connecting_ssid 0 0 }

unfoldable pub wlanidt_disconnect_routine : Bool → Wlan → Wlan
wlanidt_disconnect_routine interrupted s =
    let s1 = record s { ws_disconnect = false } in
    if interrupted
    then s1
    else record (tell (disconnected s.disconnect_reason_code) s1) { disconnect_reason_code = 0 }

-- what there is of a context
pub data Piece : Type 0 where
  context : Piece
  wiphy : Piece
  registered_wiphy : Piece
  ndev : Piece
  registered_ndev : Piece

-- the labels of the error paths; a list has the last piece first
abbrev pub release : List Piece → List Piece
release [] = []
release (p ∷ pieces) = pieces

unfoldable pub create_context :
    (kmalloc new register alloc register_ndev : Bool) → Bool × List Piece
create_context kmalloc new register alloc register_ndev =
    let l1 = context ∷ [] in
    let l2 = wiphy ∷ l1 in
    let l3 = registered_wiphy ∷ l2 in
    let l4 = ndev ∷ l3 in
    if not kmalloc
    then (false, [])
    else if not new
    then (false, release l1)
    else if not register
    then (false, release (release l2))
    else if not alloc
    then (false, release (release (release l3)))
    else if not register_ndev
    then (false, release (release (release (release l4))))
    else (true, registered_ndev ∷ l4)

-- `wlanidt_free`, of what is there
abbrev pub free_context : List Piece → List Piece
free_context pieces = release (release (release (release (release pieces))))
