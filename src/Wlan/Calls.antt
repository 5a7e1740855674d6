-- ===== src/Wlan/Calls.antt =====
-- Histories of calls and routines of kwlan-if/core.c, and the scans in them.
use hack.Base.{ℕ, List, Bool, ◌∷◌, [], some, none, ◌>>=◌, ◌++◌, Option, if◌then◌else◌, not}
use hack.Base.Int.{ℤ, pos, negsuc}
use hack.Wlan.{
  Wlan, Told, scan_done, disconnected, wi_scan, connect_bss, wi_disconnect, connect_timeout,
  wlanidt_scan_routine, wlanidt_connect_routine, wlanidt_disconnect_routine, wi_connect,
}

-- what the kernel calls, and the routines that the queue runs
pub data Call : Type 0 where
  scan : (interrupted : Bool) (request : ℕ) → Call
  connect : (interrupted : Bool) (ssid : List ℕ) → Call
  disconnect : (interrupted : Bool) (reason_code : ℕ) → Call
  run_scan : (interrupted : Bool) → Call
  run_connect : (interrupted : Bool) → Call
  run_disconnect : (interrupted : Bool) → Call

-- a scan that is accepted
abbrev pub accepted : ℕ → ℤ → List ℕ
accepted request (pos n) = request ∷ []
accepted request (negsuc n) = []

-- The queue runs only what is in it. With the state come the scans that are accepted.
unfoldable pub call : Call → Wlan → Option (List ℕ × Wlan)
call (scan interrupted request) s =
    let r = wi_scan interrupted request s in some (accepted request r.0, r.1)
call (connect interrupted ssid) s = do r ← wi_connect interrupted ssid s; some ([], r.1)
call (disconnect interrupted reason_code) s = some ([], (wi_disconnect interrupted reason_code s).1)
call (run_scan interrupted) s =
    if not s.ws_scan
    then some ([], s)
    else do s1 ← wlanidt_scan_routine interrupted s; some ([], s1)
call (run_connect interrupted) s =
    some ([], if s.ws_connect then wlanidt_connect_routine interrupted s else s)
call (run_disconnect interrupted) s =
    some ([], if s.ws_disconnect then wlanidt_disconnect_routine interrupted s else s)

unfoldable pub calls : List Call → Wlan → Option (List ℕ × Wlan)
calls [] s = some ([], s)
calls (c ∷ later) s = do
  (taken, s1) ← call c s
  (more, s2) ← calls later s1
  some (taken ++ more, s2)

-- the scans that are done, and the one that is not
abbrev pub dones : List Told → List ℕ
dones [] = []
dones (scan_done request ∷ told) = request ∷ dones told
dones (connect_bss ∷ told) = dones told
dones (connect_timeout ∷ told) = dones told
dones (disconnected reason_code ∷ told) = dones told

abbrev pub pending : Option ℕ → List ℕ
pending none = []
pending (some request) = request ∷ []

abbrev pub scans : Wlan → List ℕ
scans s = dones s.told ++ pending s.scan_request
