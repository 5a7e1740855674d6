-- ===== src/Wlan/Tests.antt =====
-- Runs of the model of kwlan-if/core.c.
use hack.Base.{ℕ, List, ◌∷◌, [], ◌≡◌, refl, true, false, some, replicate, arith}
use hack.Base.Fault.{Runs}
use hack.Wlan.{
  Wlan, started, wi_connect, wi_scan, wlanidt_scan_routine, wlanidt_connect_routine, memcmp,
  scan_done, connect_bss,
}
use hack.Wlan.Calls.{Call, scan, connect, run_scan, run_connect, calls, scans, call, dones}
use hack.Wlan.Stuck.{calls-Stuck}
use hack.Wlan.Scans.{calls-Scans}

abbrev unset : List ℕ
unset = replicate 7 170

-- two scans, the second of which comes too early, and a connection
abbrev history : List Call
history =
    scan false 100
    ∷ scan false 200
    ∷ connect false (b'A' ∷ b'P' ∷ b'I' ∷ b'D' ∷ b'I' ∷ b'O' ∷ b'T' ∷ [])
    ∷ run_scan false
    ∷ run_connect false
    ∷ []

history_run :
    calls history (started unset)
    ≡ some (
      100 ∷ [],
      record (started unset) {
        connecting_ssid = 0 ∷ b'P' ∷ b'I' ∷ b'D' ∷ b'I' ∷ b'O' ∷ b'T' ∷ 0 ∷ [];
        told = scan_done 100 ∷ connect_bss ∷ [];
      },
    )
unfolding calls call wi_scan wi_connect wlanidt_scan_routine wlanidt_connect_routine memcmp
history_run = refl

calls-Scans_example : Runs (λ r. scans r.1 ≡ r.0) (calls history (started unset))
calls-Scans_example =
    calls-Scans unset history (omega arith) (tt, (tt, (omega arith, (tt, (tt, tt)))))

-- a scan is in the queue
abbrev queued : Wlan
queued = record (started unset) { scan_request = some 100; ws_scan = true }

calls-Stuck_example :
    Runs
      (λ r. (r.0 ≡ []) × (dones r.1.told ≡ []) × (r.1.scan_request ≡ some 100))
      (calls (run_scan true ∷ history) queued)
calls-Stuck_example =
    calls-Stuck history 100 queued (tt, (tt, (omega arith, (tt, (tt, tt))))) refl refl refl
