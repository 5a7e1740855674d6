-- ===== src/Wlan/Stuck.antt =====
-- A scan of kwlan-if/core.c whose routine has been interrupted.
use hack.Base.{
  ℕ, List, Bool, ◌∷◌, [], ◌≡◌, refl, true, false, some, ◌++◌, ap₂, ap, sym, ◌∙◌, append-nil, length,
  Bool-cases, inl, inr, Option,
}
use hack.Base.Fault.{Runs, Runs-mono, Runs-Whenever, Whenever, Whenever-bind, Whenever-any}
use hack.Base.Int.{ℤ}
use hack.Wlan.{
  Wlan, wlanidt_disconnect_routine, wlanidt_connect_routine, wi_disconnect, wi_connect,
  schedule_connect, wi_scan, copy_ssid, wlanidt_scan_routine,
}
use hack.Wlan.Calls.{
  Call, scan, connect, disconnect, run_scan, run_connect, run_disconnect, call, calls, dones,
  pending, scans,
}
use hack.Wlan.Scans.{Counts, calls-Counts, Backed, AllFitting}

-- the scan is there, and no routine for it; nothing has been accepted
record IsStuck (request : ℕ) (r : List ℕ × Wlan) : Type 0 where
  pub taken : r.0 ≡ []
  pub request_left : r.1.scan_request ≡ some request
  pub unqueued : r.1.ws_scan ≡ false

scan-Stuck :
    (interrupted : Bool) (request q : ℕ) (s : Wlan)
    → Whenever
        (IsStuck q)
        (call (scan interrupted request) (record s { scan_request = some q; ws_scan = false }))
unfolding call wi_scan
scan-Stuck true request q s = record { taken = refl; request_left = refl; unqueued = refl }
scan-Stuck false request q s = record { taken = refl; request_left = refl; unqueued = refl }

scheduled-Stuck :
    (queued : Bool) (copied : List ℕ) (q : ℕ) (s : Wlan)
    → IsStuck q (
      [],
      (schedule_connect (record s {
        scan_request = some q;
        ws_scan = false;
        ws_connect = queued;
        connecting_ssid = copied;
      })).1,
    )
scheduled-Stuck true copied q s = record { taken = refl; request_left = refl; unqueued = refl }
scheduled-Stuck false copied q s = record { taken = refl; request_left = refl; unqueued = refl }

connect-Stuck :
    (interrupted queued : Bool) (ssid : List ℕ) (q : ℕ) (s : Wlan)
    → Whenever (IsStuck q) (
        call
          (connect interrupted ssid)
          (record s { scan_request = some q; ws_scan = false; ws_connect = queued }))
unfolding call wi_connect
connect-Stuck true queued ssid q s = record { taken = refl; request_left = refl; unqueued = refl }
connect-Stuck false queued ssid q s =
    Whenever-bind (λ (r : ℤ × Wlan). IsStuck q ([], r.1)) _ _ _
      (Whenever-bind (λ _. Unit {0}) _ (copy_ssid s.connecting_ssid ssid) _ (Whenever-any _)
        λ copied u. scheduled-Stuck queued copied q s)
      λ r h. h

disconnect-Stuck :
    (interrupted queued : Bool) (reason_code q : ℕ) (s : Wlan)
    → Whenever (IsStuck q) (
        call
          (disconnect interrupted reason_code)
          (record s { scan_request = some q; ws_scan = false; ws_disconnect = queued }))
unfolding call wi_disconnect
disconnect-Stuck true queued reason_code q s = record {
  taken = refl;
  request_left = refl;
  unqueued = refl;
}
disconnect-Stuck false true reason_code q s = record {
  taken = refl;
  request_left = refl;
  unqueued = refl;
}
disconnect-Stuck false false reason_code q s = record {
  taken = refl;
  request_left = refl;
  unqueued = refl;
}

run_connect-Stuck :
    (interrupted queued : Bool) (q : ℕ) (s : Wlan)
    → Whenever (IsStuck q) (
        call
          (run_connect interrupted)
          (record s { scan_request = some q; ws_scan = false; ws_connect = queued }))
unfolding call wlanidt_connect_routine
run_connect-Stuck interrupted false q s = record {
  taken = refl;
  request_left = refl;
  unqueued = refl;
}
run_connect-Stuck true true q s = record { taken = refl; request_left = refl; unqueued = refl }
run_connect-Stuck false true q s = record { taken = refl; request_left = refl; unqueued = refl }

run_disconnect-Stuck :
    (interrupted queued : Bool) (q : ℕ) (s : Wlan)
    → Whenever (IsStuck q) (
        call
          (run_disconnect interrupted)
          (record s { scan_request = some q; ws_scan = false; ws_disconnect = queued }))
unfolding call wlanidt_disconnect_routine
run_disconnect-Stuck interrupted false q s = record {
  taken = refl;
  request_left = refl;
  unqueued = refl;
}
run_disconnect-Stuck true true q s = record { taken = refl; request_left = refl; unqueued = refl }
run_disconnect-Stuck false true q s = record { taken = refl; request_left = refl; unqueued = refl }

run_scan-Stuck :
    (interrupted : Bool) (q : ℕ) (s : Wlan)
    → Whenever
        (IsStuck q)
        (call (run_scan interrupted) (record s { scan_request = some q; ws_scan = false }))
unfolding call
run_scan-Stuck interrupted q s = record { taken = refl; request_left = refl; unqueued = refl }

call-Stuck :
    (c : Call) (q : ℕ) (s : Wlan)
    → Whenever (IsStuck q) (call c (record s { scan_request = some q; ws_scan = false }))
call-Stuck (scan interrupted request) q s = scan-Stuck interrupted request q s
call-Stuck (connect interrupted ssid) q s = connect-Stuck interrupted s.ws_connect ssid q s
call-Stuck (disconnect interrupted reason_code) q s =
    disconnect-Stuck interrupted s.ws_disconnect reason_code q s
call-Stuck (run_scan interrupted) q s = run_scan-Stuck interrupted q s
call-Stuck (run_connect interrupted) q s = run_connect-Stuck interrupted s.ws_connect q s
call-Stuck (run_disconnect interrupted) q s = run_disconnect-Stuck interrupted s.ws_disconnect q s

-- The state whose fields are these is the state itself.
call_from-Stuck :
    (c : Call) (q : ℕ) (s : Wlan) (request : Option ℕ) (queued : Bool)
    → request ≡ some q
    → queued ≡ false
    → Whenever (IsStuck q) (call c (record s { scan_request = request; ws_scan = queued }))
call_from-Stuck c q s request queued e f = rw e (rw f (call-Stuck c q s))

-- a scan whose routine is not in the queue
abbrev Left : ℕ → List ℕ × Wlan → Type 0
Left q r = (r.0 ≡ []) × (r.1.scan_request ≡ some q)

calls_unqueued-Left :
    (cs : List Call) (q : ℕ) (s : Wlan)
    → s.scan_request ≡ some q
    → s.ws_scan ≡ false
    → Whenever (Left q) (calls cs s)
unfolding calls
calls_unqueued-Left [] q s e f = (refl, e)
calls_unqueued-Left (c ∷ cs) q s e f =
    Whenever-bind (IsStuck q) (Left q) (call c s) _
      (call_from-Stuck c q s s.scan_request s.ws_scan e f)
      λ r first.
        Whenever-bind (Left q) (Left q) (calls cs r.1) _
          (calls_unqueued-Left cs q r.1 first.request_left first.unqueued)
          λ r' rest. (ap₂ ◌++◌ first.taken rest.0, rest.1)

-- the routine of a scan that gets a signal
signal-Stuck :
    (q : ℕ) (s : Wlan)
    → s.scan_request ≡ some q
    → s.ws_scan ≡ true
    → Whenever (IsStuck q) (call (run_scan true) s)
unfolding call wlanidt_scan_routine
signal-Stuck q s e queued = rw queued (record { taken = refl; request_left = e; unqueued = refl })

calls_signal-Left :
    (cs : List Call) (q : ℕ) (s : Wlan)
    → s.scan_request ≡ some q
    → s.ws_scan ≡ true
    → Whenever (Left q) (calls (run_scan true ∷ cs) s)
unfolding calls
calls_signal-Left cs q s e queued =
    Whenever-bind (IsStuck q) (Left q) (call (run_scan true) s) _ (signal-Stuck q s e queued)
      λ r first.
        Whenever-bind (Left q) (Left q) (calls cs r.1) _
          (calls_unqueued-Left cs q r.1 first.request_left first.unqueued)
          λ r' rest. (ap₂ ◌++◌ first.taken rest.0, rest.1)

queued-Backed : (q : ℕ) (s : Wlan) → s.scan_request ≡ some q → Backed s.ws_scan s.scan_request
queued-Backed q s e = rw e (elim (Bool-cases s.ws_scan) [ inl b ↦ rw b tt | inr b ↦ rw b tt ])

init : List ℕ → List ℕ
init [] = []
init (x ∷ []) = []
init (x ∷ y ∷ xs) = x ∷ init (y ∷ xs)

init-append : (xs : List ℕ) (q : ℕ) → init (xs ++ q ∷ []) ≡ xs
unfolding init
init-append [] q = refl
init-append (x ∷ []) q = refl
init-append (x ∷ y ∷ xs) q = ap (◌∷◌ x) (init-append (y ∷ xs) q)

-- With the same scan left and none accepted, none has been done.
none_done :
    (q : ℕ) (s s' : Wlan) (taken : List ℕ)
    → s.scan_request ≡ some q
    → s'.scan_request ≡ some q
    → taken ≡ []
    → scans s' ≡ scans s ++ taken
    → dones s'.told ≡ dones s.told
none_done q s s' taken e e' t counted =
    let after : dones s'.told ++ pending s'.scan_request ≡ dones s'.told ++ q ∷ [] =
      ap (λ o. dones s'.told ++ pending o) e' in
    let before : scans s ++ taken ≡ dones s.told ++ q ∷ [] =
      ap (λ xs. scans s ++ xs) t ∙ append-nil (scans s) ∙ ap (λ o. dones s.told ++ pending o) e in
    sym (init-append (dones s'.told) q)
    ∙ ap init (sym after ∙ counted ∙ before)
    ∙ init-append (dones s.told) q

-- When a signal keeps the queued routine of a scan from its semaphore, then whatever is called and run later, with
-- names of less than 8 bytes to connect to: nothing is written behind an array, no scan is accepted
-- any more, none is reported done to the kernel, and the scan stays the one that is asked for.
pub calls-Stuck :
    (cs : List Call) (q : ℕ) (s : Wlan)
    → AllFitting cs
    → length s.connecting_ssid ≡ 8
    → s.scan_request ≡ some q
    → s.ws_scan ≡ true
    → Runs
        (λ r. (r.0 ≡ []) × (dones r.1.told ≡ dones s.told) × (r.1.scan_request ≡ some q))
        (calls (run_scan true ∷ cs) s)
calls-Stuck cs q s short array e queued =
    let history = calls (run_scan true ∷ cs) s in
    Runs-mono _ _ history
      (Runs-Whenever (Counts s) (Left q) history
        (calls-Counts (run_scan true ∷ cs) s (tt, short) (queued-Backed q s e) array)
        (calls_signal-Left cs q s e queued))
      λ r h. (h.1.0, none_done q s r.1 r.0 e h.1.1 h.1.0 h.0.counted, h.1.1)
