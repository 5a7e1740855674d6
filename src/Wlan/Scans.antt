-- ===== src/Wlan/Scans.antt =====
-- What becomes of the scans that the kernel asks kwlan-if/core.c for.
use hack.Base.{
  ℕ, List, Bool, ◌∷◌, [], ◌≡◌, refl, true, false, some, none, ◌++◌, ◌∙◌, Option, sym, ap,
  append-nil, Bool-cases, if◌then◌else◌, inl, inr, append_assoc, length, arith, length-set, ◌<◌,
  length-take,
}
use hack.Base.Fault.{Runs, Runs-bind, Runs-mono}
use hack.Wlan.{
  Wlan, Told, scan_done, request_scan, disconnected, wi_scan, connect_bss, wi_disconnect,
  connect_timeout, wlanidt_scan_routine, wlanidt_connect_routine, wlanidt_disconnect_routine,
  started, memcmp, ssid_dummy, wi_connect,
}
use hack.Wlan.Calls.{
  Call, scan, connect, disconnect, run_scan, run_connect, run_disconnect, accepted, call, calls,
  dones, pending, scans,
}
use hack.Wlan.Names.{copy_ssid-fits, copied-length}

-- a scan in the queue has its request
abbrev pub Backed : Bool → Option ℕ → Type 0
Backed false request = Unit
Backed true none = ⊥
Backed true (some request) = Unit

-- what a call does to the scans
pub record Counts (s : Wlan) (r : List ℕ × Wlan) : Type 0 where
  pub backed : Backed r.1.ws_scan r.1.scan_request
  pub array : length r.1.connecting_ssid ≡ 8
  pub counted : scans r.1 ≡ scans s ++ r.0

dones-append : (xs ys : List Told) → dones (xs ++ ys) ≡ dones xs ++ dones ys
dones-append [] ys = refl
dones-append (scan_done request ∷ xs) ys = ap (◌∷◌ request) (dones-append xs ys)
dones-append (connect_bss ∷ xs) ys = dones-append xs ys
dones-append (connect_timeout ∷ xs) ys = dones-append xs ys
dones-append (disconnected reason_code ∷ xs) ys = dones-append xs ys

-- nothing has happened to the scans
same :
    (s s' : Wlan)
    → Backed s'.ws_scan s'.scan_request
    → length s'.connecting_ssid ≡ 8
    → scans s' ≡ scans s
    → Counts s ([], s')
same s s' h a e = record { backed = h; array = a; counted = e ∙ sym (append-nil (scans s)) }

-- a call that tells the kernel nothing of scans
tell_other : (t : Told) (s : Wlan) → dones (t ∷ []) ≡ [] → dones (s.told ++ t ∷ []) ≡ dones s.told
tell_other t s e =
    dones-append s.told (t ∷ []) ∙ ap (λ xs. dones s.told ++ xs) e ∙ append-nil (dones s.told)

tell_answer :
    (b : Bool) (s : Wlan)
    → dones (s.told ++ (if b then connect_bss else connect_timeout) ∷ []) ≡ dones s.told
tell_answer true s = tell_other connect_bss s refl
tell_answer false s = tell_other connect_timeout s refl

disconnect-Counts :
    (interrupted : Bool) (reason_code : ℕ) (s : Wlan)
    → Backed s.ws_scan s.scan_request
    → length s.connecting_ssid ≡ 8
    → Runs (Counts s) (call (disconnect interrupted reason_code) s)
unfolding call wi_disconnect
disconnect-Counts true reason_code s h e = same s s h e refl
disconnect-Counts false reason_code s h e = elim (Bool-cases s.ws_disconnect) [
  | inl f ↦ rw f (same _ _ h e refl)
  | inr f ↦ rw f (same _ _ h e refl)
]

run_connect-Counts :
    (interrupted queued : Bool) (s : Wlan)
    → Backed s.ws_scan s.scan_request
    → length s.connecting_ssid ≡ 8
    → Runs
        (Counts (record s { ws_connect = queued }))
        (call (run_connect interrupted) (record s { ws_connect = queued }))
unfolding call wlanidt_connect_routine
run_connect-Counts interrupted false s h e = same _ _ h e refl
run_connect-Counts true true s h e = same _ _ h e refl
run_connect-Counts false true s h e =
    same _ _ h (length-set s.connecting_ssid 0 0 ∙ e) (
      ap (λ xs. xs ++ pending s.scan_request) (tell_answer (memcmp s.connecting_ssid ssid_dummy) s))

run_disconnect-Counts :
    (interrupted queued : Bool) (s : Wlan)
    → Backed s.ws_scan s.scan_request
    → length s.connecting_ssid ≡ 8
    → Runs
        (Counts (record s { ws_disconnect = queued }))
        (call (run_disconnect interrupted) (record s { ws_disconnect = queued }))
unfolding call wlanidt_disconnect_routine
run_disconnect-Counts interrupted false s h e = same _ _ h e refl
run_disconnect-Counts true true s h e = same _ _ h e refl
run_disconnect-Counts false true s h e = same _ _ h e (
    ap (λ xs. xs ++ pending s.scan_request)
      (tell_other (disconnected s.disconnect_reason_code) s refl))

request_scan-Counts :
    (request : ℕ) (q : Option ℕ) (queued : Bool) (s : Wlan)
    → Backed queued q
    → length s.connecting_ssid ≡ 8
    → let s0 = record s { scan_request = q; ws_scan = queued } in
      Counts s0 (accepted request (request_scan request q s0).0, (request_scan request q s0).1)
request_scan-Counts request (some earlier) queued s h e = same _ _ h e refl
request_scan-Counts request none true s h e = absurd h
request_scan-Counts request none false s h e = record {
  backed = tt;
  array = e;
  counted = ap (λ xs. xs ++ request ∷ []) (sym (append-nil (dones s.told)));
}

scan-Counts :
    (interrupted : Bool) (request : ℕ) (s : Wlan)
    → Backed s.ws_scan s.scan_request
    → length s.connecting_ssid ≡ 8
    → Runs (Counts s) (call (scan interrupted request) s)
unfolding call wi_scan
scan-Counts true request s h e = same s s h e refl
scan-Counts false request s h e = request_scan-Counts request s.scan_request s.ws_scan s h e

routine-Counts :
    (interrupted : Bool) (q : Option ℕ) (s : Wlan)
    → Backed true q
    → length s.connecting_ssid ≡ 8
    → Runs
        (λ s'. Counts (record s { scan_request = q; ws_scan = true }) ([], s'))
        (wlanidt_scan_routine interrupted (record s { scan_request = q; ws_scan = true }))
unfolding wlanidt_scan_routine
routine-Counts true q s h e = same _ _ tt e refl
routine-Counts false none s h e = h
routine-Counts false (some request) s h e =
    same _ _ tt e (append-nil _ ∙ dones-append s.told (scan_done request ∷ []))

run_scan-Counts :
    (interrupted queued : Bool) (s : Wlan)
    → Backed queued s.scan_request
    → length s.connecting_ssid ≡ 8
    → Runs
        (Counts (record s { ws_scan = queued }))
        (call (run_scan interrupted) (record s { ws_scan = queued }))
unfolding call
run_scan-Counts interrupted false s h e = same _ _ tt e refl
run_scan-Counts interrupted true s h e =
    Runs-bind _ _ (wlanidt_scan_routine interrupted (record s { ws_scan = true })) _
      (routine-Counts interrupted s.scan_request s h e) λ s' c. c

-- the names that fit
abbrev pub IsFitting : Call → Type 0
IsFitting (connect interrupted ssid) = length ssid < 8
IsFitting c = Unit

abbrev pub AllFitting : List Call → Type 0
AllFitting [] = Unit
AllFitting (c ∷ cs) = IsFitting c × AllFitting cs

connect-Counts :
    (interrupted queued : Bool) (ssid : List ℕ) (s : Wlan)
    → length ssid < 8
    → Backed s.ws_scan s.scan_request
    → length s.connecting_ssid ≡ 8
    → Runs
        (Counts (record s { ws_connect = queued }))
        (call (connect interrupted ssid) (record s { ws_connect = queued }))
unfolding call wi_connect
connect-Counts true queued ssid s short h e = same _ _ h e refl
connect-Counts false true ssid s short h e =
    rw (copy_ssid-fits s.connecting_ssid ssid short e)
      (same _ _ h (copied-length s.connecting_ssid ssid short e) refl)
connect-Counts false false ssid s short h e =
    rw (copy_ssid-fits s.connecting_ssid ssid short e)
      (same _ _ h (copied-length s.connecting_ssid ssid short e) refl)

call-Counts :
    (c : Call) (s : Wlan)
    → IsFitting c
    → Backed s.ws_scan s.scan_request
    → length s.connecting_ssid ≡ 8
    → Runs (Counts s) (call c s)
call-Counts (scan interrupted request) s short h e = scan-Counts interrupted request s h e
call-Counts (connect interrupted ssid) s short h e =
    connect-Counts interrupted s.ws_connect ssid s short h e
call-Counts (disconnect interrupted reason_code) s short h e =
    disconnect-Counts interrupted reason_code s h e
call-Counts (run_scan interrupted) s short h e = run_scan-Counts interrupted s.ws_scan s h e
call-Counts (run_connect interrupted) s short h e =
    run_connect-Counts interrupted s.ws_connect s h e
call-Counts (run_disconnect interrupted) s short h e =
    run_disconnect-Counts interrupted s.ws_disconnect s h e

pub calls-Counts :
    (cs : List Call) (s : Wlan)
    → AllFitting cs
    → Backed s.ws_scan s.scan_request
    → length s.connecting_ssid ≡ 8
    → Runs (Counts s) (calls cs s)
unfolding calls
calls-Counts [] s short h e = same s s h e refl
calls-Counts (c ∷ cs) s short h e =
    Runs-bind _ _ (call c s) _ (call-Counts c s short.0 h e) λ r first.
      Runs-bind _ _ (calls cs r.1) _ (calls-Counts cs r.1 short.1 first.backed first.array)
        λ r' rest. record {
          backed = rest.backed;
          array = rest.array;
          counted =
              rest.counted ∙ ap (λ xs. xs ++ r'.0) first.counted ∙ append_assoc (scans s) r.0 r'.0;
        }

-- From the start of the module on, whatever is called and run in whatever order, with names of less than 8 bytes to
-- connect to: nothing is written behind an array, no scan is reported done without a request, and the scans
-- that were accepted are, in their order, those that are done and the one that is not.
pub calls-Scans :
    (unset : List ℕ) (cs : List Call)
    → length unset ≡ 7
    → AllFitting cs
    → Runs (λ r. scans r.1 ≡ r.0) (calls cs (started unset))
calls-Scans unset cs size short =
    Runs-mono _ _ (calls cs (started unset))
      (calls-Counts cs (started unset) short tt (omega (arith, length-take 7 unset (omega arith))))
      λ r c. c.counted
