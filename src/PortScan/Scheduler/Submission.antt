-- ===== src/PortScan/Scheduler/Submission.antt =====
-- What a submission to src/portscan/port_scheduler.cpp can cost: the attempts that it gives away.
use skan.Base.{
  ℕ, suc, ◌+◌, ◌*◌, ◌^◌, ◌≤◌, ◌<◌, ◌≡◌, refl, ◌∙◌, Bool, true, ◌||◌, Option, none, List, [], ◌∷◌,
  ◌++◌, map, length, arith, ◌==◌, Bool-cases, inl, inr,
}
use skan.Base.Assoc.{sum_of}
use skan.Core.{StatusCode, invalid_argument, is_ok}
use skan.ScanEngine.Rtt.{Precision}
use skan.PortScan.Types
use skan.PortScan.Types.{Port, ScanProbeType}
use skan.PortScan.Scheduler.State.{
  Host, PortProbe, PortScanConfig, new_work, WorkItem, PortScanScheduler, Surroundings,
}
use skan.PortScan.Scheduler.Pump.{pump}
use skan.PortScan.Scheduler.Attempt.{max_retries}
use skan.PortScan.Scheduler.Submit.{
  create, bad_ports, valid_host_address, validate_config, refuse_host, enqueue_hosts,
  submit_accepted, submit,
}
use skan.PortScan.Scheduler.Run.{Call}
use skan.PortScan.Scheduler.Attempts.{
  queue_left, attempts, attempts-append, attempts-stop_if_idle, attempts-pump,
}
use skan.PortScan.Scheduler.Allowance.{
  max_retries-append, max_retries-stop_if_idle, max_retries-pump,
}
use skan.PortScan.Scheduler.Termination.{spent, attempts-run_calls}

queue_left-append :
    (bound : ℕ) (xs ys : List WorkItem)
    → queue_left bound (xs ++ ys) ≡ queue_left bound xs + queue_left bound ys
queue_left-append bound [] ys = omega arith
queue_left-append bound (x ∷ xs) ys = omega (arith, queue_left-append bound xs ys)

queue_left-new :
    (bound : ℕ) (host : Host) (ports : List Port)
    → queue_left bound (map (new_work host) ports) ≡ length ports * suc bound
queue_left-new bound host [] = omega arith
queue_left-new bound host (p ∷ ps) = ground (arith, queue_left-new bound host ps)

one_more : (n cost : ℕ) → suc n * cost ≡ cost + n * cost
one_more n cost = ground arith

module _ {D L : Type 0} (e : Surroundings) (bound : ℕ) where
  attempts-refuse_host :
      (host : Host) (ports : List Port) (s : PortScanScheduler D L)
      → attempts bound (refuse_host e host ports s) ≡ attempts bound s
  unfolding refuse_host
  attempts-refuse_host host [] s = refl
  attempts-refuse_host host (p ∷ ps) s =
      attempts-refuse_host host ps _
      ∙ attempts-append bound e.stored e.now (new_work host p) Types.error Types.invalid_target none
          s

  max_retries-refuse_host :
      (host : Host) (ports : List Port) (s : PortScanScheduler D L)
      → max_retries (refuse_host e host ports s) ≡ max_retries s
  unfolding refuse_host
  max_retries-refuse_host host [] s = refl
  max_retries-refuse_host host (p ∷ ps) s =
      max_retries-refuse_host host ps _
      ∙ max_retries-append e.stored e.now (new_work host p) Types.error Types.invalid_target none s

  module _ (is_address : List ℕ → Bool) (room : ℕ → Bool) where
    attempts-enqueue_hosts :
        (i : ℕ) (hosts : List Host) (ports : List Port) (s : PortScanScheduler D L)
        → attempts bound (enqueue_hosts e is_address room i hosts ports s).1
          ≤ attempts bound s + length hosts * (length ports * suc bound)
    unfolding enqueue_hosts
    attempts-enqueue_hosts i [] ports s = omega arith
    attempts-enqueue_hosts i (host ∷ hosts) ports s =
        let queued = record s { queue = s.queue ++ map (new_work host) ports } in
        let refused = record (refuse_host e host ports s) { status = invalid_argument } in
        let cost = length ports * suc bound in
        elim (Bool-cases (room i)) [
          | inr f ↦ rw (f, enqueue_hosts) (omega arith)
          | inl f ↦ elim (Bool-cases (valid_host_address is_address host)) [
            | inl g ↦
                rw (f, g, enqueue_hosts)
                  (omega (
                    arith,
                    attempts-enqueue_hosts (i + 1) hosts ports queued,
                    queue_left-append bound s.queue (map (new_work host) ports),
                    queue_left-new bound host ports,
                    one_more (length hosts) cost,
                  ))
            | inr g ↦
                rw (f, g, enqueue_hosts)
                  (omega (
                    arith,
                    attempts-enqueue_hosts (i + 1) hosts ports refused,
                    attempts-refuse_host host ports s,
                    one_more (length hosts) cost,
                  ))
          ]
        ]

    max_retries-enqueue_hosts :
        (i : ℕ) (hosts : List Host) (ports : List Port) (s : PortScanScheduler D L)
        → max_retries (enqueue_hosts e is_address room i hosts ports s).1 ≡ max_retries s
    unfolding enqueue_hosts
    max_retries-enqueue_hosts i [] ports s = refl
    max_retries-enqueue_hosts i (host ∷ hosts) ports s =
        let queued = record s { queue = s.queue ++ map (new_work host) ports } in
        let refused = record (refuse_host e host ports s) { status = invalid_argument } in
        elim (Bool-cases (room i)) [
          | inr f ↦ rw (f, enqueue_hosts) refl
          | inl f ↦ elim (Bool-cases (valid_host_address is_address host)) [
            | inl g ↦
                rw (f, g, enqueue_hosts) (max_retries-enqueue_hosts (i + 1) hosts ports queued)
            | inr g ↦
                rw (f, g, enqueue_hosts)
                  (max_retries-enqueue_hosts (i + 1) hosts ports refused
                    ∙ max_retries-refuse_host host ports s)
          ]
        ]

    attempts-submit_accepted :
        (hosts : List Host) (ports : List Port) (s : PortScanScheduler D L)
        → attempts bound (submit_accepted e is_address room hosts ports s)
          ≤ attempts bound s + length hosts * (length ports * suc bound)
    unfolding submit_accepted
    attempts-submit_accepted hosts ports s =
        let t = (enqueue_hosts e is_address room 0 hosts ports (record s { submitted = true })).1 in
        let cleared = record t { queue = [] } in
        let cost = attempts-enqueue_hosts 0 hosts ports (record s { submitted = true }) in
        let complete =
          (enqueue_hosts e is_address room 0 hosts ports (record s { submitted = true })).0 in
        elim (Bool-cases complete) [
          | inr f ↦ rw f (omega (arith, cost))
          | inl f ↦ elim (Bool-cases (is_ok t.status)) [
            | inl g ↦
                rw (f, g)
                  (omega (
                    arith,
                    cost,
                    attempts-pump bound e.rounds t,
                    attempts-stop_if_idle bound (pump e.rounds t),
                  ))
            | inr g ↦ rw (f, g) (omega (arith, cost, attempts-stop_if_idle bound cleared))
          ]
        ]

    max_retries-submit_accepted :
        (hosts : List Host) (ports : List Port) (s : PortScanScheduler D L)
        → max_retries (submit_accepted e is_address room hosts ports s) ≡ max_retries s
    unfolding submit_accepted
    max_retries-submit_accepted hosts ports s =
        let t = (enqueue_hosts e is_address room 0 hosts ports (record s { submitted = true })).1 in
        let same = max_retries-enqueue_hosts 0 hosts ports (record s { submitted = true }) in
        let complete =
          (enqueue_hosts e is_address room 0 hosts ports (record s { submitted = true })).0 in
        elim (Bool-cases complete) [
          | inr f ↦ rw f same
          | inl f ↦ elim (Bool-cases (is_ok t.status)) [
            | inl g ↦
                rw (f, g)
                  (max_retries-stop_if_idle (pump e.rounds t) ∙ max_retries-pump e.rounds t ∙ same)
            | inr g ↦ rw (f, g) (max_retries-stop_if_idle (record t { queue = [] }) ∙ same)
          ]
        ]

module _ {D L : Type 0} (P : Precision D L) where
  -- A submission gives away the attempts of every host with every port at most.
  attempts-submit :
      (bound : ℕ) (initialization : StatusCode) (supported : Bool) (e : Surroundings)
      (is_address : List ℕ → Bool) (room : ℕ → Bool) (hosts : List Host) (ports : List Port)
      (s : PortScanScheduler D L)
      → (attempts bound (submit P initialization supported e is_address room hosts ports s).1
          ≤ attempts bound s + length hosts * (length ports * suc bound))
        × (max_retries (submit P initialization supported e is_address room hosts ports s).1
            ≡ max_retries s)
  unfolding submit
  attempts-submit bound initialization supported e is_address room hosts ports s =
      let valid = is_ok (validate_config P initialization supported s) in
      let given = length hosts == 0 || length ports == 0 || bad_ports ports in
      elim (Bool-cases s.submitted) [
        | inl f ↦ rw (f, submit) (omega arith, refl)
        | inr f ↦ elim (Bool-cases valid) [
          | inr g ↦ rw (f, g, submit) (omega arith, refl)
          | inl g ↦ elim (Bool-cases given) [
            | inl h ↦ rw (f, g, h, submit) (omega arith, refl)
            | inr h ↦
                rw (f, g, h, submit)
                  (
                    attempts-submit_accepted e bound is_address room hosts ports s,
                    max_retries-submit_accepted e bound is_address room hosts ports s,
                  )
          ]
        ]
      ]

  attempts-create :
      (probes : ScanProbeType → Option PortProbe) (config : PortScanConfig D) (bound : ℕ)
      → attempts bound (create P probes config) ≡ 0
  unfolding create sum_of
  attempts-create probes config bound = refl

  -- After a submission of hosts and ports, valid or not, to a new scheduler, whatever the surroundings
  -- answer and in whatever order responses, timeouts and retries come, the timeouts that find the
  -- probe that they are for are at most as many as the pairs of a host and a port times one more than
  -- the number of allowed retries, where that number is a 64-bit word.
  pub scan_ends :
      (probes : ScanProbeType → Option PortProbe) (config : PortScanConfig D)
      (initialization : StatusCode) (supported : Bool) (e : Surroundings)
      (is_address : List ℕ → Bool) (room : ℕ → Bool) (hosts : List Host) (ports : List Port)
      (calls : List Call)
      → max_retries (create P probes config) < 2 ^ 64
      → spent P calls
          (submit P initialization supported e is_address room hosts ports
            (create P probes config)).1
        ≤ length hosts * (length ports * suc (max_retries (create P probes config)))
  scan_ends probes config initialization supported e is_address room hosts ports calls small =
      let s = create P probes config in
      let s' = (submit P initialization supported e is_address room hosts ports s).1 in
      let (cost, same) =
        attempts-submit (max_retries s) initialization supported e is_address room hosts ports s in
      omega (
        arith,
        cost,
        attempts-create probes config (max_retries s),
        attempts-run_calls P (max_retries s) calls s' small same,
      )
