-- ===== src/PortScan/Scheduler/Run.antt =====
-- Sequences of the calls that src/portscan/port_scheduler.cpp gets from the transport and from the io
-- engine, after a submission.
use skan.Base.{
  ℕ, ◌+◌, ◌*◌, ◌≡◌, refl, ◌∙◌, Bool, true, false, ◌||◌, Option, List, [], ◌∷◌, length, arith, ◌==◌,
}
use skan.Core.{StatusCode, is_ok}
use skan.ScanEngine.Rtt.{Precision}
use skan.PortScan.Types.{Port, ScanProbeType}
use skan.PortScan.Probes.{PortResponse}
use skan.PortScan.Scheduler.State.{
  Host, PortProbe, PortScanConfig, PortScanScheduler, Surroundings, is_complete,
}
use skan.PortScan.Scheduler.Handlers.{receive, on_timeout, on_retry_ready}
use skan.PortScan.Scheduler.Submit.{bad_ports, create, validate_config, submit}
use skan.PortScan.Scheduler.Conservation.{AllRoomy, total}
use skan.PortScan.Scheduler.Results.{
  all_addressed, total-receive, total-on_timeout, total-on_retry_ready, total-submit_accepted,
}

-- A call, with what the surroundings answer in it.
pub data Call : Type 0 where
  responds : Surroundings → PortResponse → Call
  times_out : Surroundings → ℕ → Call
  retry_is_ready : Surroundings → ℕ → Call

abbrev pub surroundings : Call → Surroundings
surroundings (responds e response) = e
surroundings (times_out e id) = e
surroundings (retry_is_ready e id) = e

-- No allocation fails in any call.
abbrev pub AllRoomyCalls : List Call → Type 0
AllRoomyCalls [] = Unit
AllRoomyCalls (call ∷ calls) = AllRoomy (surroundings call) × AllRoomyCalls calls

module _ {D L : Type 0} (P : Precision D L) where
  abbrev pub act : Call → PortScanScheduler D L → PortScanScheduler D L
  act (responds e response) s = receive P e response s
  act (times_out e id) s = on_timeout P e id s
  act (retry_is_ready e id) s = on_retry_ready e id s

  abbrev pub run_calls : List Call → PortScanScheduler D L → PortScanScheduler D L
  run_calls [] s = s
  run_calls (call ∷ calls) s = run_calls calls (act call s)

  total-act :
      (call : Call) (s : PortScanScheduler D L)
      → AllRoomy (surroundings call)
      → total (act call s) ≡ total s
  total-act (responds e response) s roomy = total-receive e roomy P response s
  total-act (times_out e id) s roomy = total-on_timeout e roomy P id s
  total-act (retry_is_ready e id) s roomy = total-on_retry_ready e roomy id s

  -- Where no allocation fails, a sequence of responses, timeouts and retries keeps the number of
  -- probes that are queued, pending, put off or reported, from every state of the scheduler.
  pub total-run_calls :
      (calls : List Call) (s : PortScanScheduler D L)
      → AllRoomyCalls calls
      → total (run_calls calls s) ≡ total s
  total-run_calls [] s roomy = refl
  total-run_calls (call ∷ calls) s (roomy, rest) =
      total-run_calls calls (act call s) rest ∙ total-act call s roomy

  -- A submission that is accepted answers for each host with each port.
  total-submit :
      (initialization : StatusCode) (supported : Bool) (e : Surroundings)
      (is_address : List ℕ → Bool) (room : ℕ → Bool) (hosts : List Host) (ports : List Port)
      (s : PortScanScheduler D L)
      → s.submitted ≡ false
      → is_ok s.status ≡ true
      → is_ok (validate_config P initialization supported s) ≡ true
      → (length hosts == 0 || length ports == 0 || bad_ports ports) ≡ false
      → AllRoomy e
      → ((i : ℕ) → room i ≡ true)
      → all_addressed is_address hosts ≡ true
      → total (submit P initialization supported e is_address room hosts ports s).1
        ≡ total s + length hosts * length ports
  unfolding submit
  total-submit initialization supported e is_address room hosts ports s fresh fine valid given roomy
        all_room h =
      rw (fresh, valid, given)
        (total-submit_accepted e is_address room roomy all_room hosts ports s h fine)

  complete-results : (s : PortScanScheduler D L) → is_complete s ≡ true → length s.results ≡ total s
  unfolding is_complete
  complete-results s h = ground arith

  -- After a new scheduler accepts hosts with valid addresses and TCP ports, and with no allocation
  -- that fails, then whenever it is complete, after whatever responses, timeouts and retries, it has
  -- as many results as there are pairs of a host and a port.
  pub all_probes_reported :
      (probes : ScanProbeType → Option PortProbe) (config : PortScanConfig D)
      (initialization : StatusCode) (supported : Bool) (e : Surroundings)
      (is_address : List ℕ → Bool) (room : ℕ → Bool) (hosts : List Host) (ports : List Port)
      (calls : List Call)
      → is_ok (validate_config P initialization supported (create P probes config)) ≡ true
      → (length hosts == 0 || length ports == 0 || bad_ports ports) ≡ false
      → AllRoomy e
      → ((i : ℕ) → room i ≡ true)
      → all_addressed is_address hosts ≡ true
      → AllRoomyCalls calls
      → is_complete (
          run_calls calls
            (submit P initialization supported e is_address room hosts ports
              (create P probes config)).1)
        ≡ true
      → length
          (run_calls calls
            (submit P initialization supported e is_address room hosts ports
              (create P probes config)).1).results
        ≡ length hosts * length ports
  unfolding create
  all_probes_reported probes config initialization supported e is_address room hosts ports calls
        valid given roomy all_room h roomy_calls done =
      let s = create P probes config in
      let s' = (submit P initialization supported e is_address room hosts ports s).1 in
      complete-results (run_calls calls s') done
      ∙ total-run_calls calls s' roomy_calls
      ∙ total-submit initialization supported e is_address room hosts ports s refl refl valid given
          roomy all_room h
      ∙ omega arith
