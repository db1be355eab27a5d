-- ===== src/PortScan/Scheduler/Submit.antt =====
-- The construction and the destruction of `PortScanScheduler` of src/portscan/port_scheduler.cpp, and
-- the submission of targets to it.
use skan.Base.{
  ℕ, ◌+◌, pos, ltz, Bool, true, false, ◌||◌, not, Option, none, some, List, [], ◌∷◌, ◌++◌, map,
  ◌==◌, if◌then◌else◌, length,
}
use skan.Base.Assoc.{Assoc}
use skan.Core.{StatusCode, ok, invalid_argument, permission_denied, memory_error, is_ok}
use skan.ScanEngine.Rtt.{Precision, or_else}
use skan.ScanEngine.Controller
use skan.ScanEngine.Controller.{TimingController}
use skan.ScanEngine.Scheduler.{Effect, cancel_timer, cancel_probe}
use skan.PortScan.Types.{
  Port, protocol_number, ScanProbeType, error, invalid_target, default_tcp_ports,
}
use skan.PortScan.Scheduler.State.{
  Host, PortProbe, PortScanConfig, Pending, DeferredRetry, PortScanScheduler, Surroundings,
  new_work, append_terminal_result, stop_if_idle,
}
use skan.PortScan.Scheduler.Pump.{pump}

-- The test of `submit` on its ports.
abbrev pub bad_ports : List Port → Bool
bad_ports [] = false
bad_ports (p ∷ ps) = not (protocol_number p.protocol == 0) || p.number == 0 || bad_ports ps

-- `valid_host_address`, where `is_address` is what `parse_ip_address` says of a text.
unfoldable pub valid_host_address : (List ℕ → Bool) → Host → Bool
valid_host_address is_address host =
    or_else host.ip_address (is_address host.address) (λ address. true)

module _ {D L : Type 0} (P : Precision D L) where
  open P use {double as F}

  -- `PortScanScheduler::PortScanScheduler`, given the probe of each method.
  unfoldable pub create :
      (ScanProbeType → Option PortProbe) → PortScanConfig D → PortScanScheduler D L
  create probes config = record {
    config = config;
    probe = probes config.method;
    timing =
        if config.adaptive_timing then some (Controller.create P config.timing_profile) else none;
    queue = [];
    pending = [];
    deferred_retries = [];
    results = [];
    results_sorted = true;
    next_id = 1;
    next_retry_id = 1;
    status = ok;
    submitted = false;
    effects = [];
  }

  -- `validate_config`, given the engine's status and whether the transport supports the method.
  unfoldable pub validate_config : StatusCode → Bool → PortScanScheduler D L → StatusCode
  validate_config initialization supported s =
      if not (is_ok initialization)
      then initialization
      else or_else s.probe permission_denied λ probe.
        if not supported
        then permission_denied
        else if not (ltz (pos 0) c.timeout)
            || ltz c.retry_delay (pos 0)
            || c.max_outstanding == 0
            || or_else s.timing false (λ t. not (is_ok (Controller.validate P t)))
        then invalid_argument
        else ok
    where
      open s use {config as c}

module _ {D L : Type 0} where
  -- The results of a host with no valid address.
  unfoldable pub refuse_host :
      Surroundings → Host → List Port → PortScanScheduler D L → PortScanScheduler D L
  refuse_host e host [] s = s
  refuse_host e host (p ∷ ps) s =
      refuse_host e host ps
        (append_terminal_result e.stored e.now (new_work host p) error invalid_target none s)

  -- The loop of `submit` over the hosts: whether it ends with no failed allocation, where `room` is
  -- asked for each host.
  unfoldable pub enqueue_hosts :
      Surroundings
      → (List ℕ → Bool)
      → (ℕ → Bool)
      → ℕ
      → List Host
      → List Port
      → PortScanScheduler D L
      → Bool × PortScanScheduler D L
  unfolding refuse_host
  enqueue_hosts e is_address room i [] ports s = (true, s)
  enqueue_hosts e is_address room i (host ∷ hosts) ports s = elim (room i) [
    | false ↦ (false, s)
    | true ↦ enqueue_hosts e is_address room (i + 1) hosts ports (
        if valid_host_address is_address host
        then record s { queue = s.queue ++ map (new_work host) ports }
        else record (refuse_host e host ports s) { status = invalid_argument })
  ]

  -- `submit` from the point where it is accepted.
  unfoldable pub submit_accepted :
      Surroundings
      → (List ℕ → Bool)
      → (ℕ → Bool)
      → List Host
      → List Port
      → PortScanScheduler D L
      → PortScanScheduler D L
  unfolding enqueue_hosts
  submit_accepted e is_address room hosts ports s =
      let (complete, s') =
        enqueue_hosts e is_address room 0 hosts ports (record s { submitted = true }) in
      if not complete
      then record s' { status = memory_error; queue = [] }
      else if is_ok s'.status
      then stop_if_idle (pump e.rounds s')
      else stop_if_idle (record s' { queue = [] })

module _ {D L : Type 0} (P : Precision D L) where
  -- `submit`; the state's status is the one that it returns, but where it was submitted before.
  unfoldable pub submit :
      StatusCode
      → Bool
      → Surroundings
      → (List ℕ → Bool)
      → (ℕ → Bool)
      → List Host
      → List Port
      → PortScanScheduler D L
      → StatusCode × PortScanScheduler D L
  unfolding submit_accepted validate_config
  submit initialization supported e is_address room hosts ports s =
      if s.submitted
      then (invalid_argument, s)
      else if not (is_ok config_status)
      then (config_status, record s { status = config_status })
      else if length hosts == 0 || length ports == 0 || bad_ports ports
      then (invalid_argument, record s { status = invalid_argument })
      else (accepted.status, accepted)
    where
      config_status : StatusCode
      config_status = validate_config P initialization supported s

      accepted : PortScanScheduler D L
      accepted = submit_accepted e is_address room hosts ports s

  -- `submit_default`
  unfoldable pub submit_default :
      StatusCode
      → Bool
      → Surroundings
      → (List ℕ → Bool)
      → (ℕ → Bool)
      → List Host
      → PortScanScheduler D L
      → StatusCode × PortScanScheduler D L
  unfolding submit default_tcp_ports
  submit_default initialization supported e is_address room hosts s =
      submit initialization supported e is_address room hosts default_tcp_ports s

-- The loops of `~PortScanScheduler`.
unfoldable pub cancel_pending : Assoc Pending → List Effect → List Effect
cancel_pending [] effects = effects
cancel_pending ((id, entry) ∷ rest) effects =
    cancel_pending rest (cancel_probe id ∷ cancel_timer entry.timer_id ∷ effects)

unfoldable pub cancel_retries : Assoc DeferredRetry → List Effect → List Effect
cancel_retries [] effects = effects
cancel_retries ((id, retry) ∷ rest) effects =
    cancel_retries rest (cancel_timer retry.timer_id ∷ effects)

module _ {D L : Type 0} where
  -- `PortScanScheduler::~PortScanScheduler`
  unfoldable pub destroy : PortScanScheduler D L → PortScanScheduler D L
  unfolding cancel_pending cancel_retries
  destroy s = record s {
    pending = [];
    deferred_retries = [];
    queue = [];
    effects = cancel_retries s.deferred_retries (cancel_pending s.pending s.effects);
  }
