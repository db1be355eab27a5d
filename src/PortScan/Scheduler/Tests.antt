-- ===== src/PortScan/Scheduler/Tests.antt =====
-- A scan of two ports of one host, whose probes are lost and are sent again once.
use skan.Base.{
  none, ℕ, suc, ap, ◌^◌, ◌+◌, ◌*◌, ◌≡◌, ◌≤◌, ◌<◌, refl, true, false, some, List, [], ◌∷◌, length,
  ◌==◌, arith, pos,
}
use skan.Base.Assoc.{find, emplace, erase}
use skan.Core.{ok, permission_denied, is_ok}
use skan.ScanEngine.Group.Fixture.{precision}
use skan.Floats.Sample.{thousandths}
use skan.ScanEngine.Timing.{for_id, t3}
use skan.ScanEngine.Scheduler.{never}
use skan.PortScan.Types.{
  Port, tcp, tcp_syn, filtered, timeout, syn_ack, open_port, valid_port_result_semantics,
}
use skan.PortScan.Probes.{PortResponse, packet, SystemErrors, assess_syn, assessed}
use skan.PortScan.Probes.Semantics.{assessments-IsMeaningful}
use skan.PortScan.Scheduler.Fitting.{IsSound, AllFit}
use skan.PortScan.Scheduler.Meaning.{results_are_meaningful}
use skan.PortScan.Scheduler.State.{
  Host, PortProbe, PortScanConfig, PortScanScheduler, Surroundings, append_terminal_result,
  is_complete, stop_if_idle,
}
use skan.PortScan.Scheduler.Pump.{
  answered, submit_at, register, try_at, try_submit, launch, pump_loop, pump,
}
use skan.PortScan.Scheduler.Attempt.{
  max_retries, should_confirm_negative, decide, defer_retry, settle, finish_attempt,
}
use skan.PortScan.Scheduler.Handlers.{on_timeout, on_retry_ready}
use skan.PortScan.Scheduler.Submit.{
  create, validate_config, valid_host_address, enqueue_hosts, submit_accepted, submit,
}
use skan.PortScan.Scheduler.Conservation.{AllRoomy}
use skan.PortScan.Scheduler.Results.{all_addressed}
use skan.PortScan.Scheduler.Run.{
  responds, Call, times_out, retry_is_ready, run_calls, all_probes_reported,
}
use skan.PortScan.Scheduler.Termination.{spent}
use skan.PortScan.Scheduler.Failure.{HasFailed, failure_never_completes}
use skan.PortScan.Scheduler.Submission.{scan_ends}

abbrev probe : PortProbe
probe = record {
  build = λ id host port. (
    ok,
    record {
      id = id;
      probe = tcp_syn;
      target = host.address;
      port = port;
      source_port = 40000;
      sequence_number = 1;
      acknowledgment_number = 0;
      target_ip = host.ip_address;
      source_ip = none;
    },
  );
  timeout_state = filtered;
  timeout_reason = timeout;
  assess = λ response submission. assessed open_port syn_ack;
}

abbrev config : PortScanConfig ℕ
config = record {
  method = tcp_syn;
  timeout = pos 1000;
  max_outstanding = 8;
  adaptive_timing = false;
  timing_profile = for_id thousandths t3;
  retries = 1;
  retry_delay = pos 5;
}

abbrev host : Host
host = record { address = 49 ∷ []; ip_address = some 1 }

abbrev ports : List Port
ports = record { number = 80; protocol = tcp } ∷ record { number = 443; protocol = tcp } ∷ []

abbrev surroundings : Surroundings
surroundings = record {
  now = pos 7;
  stored = true;
  retry_timer = 50;
  retry_stored = true;
  pushed = true;
  rounds = λ i. record {
    now = pos 7;
    timer_id = 10 + i;
    submit_status = ok;
    memory = never;
    stored = true;
  };
}

abbrev roomy : AllRoomy surroundings
roomy = record {
  stored = refl;
  retry_stored = refl;
  pushed = refl;
  rounds = λ i. record { memory = refl; stored = refl };
}

-- Both probes are lost, sent again and lost again.
abbrev calls : List Call
calls =
    times_out surroundings 1
    ∷ times_out surroundings 2
    ∷ retry_is_ready surroundings 1
    ∷ retry_is_ready surroundings 2
    ∷ times_out surroundings 3
    ∷ times_out surroundings 4
    ∷ []

abbrev started : PortScanScheduler ℕ ℕ
started =
    (submit precision ok true surroundings (λ text. false) (λ i. true) (host ∷ []) ports
      (create precision (λ method. some probe) config)).1

config_is_valid :
    validate_config precision ok true (create precision (λ method. some probe) config) ≡ ok
unfolding validate_config create
config_is_valid = refl

scan_is_complete : is_complete (run_calls precision calls started) ≡ true
unfolding is_complete submit submit_accepted enqueue_hosts valid_host_address validate_config create
    pump pump_loop launch try_submit try_at register submit_at answered stop_if_idle on_timeout
    finish_attempt settle decide should_confirm_negative defer_retry on_retry_ready
    append_terminal_result find emplace erase
scan_is_complete = refl

all_valid : all_addressed (λ text. false) (host ∷ []) ≡ true
unfolding valid_host_address
all_valid = refl

retries_are_words : max_retries (create precision (λ method. some probe) config) < 2 ^ 64
unfolding create
retries_are_words = omega arith

all_probes_reported_example :
    length (run_calls precision calls started).results ≡ length (host ∷ []) * length ports
all_probes_reported_example =
    all_probes_reported precision (λ method. some probe) config ok true surroundings (λ text. false)
      (λ i. true) (host ∷ []) ports calls (ap is_ok config_is_valid) refl roomy (λ i. refl)
      all_valid (roomy, (roomy, (roomy, (roomy, (roomy, (roomy, tt)))))) scan_is_complete

scan_ends_example :
    spent precision calls started
    ≤ length (host ∷ [])
      * (length ports * suc (max_retries (create precision (λ method. some probe) config)))
scan_ends_example =
    scan_ends precision (λ method. some probe) config ok true surroundings (λ text. false)
      (λ i. true) (host ∷ []) ports calls retries_are_words

-- A transport that refuses every probe.
abbrev refusing : Surroundings
refusing = record surroundings {
  rounds = λ i. record {
    now = pos 7;
    timer_id = 10 + i;
    submit_status = permission_denied;
    memory = never;
    stored = true;
  };
}

abbrev refused : PortScanScheduler ℕ ℕ
refused =
    (submit precision ok true refusing (λ text. false) (λ i. true) (host ∷ []) ports
      (create precision (λ method. some probe) config)).1

refused_has_failed : (is_ok refused.status ≡ false) × (length refused.queue == 0) ≡ false
unfolding is_complete submit submit_accepted enqueue_hosts valid_host_address validate_config create
    pump pump_loop launch try_submit try_at register submit_at answered stop_if_idle
    append_terminal_result find emplace erase
refused_has_failed = (refl, refl)

failure_never_completes_example :
    HasFailed (run_calls precision calls refused)
    × is_complete (run_calls precision calls refused) ≡ false
failure_never_completes_example =
    failure_never_completes precision calls refused refused_has_failed.0 refused_has_failed.1

-- The SYN probe with its own assessment, and the answer of port 80 to it.
abbrev syn_probe : PortProbe
syn_probe = record probe { assess = assess_syn }

abbrev errors : SystemErrors
errors = record {
  timed_out = 110;
  address_not_available = 99;
  net_unreachable = 101;
  host_unreachable = 113;
  net_down = 100;
  host_down = 112;
  net_reset = 102;
}

abbrev answer : PortResponse
answer = record {
  id = 1;
  source_address = 49 ∷ [];
  kind = packet;
  system_error = 0;
  bytes = 0 ∷ 80 ∷ 156 ∷ 64 ∷ 0 ∷ 0 ∷ 0 ∷ 55 ∷ 0 ∷ 0 ∷ 0 ∷ 2 ∷ 80 ∷ 18 ∷ 0 ∷ 0 ∷ 0 ∷ 0 ∷ 0 ∷ 0 ∷ [];
  received_at = pos 9;
  source_ip = some 1;
  reason = syn_ack;
}

syn_probe-IsSound : IsSound tcp_syn syn_probe
unfolding valid_port_result_semantics
syn_probe-IsSound = record {
  assessed = λ r s. (assessments-IsMeaningful errors r s).0;
  timed_out = refl;
}

abbrev answered_scan : PortScanScheduler ℕ ℕ
answered_scan =
    run_calls precision (responds surroundings answer ∷ calls)
      (submit precision ok true surroundings (λ text. false) (λ i. true) (host ∷ []) ports
        (create precision (λ method. some syn_probe) config)).1

results_are_meaningful_example : AllFit answered_scan.results
results_are_meaningful_example =
    results_are_meaningful precision (λ method. some syn_probe) config ok true surroundings
      (λ text. false) (λ i. true) (host ∷ []) ports (responds surroundings answer ∷ calls) refl
      syn_probe-IsSound
