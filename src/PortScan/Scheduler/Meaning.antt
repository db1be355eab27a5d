-- ===== src/PortScan/Scheduler/Meaning.antt =====
-- Every result of src/portscan/port_scheduler.cpp has a meaning: through every call, its state and its
-- reason agree with `valid_port_result_semantics`.
use skan.Base.{
  ℕ, ltz, ◌≡◌, Bool, false, ◌||◌, Option, none, some, List, [], ◌∷◌, length, ◌==◌, if◌then◌else◌,
  Bool-cases, inl, inr,
}
use mathlib.Core.Path.{subst}
use skan.Base.Assoc.{find}
use skan.Core.{StatusCode, is_ok}
use skan.ScanEngine.Rtt.{Precision, or_else}
use skan.PortScan.Types.{
  Port, ScanProbeType, udp_probe, tcp_connect, same_probe, PortState, error, ScanReason,
}
use skan.PortScan.Probes.{PortResponse, Assessment, assessed, refuses}
use skan.PortScan.Probes.Semantics.{IsMeaningful}
use skan.PortScan.Scheduler.State.{
  Host, PortProbe, PortScanConfig, Pending, PortScanScheduler, Surroundings,
}
use skan.PortScan.Scheduler.Attempt.{same_port_state}
use skan.PortScan.Scheduler.Handlers.{is_epoch, complete_entry, weigh, accept, receive, on_timeout}
use skan.PortScan.Scheduler.Submit.{create, bad_ports, validate_config, submit}
use skan.PortScan.Scheduler.Run.{Call, responds, times_out, retry_is_ready, act, run_calls}
use skan.PortScan.Scheduler.Fitting.{
  Fits, IsSound, ProbeSound, EvidenceFits, AllFit, erase-AllEvidenceFits, modify-AllEvidenceFits,
  find-AllEvidenceFits,
}
use skan.PortScan.Scheduler.Soundness.{AllSound, AllSound-or_else}
use skan.PortScan.Scheduler.Verdicts.{
  weigh-EvidenceFits, finish_attempt-AllSound, on_retry_ready-AllSound, submit_accepted-AllSound,
}

ProbeSound-IsSound :
    (method : ScanProbeType) (probe : PortProbe) (o : Option PortProbe)
    → ProbeSound method o
    → o ≡ some probe
    → IsSound method probe
ProbeSound-IsSound method probe o h e = subst (λ x. ProbeSound method x) e h

module _ {D L : Type 0} (P : Precision D L) where
  accept-AllSound :
      (e : Surroundings) (response : PortResponse) (entry : Pending) (assessment : Assessment)
      (s : PortScanScheduler D L)
      → IsMeaningful s.config.method assessment
      → AllSound s
      → AllSound (accept P e response entry assessment s)
  unfolding accept complete_entry
  accept-AllSound e response entry (refuses status) s fits sound = sound
  accept-AllSound e response entry (assessed state reason) s fits (r, (p, (b, m))) =
      let at = if is_epoch response.received_at then e.now else response.received_at in
      let at_once = same_port_state state error || same_probe s.config.method tcp_connect in
      let method = s.config.method in
      let gone = erase-AllEvidenceFits method response.id s.pending p in
      let kept =
        modify-AllEvidenceFits method response.id (weigh state reason at) s.pending
          (λ old f. weigh-EvidenceFits method state reason at old m fits f) p in
      elim (Bool-cases (ltz at entry.started_at)) [
        | inl f ↦ rw (f, accept) (r, (p, (b, m)))
        | inr f ↦ elim (Bool-cases at_once) [
          | inl g ↦
              rw (f, g, accept)
                (finish_attempt-AllSound e entry.work state reason _ _ fits (r, (gone, (b, m))))
          | inr g ↦ rw (f, g, accept) (r, (kept, (b, m)))
        ]
      ]

  -- A branch on the evidence that an entry keeps.
  AllSound-or_evidence :
      (method : ScanProbeType) (o : Option PortState) (reason : ScanReason)
      (s : PortScanScheduler D L) (f : PortState → PortScanScheduler D L)
      → EvidenceFits method o reason
      → AllSound s
      → ((state : PortState) → Fits method state reason → AllSound (f state))
      → AllSound (or_else o s f)
  AllSound-or_evidence method none reason s f h k l = k
  AllSound-or_evidence method (some state) reason s f h k l = l state h

  act-AllSound : (call : Call) (s : PortScanScheduler D L) → AllSound s → AllSound (act P call s)
  unfolding receive on_timeout
  act-AllSound (responds e response) s (r, (p, (b, m))) =
      AllSound-or_else (find response.id s.pending) s _ (r, (p, (b, m)))
        λ entry found.
          AllSound-or_else s.probe s _ (r, (p, (b, m)))
            λ probe is.
              let sound = ProbeSound-IsSound s.config.method probe s.probe b is in
              accept-AllSound e response entry (probe.assess response entry.submission) s
                (sound.assessed response entry.submission) (r, (p, (b, m)))
  act-AllSound (times_out e id) s (r, (p, (b, m))) =
      AllSound-or_else (find id s.pending) s _ (r, (p, (b, m)))
        λ entry found.
          AllSound-or_else s.probe s _ (r, (p, (b, m)))
            λ probe is.
              let method = s.config.method in
              let sound = ProbeSound-IsSound method probe s.probe b is in
              let gone = erase-AllEvidenceFits method id s.pending p in
              let evidence = find-AllEvidenceFits method id entry s.pending p found in
              AllSound-or_evidence method entry.candidate_state entry.candidate_reason _ _ evidence
                (finish_attempt-AllSound e entry.work probe.timeout_state probe.timeout_reason none
                  _ sound.timed_out (r, (gone, (b, m))))
                λ state fits.
                  finish_attempt-AllSound e entry.work state entry.candidate_reason _ _ fits
                    (r, (gone, (b, m)))
  act-AllSound (retry_is_ready e id) s sound = on_retry_ready-AllSound e id s sound

  run_calls-AllSound :
      (calls : List Call) (s : PortScanScheduler D L) → AllSound s → AllSound (run_calls P calls s)
  run_calls-AllSound [] s sound = sound
  run_calls-AllSound (call ∷ calls) s sound =
      run_calls-AllSound calls (act P call s) (act-AllSound call s sound)

  submit-AllSound :
      (initialization : StatusCode) (supported : Bool) (e : Surroundings)
      (is_address : List ℕ → Bool) (room : ℕ → Bool) (hosts : List Host) (ports : List Port)
      (s : PortScanScheduler D L)
      → AllSound s
      → AllSound (submit P initialization supported e is_address room hosts ports s).1
  unfolding submit
  submit-AllSound initialization supported e is_address room hosts ports s sound =
      let valid = is_ok (validate_config P initialization supported s) in
      let given = length hosts == 0 || length ports == 0 || bad_ports ports in
      elim (Bool-cases s.submitted) [
        | inl f ↦ rw (f, submit) sound
        | inr f ↦ elim (Bool-cases valid) [
          | inr g ↦ rw (f, g, submit) sound
          | inl g ↦ elim (Bool-cases given) [
            | inl h ↦ rw (f, g, h, submit) sound
            | inr h ↦
                rw (f, g, h, submit)
                  (submit_accepted-AllSound e is_address room hosts ports s sound)
          ]
        ]
      ]

  -- Where the probe of a method other than UDP's is sound, every result of a new scheduler that is
  -- given hosts and ports has a state and a reason that agree with `valid_port_result_semantics` for
  -- TCP, whatever the surroundings answer and in whatever order responses, timeouts and retries come.
  pub results_are_meaningful :
      (probes : ScanProbeType → Option PortProbe) (config : PortScanConfig D)
      (initialization : StatusCode) (supported : Bool) (e : Surroundings)
      (is_address : List ℕ → Bool) (room : ℕ → Bool) (hosts : List Host) (ports : List Port)
      (calls : List Call)
      → same_probe config.method udp_probe ≡ false
      → ProbeSound config.method (probes config.method)
      → AllFit
          (run_calls P calls
            (submit P initialization supported e is_address room hosts ports
              (create P probes config)).1).results
  unfolding create
  results_are_meaningful probes config initialization supported e is_address room hosts ports calls
        other sound =
      let s = create P probes config in
      (run_calls-AllSound calls _ (
        submit-AllSound initialization supported e is_address room hosts ports s
          (tt, (tt, (sound, other))))).0
