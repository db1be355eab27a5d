-- ===== src/PortScan/Scheduler/Fitting.antt =====
-- The meaning of what src/portscan/port_scheduler.cpp reports: states and reasons that agree with
-- `valid_port_result_semantics`, in the results, in the evidence that an entry keeps, and in what a
-- probe says of a response and of a timeout.
use skan.Base.{
  ℕ, ◌≡◌, refl, sym, true, false, Option, none, some, List, [], ◌∷◌, ◌++◌, arith, ◌==◌, Bool-cases,
  inl, inr,
}
use skan.Base.Assoc.{Assoc, find, emplace, erase, modify}
use skan.Core.{StatusCode, permission_denied, invalid_argument}
use skan.PortScan.Types
use skan.PortScan.Types.{
  ScanProbeType, udp_probe, same_probe, PortState, error, ScanReason, tcp,
  valid_port_result_semantics,
}
use skan.PortScan.Probes.{PortResponse, PortSubmission}
use skan.PortScan.Probes.Semantics.{IsMeaningful}
use skan.PortScan.Scheduler.State.{PortProbe, PortResult, Pending}
use skan.PortScan.Scheduler.Pump.{submission_failure_reason, build_failure_reason}

-- A state and a reason that belong together for a method.
abbrev pub Fits : ScanProbeType → PortState → ScanReason → Type 0
Fits method state reason = valid_port_result_semantics tcp method state reason ≡ true

-- A probe for a method.
pub record IsSound (method : ScanProbeType) (probe : PortProbe) : Type 0 where
  pub assessed : (r : PortResponse) (s : PortSubmission) → IsMeaningful method (probe.assess r s)
  pub timed_out : Fits method probe.timeout_state probe.timeout_reason

abbrev pub ProbeSound : ScanProbeType → Option PortProbe → Type 0
ProbeSound method none = Unit
ProbeSound method (some probe) = IsSound method probe

-- The evidence that an entry keeps.
abbrev pub EvidenceFits : ScanProbeType → Option PortState → ScanReason → Type 0
EvidenceFits method none reason = Unit
EvidenceFits method (some state) reason = Fits method state reason

abbrev pub AllEvidenceFits : ScanProbeType → Assoc Pending → Type 0
AllEvidenceFits method [] = Unit
AllEvidenceFits method ((id, entry) ∷ m) =
    EvidenceFits method entry.candidate_state entry.candidate_reason × AllEvidenceFits method m

abbrev pub AllFit : {D : Type 0} → List (PortResult D) → Type 0
AllFit [] = Unit
AllFit (r ∷ rs) = Fits r.probe r.state r.reason × AllFit rs

pub AllFit-append :
    {D : Type 0} → (rs qs : List (PortResult D)) → AllFit rs → AllFit qs → AllFit (rs ++ qs)
AllFit-append [] qs h k = k
AllFit-append (r ∷ rs) qs (f, h) k = (f, AllFit-append rs qs h k)

pub erase-AllEvidenceFits :
    (method : ScanProbeType) (id : ℕ) (m : Assoc Pending)
    → AllEvidenceFits method m
    → AllEvidenceFits method (erase id m)
unfolding erase
erase-AllEvidenceFits method id [] h = tt
erase-AllEvidenceFits method id ((j, entry) ∷ m) (f, h) = elim (Bool-cases (j == id)) [
  | inl e ↦ rw (e, erase) h
  | inr e ↦ rw (e, erase) (f, erase-AllEvidenceFits method id m h)
]

pub emplace-AllEvidenceFits :
    (method : ScanProbeType) (id : ℕ) (new : Pending) (m : Assoc Pending)
    → EvidenceFits method new.candidate_state new.candidate_reason
    → AllEvidenceFits method m
    → AllEvidenceFits method (emplace id new m)
unfolding emplace
emplace-AllEvidenceFits method id new [] n h = (n, tt)
emplace-AllEvidenceFits method id new ((j, entry) ∷ m) n (f, h) = elim (Bool-cases (j == id)) [
  | inl e ↦ rw (e, emplace) (f, h)
  | inr e ↦ rw (e, emplace) (f, emplace-AllEvidenceFits method id new m n h)
]

pub modify-AllEvidenceFits :
    (method : ScanProbeType) (id : ℕ) (g : Pending → Pending) (m : Assoc Pending)
    → ((entry : Pending)
        → EvidenceFits method entry.candidate_state entry.candidate_reason
        → EvidenceFits method (g entry).candidate_state (g entry).candidate_reason)
    → AllEvidenceFits method m
    → AllEvidenceFits method (modify id g m)
unfolding modify
modify-AllEvidenceFits method id g [] k h = tt
modify-AllEvidenceFits method id g ((j, entry) ∷ m) k (f, h) = elim (Bool-cases (j == id)) [
  | inl e ↦ rw (e, modify) (k entry f, h)
  | inr e ↦ rw (e, modify) (f, modify-AllEvidenceFits method id g m k h)
]

pub find-AllEvidenceFits :
    (method : ScanProbeType) (id : ℕ) (entry : Pending) (m : Assoc Pending)
    → AllEvidenceFits method m
    → find id m ≡ some entry
    → EvidenceFits method entry.candidate_state entry.candidate_reason
unfolding find
find-AllEvidenceFits method id entry [] h e = absurd (ground arith)
find-AllEvidenceFits method id entry ((j, old) ∷ m) (f, h) e = elim (Bool-cases (j == id)) [
  | inl k ↦ let same : old ≡ entry = ground arith in rw (sym same) f
  | inr k ↦
      let rest : find id m ≡ some entry = ground arith in
      find-AllEvidenceFits method id entry m h rest
]

-- The errors that the scheduler reports itself.
module _ (method : ScanProbeType) (h : same_probe method udp_probe ≡ false) where
  pub internal_error-Fits : Fits method error Types.internal_error
  unfolding valid_port_result_semantics
  internal_error-Fits = rw h refl

  pub invalid_target-Fits : Fits method error Types.invalid_target
  unfolding valid_port_result_semantics
  invalid_target-Fits = rw h refl

  pub conflict-Fits : Fits method Types.unknown Types.conflicting_evidence
  unfolding valid_port_result_semantics
  conflict-Fits = rw h refl

  pub submission_failure_reason-Fits :
      (status : StatusCode) → Fits method error (submission_failure_reason status)
  unfolding valid_port_result_semantics submission_failure_reason
  submission_failure_reason-Fits permission_denied = rw h refl
  submission_failure_reason-Fits invalid_argument = rw h refl
  submission_failure_reason-Fits _ = rw h refl

  pub build_failure_reason-Fits :
      (status : StatusCode) → Fits method error (build_failure_reason status)
  unfolding valid_port_result_semantics
  build_failure_reason-Fits invalid_argument = rw h refl
  build_failure_reason-Fits _ = rw h refl
