-- ===== src/Runner/ExecSubm/Reporting.antt =====
-- The report of a container's end.
use alpine_judge.Common.{ℕ, ◌≡◌, refl, ◌↔◌, true, arith}
use alpine_judge.Common.{◌==◌, nat_eq, Bool-cases, inl, inr}
use alpine_judge.Common.Text.{str}
use alpine_judge.Common.Text.Decimal.Parse.{ℤ}
use alpine_judge.Shared.Specs.{JobSpec}
use alpine_judge.Runner.ExecSubm.{Exit, task_exited, timed_out, exec_subm}

-- The report names the job and the time passed. It is `OK` exactly when the task exited with code 0
-- within the timeout; and the task is killed exactly when it did not exit within it.
exec_subm-reports :
    (job : JobSpec) (timeouts : ℤ) (elapsed_ms : ℕ) (exit : Exit)
    → let (report, killed) = exec_subm job timeouts elapsed_ms exit in
      (report.submission_id ≡ job.submission_id)
      × (report.interval ≡ elapsed_ms)
      × ((report.status ≡ str "OK") ↔ (exit ≡ task_exited 0))
      × ((killed ≡ true) ↔ (exit ≡ timed_out))
unfolding exec_subm
exec_subm-reports job timeouts elapsed_ms timed_out =
    (refl, refl, (λ h. cc, λ h. cc), (λ h. refl, λ h. refl))
exec_subm-reports job timeouts elapsed_ms (task_exited code) = elim (Bool-cases (code == 0)) [
  | inl zero_code ↦
      let e : code ≡ 0 = ground arith in
      rw e (refl, refl, (λ h. refl, λ h. refl), (λ h. cc, λ h. cc))
  | inr other ↦ rw other (
    refl,
    refl,
    (λ h. cc, λ h. let e : code ≡ 0 = cc in let k = rw e at other in cc),
    (λ h. cc, λ h. cc),
  )
]
