-- ===== src/Engine/Connected/Answers.antt =====
-- `run_plan` of src/core/engine.c with src/core/db_manager.c, src/core/models.c and src/core/orchestrator.c: the row of
-- the database that the response of a case is read from.
use fman.Prelude.{ℕ, zero, suc, ◌<◌, ◌≡◌, sym, ◌∙◌, inl, inr, some, get_or}
use fman.Prelude.Int.{ℤ, pos}
use fman.Models.{Response}
use fman.RunPlan.{RunPlan, zero_case}
use fman.RunPlan.Results.{RunResult, zero_case_result}
use fman.Database.{Sqlite}
use fman.Database.Tables.{History}
use fman.Database.History.Latest.{IsLatest, db_get_latest_response_by_request_id-IsLatest}
use fman.Engine.{run_plan}
use fman.Engine.Passes.{HasPassed}
use fman.Engine.Exit.{run_plan_passes}
use fman.Engine.Answers.{run_plan_answers}
use fman.Engine.Answers.Sent.{IsSent}
use fman.Engine.Later.{Later}
use fman.Engine.Connected.{Threads, Machine, look, sleep, wait, services}
use fman.Engine.Connected.Polls.{looks, wait_lem}

module _ {World Stmt : Type 0} (s : Sqlite World Stmt) (t : Threads World) (h : History s) where
  -- The machine that the k-th look of a wait is at, with a sleep behind each look before it.
  unfoldable pub at_look : ℤ → Machine World → ℕ → Machine World
  at_look id m zero = m
  at_look id m (suc k) = at_look id (sleep s t (look s t id m).1) k

  -- The response is the latest one at a look of a wait for the id, and the wait is behind calls of the run.
  pub record IsLatestSince (start : Machine World) (id : ℤ) (resp : Response) : Type 0 where
    pub before : Machine World
    pub later : Later (services s t) start before
    pub k : ℕ
    pub latest : IsLatest s h id (at_look id before k).world resp

  looked :
      (id : ℤ) (k : ℕ) (m : Machine World) (resp : Response)
      → looks s t id m k ≡ some resp
      → IsLatest s h id (at_look id m k).world resp
  unfolding looks look at_look
  looked id zero m resp e =
      db_get_latest_response_by_request_id-IsLatest s h m.db id _ m.world resp e
  looked id (suc k) m resp e = looked id k _ resp e

  waited :
      (id timeout : ℤ) (m : Machine World) (resp : Response)
      → (wait s t id timeout m).0 ≡ some resp
      → (k : ℕ) × IsLatest s h id (at_look id m k).world resp
  waited id timeout m resp e = elim (wait_lem s t id timeout m) [
    | inl first ↦
        let (r, out, found) = first.found in
        (first.k, looked id first.k m resp (found ∙ sym out ∙ e))
    | inr nothing ↦ absurd (cc (sym nothing.nothing ∙ e))
  ]

  -- If the run exits with 0, then for each case a request
  -- was created, saved under an id and dispatched, and the case has a response that was read from a row of the
  -- responses: the latest row of this id
  -- when a look of a wait for it, behind the calls that the run made before, was made. The response has the fields of the row and the id of the
  -- request, and each assertion of the case passes on it. This holds if SQLite keeps and finds rows as `History` says.
  pub run_plan_reads :
      (plan : RunPlan) (result : RunResult) (m : Machine World)
      → (run_plan (services s t) plan result m).0 ≡ pos 0
      → (j : ℕ) → j < plan.case_count
      → let c = get_or plan.cases j zero_case in
        let cr = get_or (run_plan (services s t) plan result m).1.case_results j zero_case_result in
        (id : ℤ) × IsSent (services s t) m c id
        × (passed : HasPassed c cr) × IsLatestSince m id passed.resp
  run_plan_reads plan result m ok j lt =
      let passed = run_plan_passes (services s t) plan result m ok j lt in
      let (id, sent, read) = run_plan_answers (services s t) plan result m ok j lt in
      let (k, latest) =
        waited id read.timeout read.before passed.resp
          (sym read.response_is ∙ passed.response_is) in
      (
        id,
        sent,
        passed,
        record { before = read.before; later = read.later; k = k; latest = latest },
      )
