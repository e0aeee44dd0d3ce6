-- ===== src/Engine.antt =====
-- `run_plan` of src/core/engine.c. The database, the runtime and the constructors that it calls are parameters, over
-- a state of the world; a database call fails when it returns SQLITE_ERROR. The plan and the result are not NULL.
pub mod Later
pub mod Exit
pub mod Witnesses
pub mod Passes
pub mod Keeps
pub mod Answers
pub mod Connected
use fman.Prelude.{
  ℕ, zero, suc, ◌+◌, Bool, true, false, not, ◌&&◌, List, [], ◌∷◌, Option, none, some, leb, ltb,
  if◌then◌else◌, get_or, set, replicate, Text, codes,
}
use fman.Prelude.Int.{ℤ, pos, negsuc}
use fman.Models.{Request, Response, Collection, Assertion, AssertionResult}
use fman.Assertion.{eval_assertion}
use fman.RunPlan.{
  RequestCase, RunPlan, max_request_cases, max_case_assertions, zero_case, zero_assertion,
}
use fman.RunPlan.Results.{RequestCaseResult, RunResult, zero_case_result, init_run_result}

pub record Services (World : Type 0) : Type 0 where
  pub db_init : Text → World → Bool × World
  pub create_collection : Text → World → Option Collection × World
  pub db_save_collection : Collection → World → Bool × Collection × World
  pub create_runtime : ℕ → World → Bool × World
  pub create_request : RequestCase → ℤ → World → Option Request × World
  pub db_save_request : Request → World → Bool × Request × World
  pub dispatch_task : Request → World → Bool × World
  pub wait_for_response : ℤ → ℤ → World → Option Response × World
  pub clean_up : World → World

unfoldable pub positive_or : ℤ → ℤ → ℤ
positive_or (pos (suc n)) other = pos (suc n)
positive_or _ other = other

-- The timeout of a case, or the plan's, or 5000.
unfoldable pub timeout_of : RequestCase → RunPlan → ℤ
unfolding positive_or
timeout_of c plan = positive_or (positive_or c.timeout_ms plan.default_timeout_ms) (pos 5000)

-- The loop over the assertions of a case: the result of the case, and `all_assertions_ok`.
unfoldable pub eval_assertions :
    ℕ → ℕ → RequestCase → Response → RequestCaseResult → Bool → RequestCaseResult × Bool
eval_assertions zero j c resp cr ok = (cr, ok)
eval_assertions (suc rounds) j c resp cr ok =
    let as_result = eval_assertion (some resp) (some (get_or c.assertions j zero_assertion)) in
    let cr' = record cr {
      assertion_results = set cr.assertion_results cr.assertion_result_count as_result;
      assertion_result_count = cr.assertion_result_count + 1;
      assertions_ok = if as_result.passed then cr.assertions_ok else false;
    } in
    let rest = eval_assertions rounds (j + 1) c resp cr' (if as_result.passed then ok else false) in
    if leb max_case_assertions cr.assertion_result_count
    then (record cr { assertions_ok = false }, false)
    else rest

-- One round of the loop over the responses.
unfoldable pub collect_case : RequestCase → ℕ → Option Response → RunResult → RunResult
unfolding eval_assertions
collect_case c i none result =
    let cr = get_or result.case_results i zero_case_result in
    record result {
      case_results =
          set result.case_results i (record cr { request_ok = false; assertions_ok = false });
      all_requests_ok = false;
      all_assertions_ok = false;
    }
collect_case c i (some resp) result =
    let cr = get_or result.case_results i zero_case_result in
    let (cr', ok) =
      eval_assertions c.assertion_count 0 c resp
        (record cr {
          response = some resp;
          request_ok = true;
          assertions_ok = true;
          assertion_result_count = 0;
        })
        result.all_assertions_ok in
    record result { case_results = set result.case_results i cr'; all_assertions_ok = ok }

module _ {World : Type 0} (s : Services World) where
  -- The loop that creates, saves and dispatches the requests: whether it got through, and the ids.
  unfoldable pub dispatch_all : ℕ → ℕ → RunPlan → ℤ → List ℤ → World → Bool × List ℤ × World
  dispatch_all zero i plan collection_id ids w = (true, ids, w)
  dispatch_all (suc rounds) i plan collection_id ids w =
      let (req, w1) = s.create_request (get_or plan.cases i zero_case) collection_id w in
      elim req [
        | none ↦ (false, ids, w1)
        | some r ↦
            (let (saved, r', w2) = s.db_save_request r w1 in
              let (dispatched, w3) = s.dispatch_task r' w2 in
              let ids' = set ids i r'.id in
              let rest = dispatch_all rounds (i + 1) plan collection_id ids' w3 in
              if not saved
              then (false, ids, w2)
              else if dispatched
              then rest
              else (false, ids', w3))
      ]

  -- The loop that waits for the responses.
  unfoldable pub collect_all : ℕ → ℕ → RunPlan → List ℤ → RunResult → World → RunResult × World
  unfolding collect_case timeout_of
  collect_all zero i plan ids result w = (result, w)
  collect_all (suc rounds) i plan ids result w =
      let c = get_or plan.cases i zero_case in
      let (resp, w') = s.wait_for_response (get_or ids i (negsuc 0)) (timeout_of c plan) w in
      collect_all rounds (i + 1) plan ids (collect_case c i resp result) w'

  -- `cleanup`
  unfoldable pub finish : ℤ → RunResult → World → ℤ × RunResult × World
  finish exit_code result w = (exit_code, record result { exit_code = exit_code }, s.clean_up w)

  -- Behind `create_runtime`.
  unfoldable pub run_cases : RunPlan → ℤ → RunResult → World → ℤ × RunResult × World
  run_cases plan collection_id result w =
      let started = record result {
        all_requests_ok = true;
        all_assertions_ok = true;
        case_result_count = plan.case_count;
      } in
      let (done, ids, w1) =
        dispatch_all plan.case_count 0 plan collection_id (replicate max_request_cases (negsuc 0))
          w in
      let (collected, w2) = collect_all plan.case_count 0 plan ids started w1 in
      if done
      then finish
          (if collected.all_requests_ok && collected.all_assertions_ok then pos 0 else pos 1)
          collected w2
      else finish (pos 1) (record started { all_requests_ok = false }) w1

  abbrev or_text : Option Text → Text → Text
  or_text none other = other
  or_text (some t) other = t

  unfoldable pub with_collection :
      RunPlan → Option Collection → RunResult → World → ℤ × RunResult × World
  with_collection plan none result w = finish (pos 1) result w
  with_collection plan (some coll) result w =
      let (saved, coll', w1) = s.db_save_collection coll w in
      let workers = if ltb 0 plan.worker_count then plan.worker_count else 1 in
      let (running, w2) = s.create_runtime workers w1 in
      if not saved
      then finish (pos 1) result w1
      else if running
      then run_cases plan coll'.id result w2
      else finish (pos 1) result w2

  unfoldable pub run_plan : RunPlan → RunResult → World → ℤ × RunResult × World
  unfolding finish run_cases with_collection dispatch_all collect_all
  run_plan plan result w =
      let fresh = init_run_result result in
      let (opened, w1) = s.db_init (or_text plan.db_path (codes "default.db")) w in
      let (coll, w2) = s.create_collection (or_text plan.collection_name (codes "default")) w1 in
      if ltb max_request_cases plan.case_count
      then finish (pos 1) fresh w
      else if opened
      then with_collection plan coll fresh w2
      else finish (pos 1) fresh w1
