-- ===== src/Dsl/Parser/Program/Bounds.antt =====
-- src/dsl/dsl_parser.c: the statements and the loop over them, in a plan of at most 128 cases; the plan that
-- `dsl_parse_run_plan` leaves.
use fman.Prelude.{
  ℕ, zero, suc, ◌+◌, ◌-◌, ◌<◌, ◌≡◌, refl, ◌∙◌, ◌⊎◌, inl, inr, Bool, true, false, not, Option, none,
  some, List, leb, ◌==◌, ==_iff, arith, Text, Bool-cases, subst, get_or, set, length-set,
  get_or-set_self, get_or-set_ne, length-replicate, if_cases,
}
use fman.Prelude.Int.{ℤ, pos, negsuc}
use fman.Models.{Method}
use fman.RunPlan.{
  RequestCase, RunPlan, max_request_cases, zero_case, zero_plan, init_run_plan, free_run_plan,
}
use fman.Dsl.Token.{token_newline, token_eof, token_body_stmt, token_expect}
use fman.Dsl.Parser.{
  State, DslParser, DslParseError, dsl_parse_ok, dsl_parse_error, check, advanced, case_at,
}
use fman.Dsl.Parser.Program.{
  is_method, set_body, body_stmt, parse_body_stmt, timeout_or_default, set_request, request_stmt,
  parse_request_stmt, expect_stmt, parse_expect_stmt, at_request, parse_statement, parse_program,
  dsl_parser_create, Outcome, finish_parse, parse_with, dsl_parse_run_plan,
}
use fman.Dsl.Parser.Ensures.{
  After, Ensures, true-After, false-After, if-After, Ensures->>, consume-Ensures,
  end_statement-Ensures,
}
use fman.Dsl.Parser.Fits.{IsCase, IsPlan, put_case-IsPlan}
use fman.Dsl.Parser.Expect.{
  Open, room_for_assertion-Ensures, strdup_cases, parse_assertion-Ensures, Open-advanced,
}

abbrev Fits : State → Type 0
Fits s = IsPlan s.plan

-- And there is a case left.
record Spare (s : State) : Type 0 where
  plan_fits : IsPlan s.plan
  spare : s.plan.case_count < max_request_cases

Spare-advanced : (s : State) → Spare s → Spare (advanced s)
Spare-advanced s v = record { plan_fits = v.plan_fits; spare = v.spare }

timeout-pos : (t : ℤ) → (n : ℕ) × (timeout_or_default t ≡ pos (suc n))
unfolding timeout_or_default
timeout-pos (pos (suc n)) = (n, refl)
timeout-pos (pos zero) = (4999, refl)
timeout-pos (negsuc n) = (4999, refl)

-- The case after the last one in use, written and counted.
new_case-IsPlan :
    (plan : RunPlan) (c : RequestCase)
    → plan.case_count < max_request_cases
    → IsCase c
    → IsPlan plan
    → IsPlan
        (record plan { cases = set plan.cases plan.case_count c; case_count = plan.case_count + 1 })
unfolding case_at
new_case-IsPlan plan c h k v = record {
  cases_fit = omega arith;
  array = length-set plan.cases plan.case_count c ∙ v.array;
  each = λ j lt. elim (Bool-cases (plan.case_count == j)) [
    | inl same ↦
        subst (λ (i : ℕ). IsCase (get_or (set plan.cases plan.case_count c) i zero_case))
          ((==_iff plan.case_count j).0 same)
          (rw (get_or-set_self plan.cases plan.case_count c zero_case (omega (arith, v.array))) k)
    | inr other ↦
        rw
          (get_or-set_ne plan.cases plan.case_count j c zero_case
            (λ e. cc (other, (==_iff plan.case_count j).1 e)))
          (v.each j (ground arith))
  ];
}

set_request-Ensures : (method : Method) → Ensures Spare Fits (set_request method)
unfolding set_request zero_case
set_request-Ensures method s v = elim (strdup_cases s.parser) [
  | inl e ↦
      rw (set_request, e)
        (true-After (
          new_case-IsPlan s.plan _ v.spare
            (record {
              has_url = (_, refl);
              body_fits = λ b h. cc h;
              has_timeout = timeout-pos s.plan.default_timeout_ms;
              count_fits = omega arith;
              array = refl;
              fit = λ j lt. absurd (omega arith);
            })
            v.plan_fits))
  | inr e ↦ rw (set_request, e) false-After
]

request_stmt-Ensures : (method : Method) → Ensures Spare Fits (request_stmt method)
unfolding request_stmt
request_stmt-Ensures method =
    Ensures->> _ _ (consume-Ensures Spare-advanced _ _)
      (Ensures->> _ _ (set_request-Ensures method) (end_statement-Ensures (λ s v. v) _))

parse_request_stmt-Ensures : Ensures Fits Fits parse_request_stmt
unfolding parse_request_stmt
parse_request_stmt-Ensures s v =
    if-After (leb max_request_cases s.plan.case_count) (λ _. false-After)
      λ room.
        if-After (not (is_method s.parser.current.type)) (λ _. false-After)
          λ _. request_stmt-Ensures _ (advanced s) (record { plan_fits = v; spare = ground arith })

set_body-Ensures : (i : ℕ) → Ensures (Open i) Fits (set_body i)
unfolding set_body
set_body-Ensures i s o =
    let c = o.plan_fits.each i o.in_use in
    elim (strdup_cases s.parser) [
      | inl e ↦
          rw (set_body, e)
            (true-After (
              put_case-IsPlan s i _ o.in_use
                (record {
                  has_url = c.has_url;
                  body_fits = λ b h. cc h;
                  has_timeout = c.has_timeout;
                  count_fits = c.count_fits;
                  array = c.array;
                  fit = c.fit;
                })
                o.plan_fits))
      | inr e ↦ rw (set_body, e) false-After
    ]

body_stmt-Ensures : (i : ℕ) → Ensures (Open i) Fits (body_stmt i)
unfolding body_stmt
body_stmt-Ensures i = Ensures->> _ _ (consume-Ensures (Open-advanced i) _ _) (
    Ensures->> _ _ (consume-Ensures (Open-advanced i) _ _)
      (Ensures->> _ _ (set_body-Ensures i) (end_statement-Ensures (λ s v. v) _)))

expect_stmt-Ensures : (i : ℕ) → Ensures (Open i) Fits (expect_stmt i)
unfolding expect_stmt
expect_stmt-Ensures i = Ensures->> _ _ (consume-Ensures (Open-advanced i) _ _) (
    Ensures->> _ _
      (λ s o. record { reached = λ h. ((room_for_assertion-Ensures i s o).reached h).is_open })
      (Ensures->> _ _ (parse_assertion-Ensures i)
        λ s o. end_statement-Ensures {P = Fits} (λ t v. v) _ s o.plan_fits))

not_zero : (n : ℕ) → (n == 0) ≡ false → (n - 1) < n
not_zero n h = ground arith

parse_statement-Ensures : Ensures Fits Fits parse_statement
unfolding parse_statement parse_body_stmt parse_expect_stmt
parse_statement-Ensures s v =
    if-After (check s.parser token_newline) (λ _. true-After v)
      λ _.
        if-After (at_request s.parser) (λ _. parse_request_stmt-Ensures s v)
          λ _.
            if-After (check s.parser token_body_stmt)
              (λ _.
                if-After (s.plan.case_count == 0) (λ _. false-After)
                  λ h. body_stmt-Ensures _ s (last h))
              λ _.
                if-After (check s.parser token_expect)
                  (λ _.
                    if-After (s.plan.case_count == 0) (λ _. false-After)
                      λ h. expect_stmt-Ensures _ s (last h))
                  λ _. false-After
  where
    last : (s.plan.case_count == 0) ≡ false → Open (s.plan.case_count - 1) s
    last h = record { plan_fits = v; in_use = not_zero s.plan.case_count h }

-- A state that the loop returned with true has a plan that fits.
AfterLoop : Option (Bool × State) → Type 0
AfterLoop none = Unit {0}
AfterLoop (some out) = After Fits out

parse_program-AfterLoop : (fuel : ℕ) (s : State) → Fits s → AfterLoop (parse_program fuel s)
unfolding parse_program AfterLoop
parse_program-AfterLoop zero s v = tt
parse_program-AfterLoop (suc fuel) s v =
    let out = parse_statement s in
    if_cases AfterLoop (check s.parser token_eof) (λ _. record { reached = λ _. v })
      λ _.
        if_cases AfterLoop s.parser.had_error (λ _. false-After)
          λ _.
            if_cases AfterLoop out.0
              (λ h. parse_program-AfterLoop fuel out.1 ((parse_statement-Ensures s v).reached h))
              λ _. false-After

init_run_plan-IsPlan : (plan : RunPlan) → IsPlan (init_run_plan plan)
unfolding init_run_plan zero_plan
init_run_plan-IsPlan plan = record {
  cases_fit = omega arith;
  array = length-replicate max_request_cases zero_case;
  each = λ i lt. absurd (omega arith);
}

-- What a call may leave at the address of `plan`: with success, a plan that fits; with an error, one
-- that is all zero, fresh, or as it was.
unfoldable pub Leaves : RunPlan → Outcome → Type 0
Leaves plan out =
    ((out.result ≡ dsl_parse_ok) × IsPlan out.plan)
    ⊎ ((out.result ≡ dsl_parse_error)
        × ((out.plan ≡ zero_plan) ⊎ ((out.plan ≡ init_run_plan plan) ⊎ (out.plan ≡ plan))))

finish_parse-Leaves :
    (plan : RunPlan) (out : Bool × State) → After Fits out → Leaves plan (finish_parse out.0 out.1)
unfolding finish_parse Leaves free_run_plan
finish_parse-Leaves plan (true, s) v =
    if_cases (Leaves plan) s.parser.had_error (λ _. inr (refl, inl refl))
      (λ _. inl (refl, v.reached refl))
finish_parse-Leaves plan (false, s) v = inr (refl, inl refl)

-- A call that returns leaves that.
MayLeave : RunPlan → Option Outcome → Type 0
MayLeave plan none = Unit {0}
MayLeave plan (some out) = Leaves plan out

loop-MayLeave :
    (plan : RunPlan) (out : Option (Bool × State))
    → AfterLoop out
    → MayLeave plan (elim out [ none ↦ none | some (done, s) ↦ some (finish_parse done s) ])
unfolding AfterLoop MayLeave
loop-MayLeave plan none v = tt
loop-MayLeave plan (some out) v = finish_parse-Leaves plan out v

parse_with-MayLeave :
    (fuel : ℕ) (parser : Option DslParser) (plan : RunPlan) (error : Option DslParseError)
    → MayLeave plan (parse_with fuel parser (init_run_plan plan) error)
unfolding parse_with MayLeave Leaves
parse_with-MayLeave fuel none plan error = inr (refl, inr (inl refl))
parse_with-MayLeave fuel (some parser) plan error =
    loop-MayLeave plan _ (parse_program-AfterLoop fuel _ (init_run_plan-IsPlan plan))

dsl_parse_run_plan-MayLeave :
    (source : Option Text) (plan : RunPlan) (error : Option DslParseError) (allocs : List Bool)
    → MayLeave plan (dsl_parse_run_plan source plan error allocs)
unfolding dsl_parse_run_plan MayLeave Leaves
dsl_parse_run_plan-MayLeave none plan error allocs = inr (refl, inr (inr refl))
dsl_parse_run_plan-MayLeave (some source) plan error allocs =
    parse_with-MayLeave _ (dsl_parser_create source error allocs) plan error

-- When a call of `dsl_parse_run_plan` returns with success, the plan has at most 128 cases in use, and
-- each has a URL, a positive timeout, a body as long as it says, and at most 32 assertions in use whose
-- expected values are of the kind that they take, whatever the source and whichever allocations fail.
-- When it returns with an error, the plan is all zero, fresh, or as it was.
pub dsl_parse_run_plan-Leaves :
    (source : Option Text) (plan : RunPlan) (error : Option DslParseError) (allocs : List Bool)
    (out : Outcome)
    → dsl_parse_run_plan source plan error allocs ≡ some out
    → Leaves plan out
unfolding MayLeave
dsl_parse_run_plan-Leaves source plan error allocs out e =
    subst (MayLeave plan) e (dsl_parse_run_plan-MayLeave source plan error allocs)
