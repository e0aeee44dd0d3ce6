-- ===== src/Dsl/File.antt =====
-- src/dsl/dsl.c. The file system is a parameter: the bytes of the file that `fopen` opens for a path, as `ftell` and
-- `fread` tell them, or none where one of them fails. `allocs` are the answers of `malloc`.
use fman.Prelude.{
  ℕ, ◌≡◌, refl, ◌⊎◌, inl, inr, Bool, true, false, not, List, Option, none, some, is_some,
  Option-cases, [], ◌∷◌, if◌then◌else◌, ◌==◌, ==_iff, Text, codes, Lacks, subst, take_while,
  AllPass, AllPass-take_while,
}
use fman.RunPlan.{RunPlan}
use fman.Dsl.Lexer.{malloc}
use fman.Dsl.Parser.{DslParseError, dsl_io_error}
use fman.Dsl.Parser.Program.{Outcome, dsl_parse_run_plan}
use fman.Dsl.Parser.Program.Bounds.{Leaves, dsl_parse_run_plan-Leaves}
use fman.Dsl.Parser.Program.Ends.{dsl_parse_run_plan_returns}

abbrev pub Files : Type 0
Files = Option Text → Option Text

not_nul : ℕ → Bool
not_nul c = not (c == 0)

-- The text is what stands before the first NUL.
unfoldable pub read_file : Files → Option Text → List Bool → Option Text × List Bool
unfolding malloc not_nul
read_file files path allocs =
    let (done, allocs') = malloc allocs in
    elim (files path) [
      | none ↦ (none, allocs)
      | some bytes ↦ (if done then some (take_while not_nul bytes) else none, allocs')
    ]

abbrev pub unread : RunPlan → Outcome
unread plan = record {
  result = dsl_io_error;
  plan = plan;
  error = some (record { message = codes "Failed to read DSL file."; line = 0; column = 0 });
}

pub parse_text : Option Text → RunPlan → DslParseError → List Bool → Option Outcome
parse_text none plan error allocs = some (unread plan)
parse_text (some source) plan error allocs =
    dsl_parse_run_plan (some source) plan (some error) allocs

unfoldable pub dsl_parse_run_plan_file :
    Files → Option Text → RunPlan → DslParseError → List Bool → Option Outcome
unfolding read_file parse_text
dsl_parse_run_plan_file files path plan error allocs =
    let (text, allocs') = read_file files path allocs in parse_text text plan error allocs'

-- What a call may leave at the address of `plan`: a plan that fits, or with an error an empty or an old one.
unfoldable pub LeavesFile : RunPlan → Outcome → Type 0
LeavesFile plan out = Leaves plan out ⊎ ((out.result ≡ dsl_io_error) × (out.plan ≡ plan))

ReturnsFile : RunPlan → Option Outcome → Type 0
ReturnsFile plan o = (out : Outcome) × (o ≡ some out) × LeavesFile plan out

AllPass-Lacks : (t : Text) → AllPass not_nul t → Lacks 0 t
unfolding not_nul
AllPass-Lacks [] h = tt
AllPass-Lacks (c ∷ t) (h, rest) = (λ e. cc (h, (==_iff c 0).1 e, e), AllPass-Lacks t rest)

present :
    (plan : RunPlan) (o : Option Outcome)
    → is_some o ≡ true
    → ((out : Outcome) → o ≡ some out → Leaves plan out)
    → ReturnsFile plan o
unfolding ReturnsFile LeavesFile
present plan none e leaves = absurd (cc e)
present plan (some out) e leaves = (out, refl, inl (leaves out refl))

parse_text-ReturnsFile :
    (text : Option Text) (plan : RunPlan) (error : DslParseError) (allocs : List Bool)
    → ((source : Text) → text ≡ some source → Lacks 0 source)
    → ReturnsFile plan (parse_text text plan error allocs)
unfolding ReturnsFile LeavesFile parse_text
parse_text-ReturnsFile none plan error allocs clean = (unread plan, refl, inr (refl, refl))
parse_text-ReturnsFile (some source) plan error allocs clean =
    present plan _ (dsl_parse_run_plan_returns source plan (some error) allocs (clean source refl))
      (dsl_parse_run_plan-Leaves (some source) plan (some error) allocs)

stops_at_nul : (bytes : Text) → Lacks 0 (take_while not_nul bytes)
stops_at_nul bytes = AllPass-Lacks _ (AllPass-take_while not_nul bytes)

text_clean :
    (done : Bool) (bytes source : Text)
    → (if done then some (take_while not_nul bytes) else none) ≡ some source
    → Lacks 0 source
text_clean true bytes source e =
    let same : take_while not_nul bytes ≡ source = cc e in subst (Lacks 0) same (stops_at_nul bytes)
text_clean false bytes source e = absurd (cc e)

read_file_clean :
    (files : Files) (path : Option Text) (allocs : List Bool) (source : Text)
    → (read_file files path allocs).0 ≡ some source
    → Lacks 0 source
unfolding read_file
read_file_clean files path allocs source e = elim (Option-cases (files path)) [
  | inl missing ↦ absurd (cc (rw (read_file, missing) at e))
  | inr (bytes, found) ↦ text_clean (malloc allocs).0 bytes source (rw (read_file, found) at e)
]

-- A call of `dsl_parse_run_plan_file` always returns, whatever the file holds, NUL bytes included, and whichever
-- allocations fail: with success and a plan that fits, with a parse error and a plan that is zero, fresh or
-- as it was, or with an I/O error and the plan as it was.
pub dsl_parse_run_plan_file-LeavesFile :
    (files : Files) (path : Option Text) (plan : RunPlan) (error : DslParseError)
    (allocs : List Bool)
    → (out : Outcome) × (dsl_parse_run_plan_file files path plan error allocs ≡ some out)
      × LeavesFile plan out
unfolding dsl_parse_run_plan_file ReturnsFile
dsl_parse_run_plan_file-LeavesFile files path plan error allocs =
    parse_text-ReturnsFile (read_file files path allocs).0 plan error
      (read_file files path allocs).1 (read_file_clean files path allocs)
