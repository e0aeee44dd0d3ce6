-- ===== src/Engine/Answers/Sent.antt =====
-- `run_plan` of src/core/engine.c: the loop that creates, saves and dispatches the requests.
use fman.Prelude.{
  ℕ, at_or_past, zero, suc, ◌+◌, ◌≤◌, ◌<◌, ◌≡◌, refl, sym, ◌∙◌, inl, inr, Bool, true, not, if_cases,
  false, List, Option, none, some, get_or, arith, length, length-set, set, subst, if◌then◌else◌,
  get_or-set_self, get_or-set_ne,
}
use fman.Prelude.Int.{ℤ, negsuc}
use fman.Models.{Request}
use fman.RunPlan.{RequestCase, RunPlan, zero_case}
use fman.Engine.{Services, dispatch_all}
use fman.Engine.Later.{Later, request_created, request_saved, task_dispatched}

module _ {World : Type 0} (s : Services World) (start : World) where
  -- A request that was created for the case, behind calls of the run that began at the start, was then saved under the
  -- id and dispatched.
  pub record IsSent (c : RequestCase) (id : ℤ) : Type 0 where
    pub collection_id : ℤ
    pub created : World
    pub later : Later s start created
    pub req : Request
    pub req_is : (s.create_request c collection_id created).0 ≡ some req
    pub saved_world : World
    pub saved_world_is : saved_world ≡ (s.create_request c collection_id created).1
    pub saved : (s.db_save_request req saved_world).0 ≡ true
    pub id_is : (s.db_save_request req saved_world).1.id ≡ id
    pub dispatched :
        (s.dispatch_task
          (s.db_save_request req saved_world).1
          (s.db_save_request req saved_world).2).0
        ≡ true

  -- What a dispatched plan has done from the i-th case on.
  unfoldable pub Sends : ℕ → ℕ → RunPlan → List ℤ → Bool × List ℤ × World → Type 0
  Sends rounds i plan ids out =
      out.0 ≡ true
      → ((j : ℕ) → j < i → get_or out.1 j (negsuc 0) ≡ get_or ids j (negsuc 0))
        × ((j : ℕ)
            → i ≤ j
            → j < i + rounds
            → IsSent (get_or plan.cases j zero_case) (get_or out.1 j (negsuc 0)))

  sent_first :
      (rounds i : ℕ) (plan : RunPlan) (ids : List ℤ) (id : ℤ) (out : Bool × List ℤ × World)
      → i < length ids
      → IsSent (get_or plan.cases i zero_case) id
      → Sends rounds (i + 1) plan (set ids i id) out
      → Sends (suc rounds) i plan ids out
  unfolding Sends
  sent_first rounds i plan ids id out len here later e =
      let (kept, sent) = later e in
      (
        λ j lt. kept j (omega arith) ∙ get_or-set_ne ids i j id (negsuc 0) (omega arith),
        λ j le lt. elim (at_or_past i j le) [
          | inl same ↦
              subst (λ n. IsSent (get_or plan.cases n zero_case) (get_or out.1 n (negsuc 0))) same
                (subst (IsSent (get_or plan.cases i zero_case))
                  (sym (kept i (omega arith) ∙ get_or-set_self ids i id (negsuc 0) len)) here)
          | inr past ↦ sent j past (omega arith)
        ],
      )

  not_sent :
      (rounds i : ℕ) (plan : RunPlan) (ids ids' : List ℤ) (w : World)
      → Sends rounds i plan ids (false, ids', w)
  unfolding Sends
  not_sent rounds i plan ids ids' w e = absurd (cc e)

  -- The round of a case behind `create_request`, and what it gives when the later rounds send theirs.
  abbrev behind : ℕ → ℕ → RunPlan → ℤ → List ℤ → World → Option Request → Bool × List ℤ × World
  behind rounds i plan collection_id ids w1 none = (false, ids, w1)
  behind rounds i plan collection_id ids w1 (some r) =
      let (saved, r', w2) = s.db_save_request r w1 in
      let (dispatched, w3) = s.dispatch_task r' w2 in
      let ids' = set ids i r'.id in
      let rest = dispatch_all s rounds (i + 1) plan collection_id ids' w3 in
      if not saved then (false, ids, w2) else if dispatched then rest else (false, ids', w3)

  behind-Sends :
      (rounds i : ℕ) (plan : RunPlan) (collection_id : ℤ) (ids : List ℤ) (w : World)
      (o : Option Request)
      → Later s start w
      → i + suc rounds ≤ length ids
      → (s.create_request (get_or plan.cases i zero_case) collection_id w).0 ≡ o
      → ((ids' : List ℤ) (w' : World)
          → Later s start w'
          → i + 1 + rounds ≤ length ids'
          → Sends rounds
              (i + 1)
              plan
              ids'
              (dispatch_all s rounds (i + 1) plan collection_id ids' w'))
      → Sends (suc rounds) i plan ids (
          behind rounds i plan collection_id ids
            (s.create_request (get_or plan.cases i zero_case) collection_id w).1
            o)
  behind-Sends rounds i plan collection_id ids w none l len e later = not_sent _ _ _ _ _ _
  behind-Sends rounds i plan collection_id ids w (some r) l len e later =
      let w1 = (s.create_request (get_or plan.cases i zero_case) collection_id w).1 in
      let (saved, r', w2) = s.db_save_request r w1 in
      let (dispatched, w3) = s.dispatch_task r' w2 in
      let ids' = set ids i r'.id in
      if_cases (Sends (suc rounds) i plan ids) (not saved) (λ _. not_sent _ _ _ _ _ _)
        λ ok.
          if_cases (Sends (suc rounds) i plan ids) dispatched
            (λ sent.
              sent_first rounds i plan ids r'.id _ (omega arith)
                (record {
                  collection_id = collection_id;
                  created = w;
                  later = l;
                  req = r;
                  req_is = e;
                  saved_world = w1;
                  saved_world_is = refl;
                  saved = ground (arith, ok);
                  id_is = refl;
                  dispatched = sent;
                })
                (later ids' w3
                  (task_dispatched r' (
                    request_saved r
                      (request_created (get_or plan.cases i zero_case) collection_id l)))
                  (subst (λ n. i + 1 + rounds ≤ n) (sym (length-set ids i r'.id)) (omega arith))))
            (λ _. not_sent _ _ _ _ _ _)

  pub dispatch_all-Sends :
      (rounds i : ℕ) (plan : RunPlan) (collection_id : ℤ) (ids : List ℤ) (w : World)
      → Later s start w
      → i + rounds ≤ length ids
      → Sends rounds i plan ids (dispatch_all s rounds i plan collection_id ids w)
  unfolding dispatch_all
  dispatch_all-Sends zero i plan collection_id ids w l len =
      unfold Sends in λ _. (λ j lt. refl, λ j le lt. absurd (omega arith))
  dispatch_all-Sends (suc rounds) i plan collection_id ids w l len =
      behind-Sends rounds i plan collection_id ids w _ l len refl
        λ ids' w' l' len'. dispatch_all-Sends rounds (i + 1) plan collection_id ids' w' l' len'
