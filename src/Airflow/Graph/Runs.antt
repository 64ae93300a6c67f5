-- ===== src/Airflow/Graph/Runs.antt =====
-- The graphs of airflow/dags can be run: each file declares a task after the tasks before it, which
-- fixes how a run of it ends.
use mathlib.Core.Path.{ap₂}
use spark_dev.Base.{
  ◌≡◌, refl, sym, ap, ◌∙◌, Bool, true, false, inl, inr, String, List, [], ◌∷◌, map, All, In,
  if◌then◌else◌, str_eq, eq_iff, arith,
}
use spark_dev.Airflow.Graph.{Rule, State, skipped, Decision, Task, Graph, upstream, settle, IsRun}

-- a task by its id: whether it stands in a list of ids
abbrev stands_in : List String → String → Bool
stands_in [] t = false
stands_in (s ∷ ss) t = if str_eq s t then true else stands_in ss t

abbrev all_stand_in : List String → List String → Bool
all_stand_in seen [] = true
all_stand_in seen (t ∷ ts) = if stands_in seen t then all_stand_in seen ts else false

-- each task comes after its upstream tasks, and no id comes twice
abbrev ordered_from : List String → List Task → List (String × String) → Bool
ordered_from seen [] edges = true
ordered_from seen (t ∷ ts) edges =
    if stands_in seen t.task_id
    then false
    else (if all_stand_in seen (upstream t.task_id edges)
        then ordered_from (t.task_id ∷ seen) ts edges
        else false)

abbrev pub IsOrdered : Graph → Type 0
IsOrdered g = ordered_from [] g.tasks g.edges ≡ true

-- the test by members
stands_in-In : (ss : List String) (t : String) → stands_in ss t ≡ true → In t ss
stands_in-In [] t h = ground arith
stands_in-In (s ∷ ss) t h = ground (arith, eq_iff s t, stands_in-In ss t)

In-stands_in : (ss : List String) (t : String) → In t ss → stands_in ss t ≡ true
In-stands_in [] t m = absurd m
In-stands_in (s ∷ ss) t m = ground (arith, eq_iff s t, In-stands_in ss t)

ands : (a b : Bool) → (if a then b else false) ≡ true → (a ≡ true) × (b ≡ true)
ands a b h = ground arith

map_agree :
    {A : Type 0} (f g : String → A) (seen us : List String)
    → ((u : String) → In u seen → f u ≡ g u)
    → all_stand_in seen us ≡ true
    → map f us ≡ map g us
map_agree f g seen [] same h = refl
map_agree f g seen (u ∷ us) same h =
    let found = ands (stands_in seen u) (all_stand_in seen us) h in
    ap₂ ◌∷◌ (same u (stands_in-In seen u found.0)) (map_agree f g seen us same found.1)

agree_with :
    {A : Type 0} (f g : String → A) (t : String) (seen : List String)
    → f t ≡ g t
    → ((u : String) → In u seen → f u ≡ g u)
    → (u : String) → In u (t ∷ seen)
    → f u ≡ g u
agree_with f g t seen here same u (inl e) = ap f e ∙ here ∙ sym (ap g e)
agree_with f g t seen here same u (inr m) = same u m

ordered-head :
    (seen : List String) (t : Task) (ts : List Task) (edges : List (String × String))
    → ordered_from seen (t ∷ ts) edges ≡ true
    → (stands_in seen t.task_id ≡ false)
      × (all_stand_in seen (upstream t.task_id edges) ≡ true)
      × (ordered_from (t.task_id ∷ seen) ts edges ≡ true)
ordered-head seen t ts edges h = ground arith

module _ (decide : Rule → List State → Decision) (skips ok : String → Bool) where
  -- the state in which a task ends, from those of its upstream tasks
  abbrev ending : List (String × String) → (String → State) → Task → State
  ending edges final t =
      if skips t.task_id
      then skipped
      else settle (decide t.trigger_rule (map final (upstream t.task_id edges))) (ok t.task_id)

  abbrev record_state : String → State → (String → State) → String → State
  record_state t s final u = if str_eq t u then s else final u

  -- the tasks run one after the other
  abbrev execute_from : List Task → List (String × String) → (String → State) → String → State
  execute_from [] edges final = final
  execute_from (t ∷ ts) edges final =
      execute_from ts edges (record_state t.task_id (ending edges final t) final)

  abbrev pub execute : Graph → String → State
  execute g = execute_from g.tasks g.edges (λ _. skipped)

  record_same : (t : String) (s : State) (f : String → State) → record_state t s f t ≡ s
  record_same t s f = ground (arith, eq_iff t t)

  record_fresh :
      (seen : List String) (t u : String) (s : State) (f : String → State)
      → stands_in seen t ≡ false
      → In u seen
      → record_state t s f u ≡ f u
  record_fresh seen t u s f fresh m = ground (arith, eq_iff t u, In-stands_in seen u m)

  ending_agree :
      (edges : List (String × String)) (f g : String → State) (seen : List String) (t : Task)
      → ((u : String) → In u seen → f u ≡ g u)
      → all_stand_in seen (upstream t.task_id edges) ≡ true
      → ending edges f t ≡ ending edges g t
  ending_agree edges f g seen t same h =
      ap
        (λ ss.
          if skips t.task_id then skipped else settle (decide t.trigger_rule ss) (ok t.task_id))
        (map_agree f g seen (upstream t.task_id edges) same h)

  -- Two runs that agree on the tasks before agree on the tasks after.
  runs_agree :
      (seen : List String) (ts : List Task) (edges : List (String × String)) (f g : String → State)
      → ordered_from seen ts edges ≡ true
      → ((u : String) → In u seen → f u ≡ g u)
      → All (λ t. f t.task_id ≡ ending edges f t) ts
      → All (λ t. g t.task_id ≡ ending edges g t) ts
      → All (λ t. f t.task_id ≡ g t.task_id) ts
  runs_agree seen [] edges f g o same rf rg = tt
  runs_agree seen (t ∷ ts) edges f g o same rf rg =
      let (_, before, after) = ordered-head seen t ts edges o in
      let here = rf.0 ∙ ending_agree edges f g seen t same before ∙ sym rg.0 in
      (
        here,
        runs_agree (t.task_id ∷ seen) ts edges f g after (agree_with f g t.task_id seen here same)
            rf.1 rg.1,
      )

  -- What has run stays as it is.
  execute_keeps :
      (seen : List String) (ts : List Task) (edges : List (String × String)) (f : String → State)
      (u : String)
      → ordered_from seen ts edges ≡ true
      → In u seen
      → execute_from ts edges f u ≡ f u
  execute_keeps seen [] edges f u o m = refl
  execute_keeps seen (t ∷ ts) edges f u o m =
      let (fresh, _, after) = ordered-head seen t ts edges o in
      execute_keeps (t.task_id ∷ seen) ts edges _ u after (inr m)
      ∙ record_fresh seen t.task_id u _ f fresh m

  execute-All :
      (seen : List String) (ts : List Task) (edges : List (String × String)) (f : String → State)
      → ordered_from seen ts edges ≡ true
      → All (λ t. execute_from ts edges f t.task_id ≡ ending edges (execute_from ts edges f) t) ts
  execute-All seen [] edges f o = tt
  execute-All seen (t ∷ ts) edges f o =
      let (fresh, before, after) = ordered-head seen t ts edges o in
      let final = execute_from (t ∷ ts) edges f in
      let kept = execute_keeps seen (t ∷ ts) edges f in
      (
        execute_keeps (t.task_id ∷ seen) ts edges _ t.task_id after (inl refl)
            ∙ record_same t.task_id (ending edges f t) f
            ∙ sym (ending_agree edges final f seen t (λ u m. kept u o m) before),
        execute-All (t.task_id ∷ seen) ts edges _ after,
      )

  -- The tasks of the graph have exactly one way to end.
  abbrev pub RunsOnce : Graph → Type 0
  RunsOnce g =
      (final : String → State) × IsRun decide skips ok g final
      × ((other : String → State)
          → IsRun decide skips ok g other
          → All (λ t. final t.task_id ≡ other t.task_id) g.tasks)

  pub IsOrdered-RunsOnce : (g : Graph) → IsOrdered g → RunsOnce g
  IsOrdered-RunsOnce g o =
      let ends = execute-All [] g.tasks g.edges (λ _. skipped) o in
      (
        execute g,
        ends,
        λ other runs. runs_agree [] g.tasks g.edges (execute g) other o (λ u m. absurd m) ends runs,
      )
