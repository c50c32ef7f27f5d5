-- ===== src/Workflow/Dag/Edges.antt =====
-- The edges of the dependency graph: the pairs of a dependency and the step that names it.
use botto.Prelude.{
  String, ℕ, suc, ◌+◌, ◌≡◌, Bool, true, false, List, [], ◌∷◌, ◌++◌, contains, count,
  contains-append, string_key, String_discrete, ite, arith,
}
use botto.Workflow.Types.{Host, WorkflowStep}

abbrev pub edges_into : String → List String → List (String × String)
edges_into id [] = []
edges_into id (dep ∷ deps) = (dep, id) ∷ edges_into id deps

abbrev pub edges : {H : Host} → List (WorkflowStep H) → List (String × String)
edges [] = []
edges (step ∷ steps) = edges_into step.id step.depends_on ++ edges steps

-- How many edges into `x` start at a step that is not in `done`.
abbrev pub unmet : List String → List (String × String) → String → ℕ
unmet done [] x = 0
unmet done ((dep, id) ∷ es) x =
    let rest = unmet done es x in ite (String_discrete id x) (if_open (contains done dep) rest) rest
  where
    if_open : Bool → ℕ → ℕ
    if_open true n = n
    if_open false n = suc n

-- The steps that name `y`, once for each time that they do.
abbrev pub successors : String → List (String × String) → List String
successors y [] = []
successors y ((dep, id) ∷ es) =
    let rest = successors y es in ite (String_discrete dep y) (id ∷ rest) rest

pub unmet-append :
    (done : List String) (es fs : List (String × String)) (x : String)
    → unmet done (es ++ fs) x ≡ unmet done es x + unmet done fs x
unmet-append done [] fs x = omega arith
unmet-append done ((dep, id) ∷ es) fs x = ground (arith, unmet-append done es fs x)

pub successors-append :
    (y : String) (es fs : List (String × String))
    → successors y (es ++ fs) ≡ successors y es ++ successors y fs
successors-append y [] fs = ground arith
successors-append y ((dep, id) ∷ es) fs = ground (arith, successors-append y es fs)

-- A step that is done takes its edges away.
pub unmet-snoc :
    (done : List String) (y : String) (es : List (String × String)) (x : String)
    → contains done y ≡ false
    → unmet done es x ≡ unmet (done ++ y ∷ []) es x + count x (successors y es)
unmet-snoc done y [] x h = omega arith
unmet-snoc done y ((dep, id) ∷ es) x h =
    ground (arith, unmet-snoc done y es x h, contains-append done (y ∷ []) dep)
