-- ===== src/Store/Trace/Tasks.antt =====
-- Along every history no event loses a task.
use traffic_analysis.Base.{
  ℕ, suc, ◌≤◌, Bool, String, Option, List, [], ◌∷◌, ◌≡◌, refl, arith, ap, ◌∙◌, length,
  length-append, ◌==◌, eq_iff, inl, inr, Option-cases,
}
use mathlib.Core.Path.{subst}
use traffic_analysis.Dict.{Dict, get, put}
use traffic_analysis.Dict.Laws.{get-put}
use traffic_analysis.Domain.{Task}
use traffic_analysis.Store.{MemoryStore}
use traffic_analysis.Store.Rows.{rows_of, append_row}
use traffic_analysis.Store.Rows.Laws.{
  rows_of-append_row, ChangesFirst, here, later, Outcome, nothing, one, update_visit-Outcome,
}
use traffic_analysis.Store.Work.{added_task, add_task, patched_task, update_task}
use traffic_analysis.Store.Trace.{Op, step, run, adds_task, updates_task}
use traffic_analysis.Store.Trace.Frame.{tasks_by_event-step}
use traffic_analysis.Store.Trace.Leads.{Leads}

module _ {A : Type 0} where
  length-ChangesFirst :
      (matches : A → Bool) (change : A → A) {rows rows' : List A} {x : A}
      → ChangesFirst matches change rows rows' x
      → length rows' ≡ length rows
  length-ChangesFirst matches change (here h) = refl
  length-ChangesFirst matches change (later h c) = ap suc (length-ChangesFirst matches change c)

  length-put :
      (m : Dict (List A)) (e k : String) (rows : List A)
      → length rows ≡ length (rows_of m e)
      → length (rows_of (put m e rows) k) ≡ length (rows_of m k)
  unfolding rows_of
  length-put m e k rows h = ground (arith, get-put m e k rows, eq_iff e k)

  length-Outcome :
      (matches : A → Bool) (change : A → A) (m : Dict (List A)) (visit : List String)
      {m' : Dict (List A)} {x : Option A} (k : String)
      → Outcome matches change m visit m' x
      → length (rows_of m' k) ≡ length (rows_of m k)
  length-Outcome matches change m visit k (nothing all same e) = ap (λ d. length (rows_of d k)) same
  length-Outcome matches change m visit k (one x e c) =
      ap (λ d. length (rows_of d k)) c.written
      ∙ length-put m c.event k c.rows (length-ChangesFirst matches change c.first)

  length-append_row :
      (m : Dict (List A)) (e k : String) (x : A)
      → length (rows_of m k) ≤ length (rows_of (append_row m e x) k)
  length-append_row m e k x =
      rw (rows_of-append_row m e k x)
        (ground (arith, eq_iff e k, length-append (rows_of m e) (x ∷ [])))

abbrev pub task_count : String → MemoryStore → ℕ
task_count k s = length (rows_of s.tasks_by_event k)

task_count-add_task :
    (k : String) (now : ℕ) (fresh : String) (t : Task) (s : MemoryStore)
    → task_count k s ≤ task_count k (add_task now fresh t s).0
unfolding add_task added_task
task_count-add_task k now fresh t s = elim (Option-cases (get s.events t.event_id)) [
  | inl missing ↦ rw (missing, add_task) (omega arith)
  | inr (e, there) ↦ rw (there, add_task) (length-append_row s.tasks_by_event t.event_id k _)
]

task_count-step :
    (k : String) (op : Op) (s : MemoryStore) → task_count k s ≤ task_count k (step op s)
unfolding step update_task
task_count-step k (adds_task now fresh t) s = task_count-add_task k now fresh t s
task_count-step k (updates_task now visit id patch) s = omega (
  arith,
  length-Outcome (λ (t : Task). t.task_id == id) (patched_task now patch) s.tasks_by_event visit k
      (update_visit-Outcome _ (patched_task now patch) visit s.tasks_by_event),
)
task_count-step k op s = rw (tasks_by_event-step op s refl) (omega arith)

task_count-run :
    (k : String) (ops : List Op) (s : MemoryStore) → task_count k s ≤ task_count k (run ops s)
unfolding run
task_count-run k [] s = omega arith
task_count-run k (op ∷ ops) s =
    omega (arith, task_count-step k op s, task_count-run k ops (step op s))

pub task_count-Leads :
    (k : String) {s s' : MemoryStore} → Leads s s' → task_count k s ≤ task_count k s'
task_count-Leads k {s} m =
    subst (λ t. task_count k s ≤ task_count k t) m.leads (task_count-run k m.ops s)
