-- ===== src/Store/Trace/Leads.antt =====
-- A store that some history of calls leads to from another. What holds along every history holds
-- of it too.
use traffic_analysis.Base.{String, some, List, [], ◌∷◌, ◌++◌, ◌≡◌, refl, ap, ◌∙◌}
use mathlib.Core.Path.{subst}
use traffic_analysis.Dict.{get}
use traffic_analysis.Domain.{Event}
use traffic_analysis.Store.{MemoryStore}
use traffic_analysis.Store.Events.Laws.{Keeps}
use traffic_analysis.Store.Trace.{Op, step, run}
use traffic_analysis.Store.Trace.History.{run-Keeps}
use traffic_analysis.Store.Trace.Linked.{IsLinkedStore, run-IsLinkedStore}

pub record Leads (s s' : MemoryStore) : Type 0 where
  pub ops : List Op
  pub leads : run ops s ≡ s'

pub Leads-refl : (s : MemoryStore) → Leads s s
unfolding run
Leads-refl s = record { ops = []; leads = refl }

run-append : (ops ops' : List Op) (s : MemoryStore) → run (ops ++ ops') s ≡ run ops' (run ops s)
unfolding run
run-append [] ops' s = refl
run-append (op ∷ ops) ops' s = run-append ops ops' (step op s)

pub Leads-trans : {a b c : MemoryStore} → Leads a b → Leads b c → Leads a c
Leads-trans {a} p q = record {
  ops = p.ops ++ q.ops;
  leads = run-append p.ops q.ops a ∙ ap (run q.ops) p.leads ∙ q.leads;
}

-- One call.
pub Leads-step : (op : Op) (s : MemoryStore) → Leads s (step op s)
unfolding run
Leads-step op s = record { ops = op ∷ []; leads = refl }

pub Leads-Keeps :
    {s s' : MemoryStore}
    → Leads s s'
    → (key : String) (e : Event) → get s.events key ≡ some e
    → Keeps s' key e
Leads-Keeps {s} p key e h = subst (λ t. Keeps t key e) p.leads (run-Keeps p.ops s key e h)

pub Leads-IsLinkedStore : {s s' : MemoryStore} → Leads s s' → IsLinkedStore s → IsLinkedStore s'
Leads-IsLinkedStore {s} p v = subst IsLinkedStore p.leads (run-IsLinkedStore p.ops s v)
