-- ===== src/Lineage.antt =====
-- crates/offf-core/src/lineage.rs: the checks of the object graph. The order in which a hash map gives
-- its keys is a parameter.
pub mod Walks
pub mod Edges
pub mod Cycles
use openforensicfileformat.Prelude.{
  ℕ, zero, suc, ◌+◌, ◌*◌, Bool, true, false, ◌&&◌, not, ◌==◌, if◌then◌else◌, length, drop, Option,
  none, some, List, [], ◌∷◌, ◌++◌, map,
}
use openforensicfileformat.Bytes.{Bytes, bytes_eq}
use openforensicfileformat.Outcome.{Result, ok, err, panic, stuck, ◌>>=◌}
use openforensicfileformat.Objects.{DiscoveredObjectRow, ObjectEdgeRow, DerivationRow}
use openforensicfileformat.Scope.{has_text}

-- A `HashSet<&str>` and a `HashMap<&str, Vec<&str>>`.
unfoldable pub insert_text : Bytes → List Bytes → List Bytes
insert_text x xs = if has_text x xs then xs else x ∷ xs

unfoldable pub remove_text : Bytes → List Bytes → List Bytes
remove_text x [] = []
remove_text x (y ∷ ys) = if bytes_eq y x then ys else y ∷ remove_text x ys

abbrev pub Graph : Type 0
Graph = List (Bytes × List Bytes)

-- `graph.entry(p).or_default().push(c)`, and without the push.
unfoldable pub push_child : Bytes → Bytes → Graph → Graph
push_child p c [] = (p, c ∷ []) ∷ []
push_child p c ((q, cs) ∷ graph) =
    if bytes_eq q p then (q, cs ++ (c ∷ [])) ∷ graph else (q, cs) ∷ push_child p c graph

unfoldable pub add_node : Bytes → Graph → Graph
add_node p [] = (p, []) ∷ []
add_node p ((q, cs) ∷ graph) = if bytes_eq q p then (q, cs) ∷ graph else (q, cs) ∷ add_node p graph

unfoldable pub add_edges : List ObjectEdgeRow → Graph → Graph
add_edges [] graph = graph
add_edges (e ∷ edges) graph =
    add_edges edges
      (add_node e.child_object_id (push_child e.parent_object_id e.child_object_id graph))

unfoldable pub children_of : Bytes → Graph → List Bytes
children_of p [] = []
children_of p ((q, cs) ∷ graph) = if bytes_eq q p then cs else children_of p graph

abbrev pub nodes : Graph → List Bytes
nodes graph = map (λ entry. entry.0) graph

-- What the search keeps.
pub record Search : Type 0 where
  pub visited : List Bytes
  pub stack : List Bytes
  pub path : List Bytes
  pub cycles : List (List Bytes)

unfoldable pub position : Bytes → List Bytes → Option ℕ
position x [] = none
position x (y ∷ ys) =
    if bytes_eq y x then some 0 else elim (position x ys) [ some n ↦ some (suc n) | none ↦ none ]

unfoldable pub but_last : List Bytes → List Bytes
but_last [] = []
but_last (x ∷ []) = []
but_last (x ∷ y ∷ ys) = x ∷ but_last (y ∷ ys)

unfoldable pub enter : Bytes → Search → Search
enter node s = record s {
  visited = insert_text node s.visited;
  stack = insert_text node s.stack;
  path = s.path ++ (node ∷ []);
}

unfoldable pub leave : Bytes → Search → Search
leave node s = record s { stack = remove_text node s.stack; path = but_last s.path }

unfoldable pub report : Option ℕ → Search → Search
report none s = s
report (some pos) s = record s { cycles = s.cycles ++ (drop pos s.path ∷ []) }

unfoldable pub visit_child : (Bytes → Search → Result Search) → Bytes → Search → Result Search
visit_child go child s =
    if not (has_text child s.visited)
    then go child s
    else if has_text child s.stack
    then ok (report (position child s.path) s)
    else ok s

unfoldable pub visit_children :
    (Bytes → Search → Result Search) → List Bytes → Search → Result Search
visit_children go [] s = ok s
visit_children go (child ∷ children) s = do
  s' ← visit_child go child s
  visit_children go children s'

unfoldable pub dfs : ℕ → Graph → Bytes → Search → Result Search
dfs zero graph node s = stuck
dfs (suc fuel) graph node s = do
  s' ← visit_children (dfs fuel graph) (children_of node graph) (enter node s)
  ok (leave node s')

-- The loop over the nodes.
unfoldable pub search_from : ℕ → Graph → List Bytes → Search → Result Search
search_from fuel graph [] s = ok s
search_from fuel graph (node ∷ rest) s = do
  s' ← (if not (has_text node s.visited) then dfs fuel graph node s else ok s)
  search_from fuel graph rest s'

abbrev pub new_search : Search
new_search = record { visited = []; stack = []; path = []; cycles = [] }

module _ (iteration : List Bytes → List Bytes) where
  unfoldable pub detect_cycles : List ObjectEdgeRow → Result (List (List Bytes))
  detect_cycles edges = do
    let graph = add_edges edges []
    s ← search_from (2 * length edges + 1) graph (iteration (nodes graph)) new_search
    ok s.cycles

pub record ObjectLineageValidationReport : Type 0 where
  pub missing_edge_parents : List Bytes
  pub missing_edge_children : List Bytes
  pub missing_derivation_parents : List Bytes
  pub missing_derivation_children : List Bytes
  pub invalid_derivation_links : List Bytes
  pub cycles : List (List Bytes)

unfoldable pub is_valid : ObjectLineageValidationReport → Bool
is_valid r =
    (length r.missing_edge_parents == 0)
    && ((length r.missing_edge_children == 0)
        && ((length r.missing_derivation_parents == 0)
            && ((length r.missing_derivation_children == 0)
                && ((length r.invalid_derivation_links == 0) && (length r.cycles == 0)))))

-- The ids of the edges, and of the derivations, whose object is not known.
unfoldable pub edges_without :
    (ObjectEdgeRow → Bytes) → List Bytes → List ObjectEdgeRow → List Bytes
edges_without f ids [] = []
edges_without f ids (e ∷ edges) =
    let rest = edges_without f ids edges in
    if not (has_text (f e) ids) then e.edge_id ∷ rest else rest

unfoldable pub derivations_without :
    (DerivationRow → Bytes) → List Bytes → List DerivationRow → List Bytes
derivations_without f ids [] = []
derivations_without f ids (d ∷ derivations) =
    let rest = derivations_without f ids derivations in
    if not (has_text (f d) ids) then d.derivation_id ∷ rest else rest

unfoldable pub has_pair : Bytes → Bytes → List ObjectEdgeRow → Bool
has_pair p c [] = false
has_pair p c (e ∷ edges) =
    if bytes_eq e.parent_object_id p && bytes_eq e.child_object_id c
    then true
    else has_pair p c edges

unfoldable pub unlinked : List ObjectEdgeRow → List DerivationRow → List Bytes
unlinked edges [] = []
unlinked edges (d ∷ derivations) =
    let rest = unlinked edges derivations in
    if not (has_pair d.parent_object_id d.child_object_id edges)
    then d.derivation_id ∷ rest
    else rest

module _ (iteration : List Bytes → List Bytes) where
  unfoldable pub validate :
      List DiscoveredObjectRow
      → List ObjectEdgeRow
      → List DerivationRow
      → Result ObjectLineageValidationReport
  validate objects edges derivations = do
    let ids = map (λ o. o.object_id) objects
    cycles ← detect_cycles iteration edges
    ok (record {
      missing_edge_parents = edges_without (λ e. e.parent_object_id) ids edges;
      missing_edge_children = edges_without (λ e. e.child_object_id) ids edges;
      missing_derivation_parents = derivations_without (λ d. d.parent_object_id) ids derivations;
      missing_derivation_children = derivations_without (λ d. d.child_object_id) ids derivations;
      invalid_derivation_links = unlinked edges derivations;
      cycles = cycles;
    })
