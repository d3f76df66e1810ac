-- ===== src/Tests/LineageRuns.antt =====
-- Runs of crates/offf-core/src/lineage.rs on small graphs.
use openforensicfileformat.Prelude.{◌≡◌, refl, none, List, [], ◌∷◌, All}
use openforensicfileformat.Bytes.{Bytes, codes, bytes_eq}
use openforensicfileformat.Outcome.{ok}
use openforensicfileformat.Objects.{ObjectEdgeRow}
use openforensicfileformat.Scope.{has_text}
use openforensicfileformat.Lineage.{
  insert_text, remove_text, push_child, add_node, add_edges, children_of, position, but_last, enter,
  leave, report, visit_child, visit_children, dfs, search_from, detect_cycles,
}
use openforensicfileformat.Lineage.Edges.{IsCycle}
use openforensicfileformat.Lineage.Cycles.{detect_cycles-IsCycle}

abbrev edge : Bytes → Bytes → ObjectEdgeRow
edge p c = record {
  edge_id = codes "e";
  parent_object_id = p;
  child_object_id = c;
  parent_root_id = none;
  child_root_id = none;
  relation_type = codes "contains";
  method = none;
  logical_path = none;
  sequence = none;
  created_by_job_id = none;
  provenance_ref = none;
  schema_version = codes "1";
}

-- A cycle of two objects behind a third one.
abbrev some_edges : List ObjectEdgeRow
some_edges =
    edge (codes "r") (codes "a") ∷ edge (codes "a") (codes "b") ∷ edge (codes "b") (codes "a") ∷ []

found_run : detect_cycles (λ keys. keys) some_edges ≡ ok ((codes "a" ∷ codes "b" ∷ []) ∷ [])
unfolding detect_cycles search_from dfs visit_children visit_child report leave enter but_last
    position children_of add_edges add_node push_child remove_text insert_text has_text bytes_eq
found_run = refl

detect_cycles-IsCycle_example :
    (cycles : List (List Bytes)) × (detect_cycles (λ keys. keys) some_edges ≡ ok cycles)
    × All (IsCycle some_edges) cycles
detect_cycles-IsCycle_example = detect_cycles-IsCycle (λ keys. keys) (λ keys x i. i) some_edges
