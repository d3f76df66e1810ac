-- ===== src/Lineage/Edges.antt =====
-- crates/offf-core/src/lineage.rs: the edges of the graph and the rows of the table.
use openforensicfileformat.Prelude.{
  ◌*◌, ◌≤◌, ◌≡◌, sym, ◌∙◌, ◌⊎◌, length, List, [], ◌∷◌, ◌++◌, arith, Bool-cases, inl, inr,
}
use openforensicfileformat.Bytes.{Bytes, bytes_eq, bytes_eq→eq}
use openforensicfileformat.Objects.{ObjectEdgeRow}
use openforensicfileformat.Scope.{has_text}
use openforensicfileformat.Lineage.{Graph, push_child, add_node, add_edges, children_of, nodes}
use openforensicfileformat.Lineage.Walks.{In, Walk, unseen}

-- One of the rows goes from `p` to `c`.
abbrev pub IsEdge : List ObjectEdgeRow → Bytes → Bytes → Type 0
IsEdge [] p c = ⊥
IsEdge (e ∷ edges) p c = ((e.parent_object_id ≡ p) × (e.child_object_id ≡ c)) ⊎ IsEdge edges p c

-- A closed walk along the edges.
abbrev pub IsCycle : List ObjectEdgeRow → List Bytes → Type 0
IsCycle edges [] = ⊥
IsCycle edges (x ∷ rest) = Walk (IsEdge edges) ((x ∷ rest) ++ (x ∷ []))

abbrev pub ids_of : List ObjectEdgeRow → List Bytes
ids_of [] = []
ids_of (e ∷ edges) = e.parent_object_id ∷ e.child_object_id ∷ ids_of edges

In-append : (x y : Bytes) (xs : List Bytes) → In x (xs ++ (y ∷ [])) → In x xs ⊎ (y ≡ x)
In-append x y [] (inl e) = inr e
In-append x y [] (inr i) = absurd i
In-append x y (z ∷ xs) (inl e) = inl (inl e)
In-append x y (z ∷ xs) (inr i) = elim (In-append x y xs i) [ inl j ↦ inl (inr j) | inr e ↦ inr e ]

push_child-In :
    (q d p c : Bytes) (graph : Graph)
    → In c (children_of p (push_child q d graph))
    → In c (children_of p graph) ⊎ ((q ≡ p) × (d ≡ c))
unfolding push_child children_of
push_child-In q d p c [] i = elim (Bool-cases (bytes_eq q p)) [
  | inl t ↦ elim (rw t at i) [ inl e ↦ inr (bytes_eq→eq q p t, e) | inr j ↦ absurd j ]
  | inr f ↦ absurd (rw f at i)
]
push_child-In q d p c ((r, cs) ∷ graph) i = elim (Bool-cases (bytes_eq r q)) [
  | inl t ↦ elim (Bool-cases (bytes_eq r p)) [
    | inl u ↦
        let j : In c (cs ++ (d ∷ [])) = rw (t, u) at i in
        rw u (elim (In-append c d cs j) [
          | inl k ↦ inl k
          | inr e ↦ inr (sym (bytes_eq→eq r q t) ∙ bytes_eq→eq r p u, e)
        ])
    | inr g ↦ rw g (inl (rw (t, g) at i))
  ]
  | inr f ↦ elim (Bool-cases (bytes_eq r p)) [
    | inl u ↦ rw u (inl (rw (f, u) at i))
    | inr g ↦ rw g (push_child-In q d p c graph (rw (f, g) at i))
  ]
]

add_node-In :
    (q p c : Bytes) (graph : Graph)
    → In c (children_of p (add_node q graph))
    → In c (children_of p graph)
unfolding add_node children_of
add_node-In q p c [] i = elim (Bool-cases (bytes_eq q p)) [ inl t ↦ rw t at i | inr f ↦ rw f at i ]
add_node-In q p c ((r, cs) ∷ graph) i = elim (Bool-cases (bytes_eq r q)) [
  | inl t ↦ rw t at i
  | inr f ↦ elim (Bool-cases (bytes_eq r p)) [
    | inl u ↦ rw u (rw (f, u) at i)
    | inr g ↦ rw g (add_node-In q p c graph (rw (f, g) at i))
  ]
]

pub add_edges-In :
    (edges : List ObjectEdgeRow) (graph : Graph) (p c : Bytes)
    → In c (children_of p (add_edges edges graph))
    → In c (children_of p graph) ⊎ IsEdge edges p c
unfolding add_edges
add_edges-In [] graph p c i = inl i
add_edges-In (e ∷ edges) graph p c i =
    let pushed = push_child e.parent_object_id e.child_object_id graph in
    elim (add_edges-In edges (add_node e.child_object_id pushed) p c i) [
      | inl j ↦
          elim (push_child-In e.parent_object_id e.child_object_id p c graph
            (add_node-In e.child_object_id p c pushed j)) [ inl k ↦ inl k | inr h ↦ inr (inl h) ]
      | inr h ↦ inr (inr h)
    ]

pub child_known :
    (edges : List ObjectEdgeRow) (p c : Bytes) → IsEdge edges p c → In c (ids_of edges)
child_known (e ∷ edges) p c (inl (h, k)) = inr (inl k)
child_known (e ∷ edges) p c (inr h) = inr (inr (child_known edges p c h))
child_known [] p c h = absurd h

push_child-nodes :
    (q d n : Bytes) (graph : Graph)
    → In n (nodes (push_child q d graph))
    → In n (nodes graph) ⊎ (q ≡ n)
unfolding push_child
push_child-nodes q d n [] (inl e) = inr e
push_child-nodes q d n [] (inr i) = absurd i
push_child-nodes q d n ((r, cs) ∷ graph) i = elim (Bool-cases (bytes_eq r q)) [
  | inl t ↦ inl (rw t at i)
  | inr f ↦ elim (rw f at i) [
    | inl e ↦ inl (inl e)
    | inr j ↦ elim (push_child-nodes q d n graph j) [ inl k ↦ inl (inr k) | inr e ↦ inr e ]
  ]
]

add_node-nodes :
    (q n : Bytes) (graph : Graph) → In n (nodes (add_node q graph)) → In n (nodes graph) ⊎ (q ≡ n)
unfolding add_node
add_node-nodes q n [] (inl e) = inr e
add_node-nodes q n [] (inr i) = absurd i
add_node-nodes q n ((r, cs) ∷ graph) i = elim (Bool-cases (bytes_eq r q)) [
  | inl t ↦ inl (rw t at i)
  | inr f ↦ elim (rw f at i) [
    | inl e ↦ inl (inl e)
    | inr j ↦ elim (add_node-nodes q n graph j) [ inl k ↦ inl (inr k) | inr e ↦ inr e ]
  ]
]

pub add_edges-nodes :
    (edges : List ObjectEdgeRow) (graph : Graph) (n : Bytes)
    → In n (nodes (add_edges edges graph))
    → In n (nodes graph) ⊎ In n (ids_of edges)
unfolding add_edges
add_edges-nodes [] graph n i = inl i
add_edges-nodes (e ∷ edges) graph n i =
    let pushed = push_child e.parent_object_id e.child_object_id graph in
    elim (add_edges-nodes edges (add_node e.child_object_id pushed) n i) [
      | inl j ↦ elim (add_node-nodes e.child_object_id n pushed j) [
        | inl k ↦ elim (push_child-nodes e.parent_object_id e.child_object_id n graph k) [
          | inl m ↦ inl m
          | inr h ↦ inr (inl h)
        ]
        | inr h ↦ inr (inr (inl h))
      ]
      | inr h ↦ inr (inr (inr h))
    ]

pub unseen_none : (edges : List ObjectEdgeRow) → unseen (ids_of edges) [] ≤ 2 * length edges
unfolding has_text
unseen_none [] = omega arith
unseen_none (e ∷ edges) = omega (arith, unseen_none edges)
