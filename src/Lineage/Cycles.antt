-- ===== src/Lineage/Cycles.antt =====
-- crates/offf-core/src/lineage.rs: the search of `detect_cycles`.
use openforensicfileformat.Prelude.{
  ℕ, zero, suc, ◌+◌, ◌*◌, ◌<◌, ◌≡◌, refl, sym, ap, ◌∙◌, subst, false, length, drop, Option, none,
  some, List, [], ◌∷◌, ◌++◌, All, arith, Bool-cases, inl, inr,
}
use openforensicfileformat.Bytes.{Bytes}
use openforensicfileformat.Outcome.{Result, ok}
use openforensicfileformat.Objects.{ObjectEdgeRow}
use openforensicfileformat.Scope.{has_text}
use openforensicfileformat.Lineage.{
  Graph, insert_text, add_edges, children_of, nodes, Search, position, but_last, enter, leave,
  report, visit_child, visit_children, dfs, search_from, new_search, detect_cycles,
}
use openforensicfileformat.Lineage.Walks.{
  In, but_last_lem, position_lem, Walk, Walk-append, Walk-drop, unseen, Within, unseen_le,
  unseen_lt, insert_text-Within, has_text-insert_text,
}
use openforensicfileformat.Lineage.Edges.{
  IsEdge, IsCycle, ids_of, add_edges-In, child_known, add_edges-nodes, unseen_none,
}

module _ (edges : List ObjectEdgeRow) (graph : Graph)
    (edge_of : (p c : Bytes) → In c (children_of p graph) → IsEdge edges p c) where
  abbrev AllCycles : Search → Type 0
  AllCycles s = All (IsCycle edges) s.cycles

  -- A step that ends, back at the path where it began, with cycles only.
  abbrev Kept : Search → Result Search → Type 0
  Kept s r =
      (s' : Search) × (r ≡ ok s') × (s'.path ≡ s.path) × Within s.visited s'.visited × AllCycles s'

  abbrev IsReady : ℕ → Bytes → Search → Type 0
  IsReady fuel node s =
      In node (ids_of edges)
      × (Walk (IsEdge edges) (s.path ++ (node ∷ []))
          × (AllCycles s
              × ((has_text node s.visited ≡ false) × (unseen (ids_of edges) s.visited < fuel))))

  abbrev Goes : ℕ → (Bytes → Search → Result Search) → Type 0
  Goes fuel go = (node : Bytes) (s : Search) → IsReady fuel node s → Kept s (go node s)

  -- The search stands at `node`, whose path it has come.
  abbrev IsAt : ℕ → List Bytes → Bytes → Search → Type 0
  IsAt fuel before node s =
      (s.path ≡ before ++ (node ∷ []))
      × (Walk (IsEdge edges) (before ++ (node ∷ []))
          × (AllCycles s × (unseen (ids_of edges) s.visited < fuel)))

  All-snoc :
      (xs : List (List Bytes)) (c : List Bytes)
      → All (IsCycle edges) xs
      → IsCycle edges c
      → All (IsCycle edges) (xs ++ (c ∷ []))
  All-snoc [] c h k = (k, tt)
  All-snoc (x ∷ xs) c (h, hs) k = (h, All-snoc xs c hs k)

  closed :
      (fuel : ℕ) (before : List Bytes) (node child : Bytes) (s : Search) (o : Option ℕ)
      → IsAt fuel before node s
      → IsEdge edges node child
      → position child s.path ≡ o
      → Kept s (ok (report o s))
  unfolding report
  closed fuel before node child s none (p, (w, (h, l))) e q = (s, refl, refl, (λ x t. t), h)
  closed fuel before node child s (some n) (p, (w, (h, l))) e q =
      let (inside, rest, d) = position_lem child s.path n q in
      let walk = Walk-drop (IsEdge edges) n before node child w e (rw p at inside) in
      let closed_walk =
        subst (λ xs. Walk (IsEdge edges) (xs ++ (child ∷ []))) (sym (ap (drop n) p) ∙ d) walk in
      let cycle : IsCycle edges (drop n s.path) = subst (IsCycle edges) (sym d) closed_walk in
      (
        record s { cycles = s.cycles ++ (drop n s.path ∷ []) },
        refl,
        refl,
        (λ x t. t),
        All-snoc s.cycles (drop n s.path) h cycle,
      )

  visit_child_lem :
      (fuel : ℕ) (go : Bytes → Search → Result Search)
      → Goes fuel go
      → (before : List Bytes) (node child : Bytes) (s : Search) → IsAt fuel before node s
      → IsEdge edges node child
      → Kept s (visit_child go child s)
  unfolding visit_child
  visit_child_lem fuel go goes before node child s (p, (w, (h, l))) e =
      elim (Bool-cases (has_text child s.visited)) [
        | inl t ↦ elim (Bool-cases (has_text child s.stack)) [
          | inl u ↦
              rw (t, u)
                (closed fuel before node child s (position child s.path) (p, (w, (h, l))) e refl)
          | inr g ↦ rw (t, g) (s, refl, refl, (λ x k. k), h)
        ]
        | inr f ↦ rw f (
            goes child s (
              child_known edges node child e,
              (rw p (Walk-append (IsEdge edges) before node child w e), (h, (f, l))),
            ))
      ]

  visit_children_lem :
      (fuel : ℕ) (go : Bytes → Search → Result Search)
      → Goes fuel go
      → (before : List Bytes) (node : Bytes) (children : List Bytes) (s : Search)
      → IsAt fuel before node s
      → ((c : Bytes) → In c children → IsEdge edges node c)
      → Kept s (visit_children go children s)
  unfolding visit_children
  visit_children_lem fuel go goes before node [] s (p, (w, (h, l))) e =
      (s, refl, refl, (λ x t. t), h)
  visit_children_lem fuel go goes before node (child ∷ children) s (p, (w, (h, l))) e =
      let (s₁, q₁, p₁, v₁, h₁) =
        visit_child_lem fuel go goes before node child s (p, (w, (h, l))) (e child (inl refl)) in
      let fewer = unseen_le (ids_of edges) s.visited s₁.visited v₁ in
      let (s₂, q₂, p₂, v₂, h₂) =
        visit_children_lem fuel go goes before node children s₁ (p₁ ∙ p, (w, (h₁, omega arith)))
          (λ c i. e c (inr i)) in
      (s₂, rw q₁ q₂, p₂ ∙ p₁, (λ x t. v₂ x (v₁ x t)), h₂)

  dfs_lem : (fuel : ℕ) → Goes fuel (dfs fuel graph)
  unfolding dfs enter leave
  dfs_lem zero node s (i, (w, (h, (f, l)))) = absurd (omega arith)
  dfs_lem (suc fuel) node s (i, (w, (h, (f, l)))) =
      let seen = insert_text-Within node s.visited in
      let fewer =
        unseen_lt (ids_of edges) s.visited (insert_text node s.visited) node seen i f
          (has_text-insert_text node s.visited) in
      let (s', q, p, v, h') =
        visit_children_lem fuel (dfs fuel graph) (dfs_lem fuel) s.path node (children_of node graph)
          (enter node s) (refl, (w, (h, omega arith))) (λ c j. edge_of node c j) in
      (
        leave node s',
        rw q refl,
        ap but_last p ∙ but_last_lem s.path node,
        (λ x t. v x (seen x t)),
        h',
      )

  search_from_lem :
      (fuel : ℕ) (list : List Bytes) (s : Search)
      → ((x : Bytes) → In x list → In x (ids_of edges))
      → s.path ≡ []
      → AllCycles s
      → unseen (ids_of edges) s.visited < fuel
      → Kept s (search_from fuel graph list s)
  unfolding search_from
  search_from_lem fuel [] s known p h l = (s, refl, refl, (λ x t. t), h)
  search_from_lem fuel (node ∷ list) s known p h l = elim (Bool-cases (has_text node s.visited)) [
    | inl t ↦ rw t (search_from_lem fuel list s (λ x i. known x (inr i)) p h l)
    | inr f ↦
        let (s₁, q₁, p₁, v₁, h₁) =
          dfs_lem fuel node s (known node (inl refl), (rw p tt, (h, (f, l)))) in
        let fewer = unseen_le (ids_of edges) s.visited s₁.visited v₁ in
        let (s₂, q₂, p₂, v₂, h₂) =
          search_from_lem fuel list s₁ (λ x i. known x (inr i)) (p₁ ∙ p) h₁ (omega arith) in
        rw (f, q₁) (s₂, q₂, p₂ ∙ p₁, (λ x t. v₂ x (v₁ x t)), h₂)
  ]

-- The search ends, when the hash map gives no keys but its own, and each list of ids that it reports
-- is a closed walk along the edges.
pub detect_cycles-IsCycle :
    (iteration : List Bytes → List Bytes)
    → ((keys : List Bytes) (x : Bytes) → In x (iteration keys) → In x keys)
    → (edges : List ObjectEdgeRow)
    → (cycles : List (List Bytes)) × (detect_cycles iteration edges ≡ ok cycles)
      × All (IsCycle edges) cycles
unfolding detect_cycles children_of
detect_cycles-IsCycle iteration own edges =
    let graph = add_edges edges [] in
    let edge_of : (p c : Bytes) → In c (children_of p graph) → IsEdge edges p c =
      λ p c i. elim (add_edges-In edges [] p c i) [ inl j ↦ absurd j | inr h ↦ h ] in
    let known : (x : Bytes) → In x (iteration (nodes graph)) → In x (ids_of edges) = λ x i.
      elim (add_edges-nodes edges [] x (own (nodes graph) x i)) [ inl j ↦ absurd j | inr h ↦ h ] in
    let few = unseen_none edges in
    let (s, q, p, v, h) =
      search_from_lem edges graph edge_of (2 * length edges + 1) (iteration (nodes graph))
        new_search known refl tt (omega arith) in
    (s.cycles, rw q refl, h)
