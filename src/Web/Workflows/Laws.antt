-- ===== src/Web/Workflows/Laws.antt =====
-- apps/web/src/pages/Workflows.tsx: the order that the graph gives to a workflow's nodes.
use morphia.Common.{
  ℕ, zero, suc, ◌+◌, ◌≤◌, ◌<◌, String, ◌≡◌, refl, sym, ◌∙◌, ap, subst, Bool, true, false, not, ◌||◌,
  Bool-cases, Option-cases, inl, inr, Option, none, some, List, [], ◌∷◌, ◌++◌, any, filter, find,
  length, ◌==◌, arith, eq_iff, eq_refl, if◌then◌else◌, length-filter, filter-append, length-append,
  opt_map,
}
use morphia.Types.{WorkflowNode}
use morphia.Web.Workflows.{
  get_node, entry_node, seen, next_node, first_next, Walked, visit, walk, append_rest, linearize,
}

-- A node with the id is among the nodes.
abbrev pub declared : List WorkflowNode → String → Bool
declared nodes id = any (λ (n : WorkflowNode). n.id == id) nodes

-- The nodes that the loop has not visited.
unseen : List String → List WorkflowNode → List WorkflowNode
unfolding seen
unseen visited nodes = filter (λ (n : WorkflowNode). not (seen visited n.id)) nodes

seen-append :
    (visited : List String) (k id : String)
    → seen (visited ++ k ∷ []) id ≡ (seen visited id || k == id)
unfolding seen
seen-append [] k id = ground arith
seen-append (v ∷ vs) k id = ground (arith, seen-append vs k id)

unseen_le :
    (visited : List String) (k : String) (nodes : List WorkflowNode)
    → length (unseen (visited ++ k ∷ []) nodes) ≤ length (unseen visited nodes)
unfolding unseen
unseen_le visited k [] = omega arith
unseen_le visited k (n ∷ ns) = ground (arith, seen-append visited k n.id, unseen_le visited k ns)

unseen_all :
    (visited : List String) (nodes : List WorkflowNode)
    → length (unseen visited nodes) ≤ length nodes
unfolding unseen
unseen_all visited nodes = length-filter (λ (n : WorkflowNode). not (seen visited n.id)) nodes

-- Visiting a node that is declared and not seen leaves fewer.
unseen_lt :
    (visited : List String) (k : String) (nodes : List WorkflowNode)
    → declared nodes k ≡ true
    → seen visited k ≡ false
    → length (unseen (visited ++ k ∷ []) nodes) < length (unseen visited nodes)
unfolding unseen
unseen_lt visited k [] h new = cc
unseen_lt visited k (n ∷ ns) h new = elim (Bool-cases (n.id == k)) [
  | inl here ↦
      let e : n.id ≡ k = (eq_iff n.id k).0 here in
      rw (seen-append visited k n.id) (
        ground (
          arith,
          subst (λ i. seen visited i ≡ false) (sym e) new,
          subst (λ i. (k == i) ≡ true) (sym e) (eq_refl k),
          unseen_le visited k ns,
        ))
  | inr later ↦
      ground (arith, seen-append visited k n.id, unseen_lt visited k ns (rw later at h) new)
]

named : (m n : WorkflowNode) → some m ≡ some n → (m.id == n.id) ≡ true
named m n e =
    subst (λ (o : Option WorkflowNode). elim o [ none ↦ Unit {0} | some k ↦ (m.id == k.id) ≡ true ])
      e (eq_refl m.id)

get_node-declared :
    (id : String) (nodes : List WorkflowNode) {n : WorkflowNode}
    → get_node id nodes ≡ some n
    → declared nodes n.id ≡ true
unfolding get_node
get_node-declared id [] h = cc
get_node-declared id (m ∷ ms) {n = n} h = elim (Option-cases (get_node id ms)) [
  | inr (k, later) ↦ ground (arith, get_node-declared id ms {n = n} (later ∙ (rw later at h)))
  | inl missing ↦ elim (Bool-cases (m.id == id)) [
    | inl here ↦ ground (arith, named m n (rw (missing, here) at h))
    | inr other ↦
        (let no : Path (Option WorkflowNode) none (some n) = rw (missing, other) at h in cc)
  ]
]

find-declared :
    (p : WorkflowNode → Bool) (nodes : List WorkflowNode) {n : WorkflowNode}
    → find p nodes ≡ some n
    → declared nodes n.id ≡ true
find-declared p [] h = cc
find-declared p (m ∷ ms) {n = n} h = elim (Bool-cases (p m)) [
  | inl here ↦ ground (arith, named m n (rw here at h))
  | inr later ↦ ground (arith, find-declared p ms {n = n} (rw later at h))
]

abbrev IsDeclared : List WorkflowNode → Option WorkflowNode → Type 0
IsDeclared nodes none = Unit {0}
IsDeclared nodes (some n) = declared nodes n.id ≡ true

declared_of :
    (nodes : List WorkflowNode) (o : Option WorkflowNode)
    → ((n : WorkflowNode) → o ≡ some n → declared nodes n.id ≡ true)
    → IsDeclared nodes o
declared_of nodes none h = tt
declared_of nodes (some n) h = h n refl

-- What the loop goes on with is declared.
next_node-IsDeclared :
    (nodes : List WorkflowNode) (c : WorkflowNode) → IsDeclared nodes (next_node nodes c)
unfolding next_node first_next
next_node-IsDeclared nodes c = first_declared c.next
  where
    first_declared : (ks : List String) → IsDeclared nodes (first_next nodes ks)
    first_declared [] = tt
    first_declared (k ∷ ks) =
        declared_of nodes (get_node k nodes) (λ n e. get_node-declared k nodes e)

-- There is a result, and the property holds of it.
abbrev pub Yields {ℓ} : {A : Type ℓ} → Option A → (A → Type 0) → Type 0
Yields none P = ⊥
Yields (some a) P = P a

abbrev pub occurs : List WorkflowNode → String → ℕ
occurs nodes id = length (filter (λ (n : WorkflowNode). n.id == id) nodes)

occurs-append :
    (ms ns : List WorkflowNode) (id : String) → occurs (ms ++ ns) id ≡ occurs ms id + occurs ns id
occurs-append ms ns id =
    let p : WorkflowNode → Bool = λ n. n.id == id in
    rw (filter-append p ms ns) (length-append (filter p ms) (filter p ns))

occurs_of-declared :
    (nodes : List WorkflowNode) (id : String) → declared nodes id ≡ true → 1 ≤ occurs nodes id
occurs_of-declared [] id h = cc
occurs_of-declared (n ∷ ns) id h = elim (Bool-cases (n.id == id)) [
  | inl here ↦ rw here (omega arith)
  | inr later ↦ rw later (occurs_of-declared ns id (rw later at h))
]

-- What is appended after the loop.
occurs-unseen :
    (visited : List String) (nodes : List WorkflowNode) (id : String)
    → occurs (unseen visited nodes) id ≡ (if seen visited id then 0 else occurs nodes id)
unfolding unseen
occurs-unseen visited [] id = ground arith
occurs-unseen visited (n ∷ ns) id = elim (Bool-cases (n.id == id)) [
  | inl here ↦
      let e : n.id ≡ id = (eq_iff n.id id).0 here in
      ground (arith, here, ap (seen visited) e, occurs-unseen visited ns id)
  | inr other ↦ ground (arith, other, occurs-unseen visited ns id)
]

-- What the loop keeps true of an id: it was drawn once if it was visited and else not at all, and it is
-- drawn no more often than it is declared.
abbrev Kept : List WorkflowNode → String → Walked → Type 0
Kept nodes id w =
    (occurs w.ordered id ≡ (if seen w.visited id then 1 else 0))
    × (occurs w.ordered id ≤ occurs nodes id)

visit-Kept :
    (nodes : List WorkflowNode) (id : String) (c : WorkflowNode) (w : Walked)
    → declared nodes c.id ≡ true
    → seen w.visited c.id ≡ false
    → Kept nodes id w
    → Kept nodes id (visit c w)
unfolding visit
visit-Kept nodes id c w h new kept = elim (Bool-cases (c.id == id)) [
  | inl here ↦
      let e : c.id ≡ id = (eq_iff c.id id).0 here in
      let once : 1 ≤ occurs nodes id =
        occurs_of-declared nodes id (subst (λ i. declared nodes i ≡ true) e h) in
      let fresh : seen w.visited id ≡ false = subst (λ i. seen w.visited i ≡ false) e new in
      (
        rw (occurs-append w.ordered (c ∷ []) id, seen-append w.visited c.id id)
            (ground (arith, here, fresh, kept.0)),
        rw (occurs-append w.ordered (c ∷ []) id) (ground (arith, here, fresh, kept.0, once)),
      )
  | inr other ↦ (
    rw (occurs-append w.ordered (c ∷ []) id, seen-append w.visited c.id id)
        (ground (arith, other, kept.0)),
    rw (occurs-append w.ordered (c ∷ []) id) (ground (arith, other, kept.1)),
  )
]

-- With more fuel than nodes left, the loop ends.
walk-Kept :
    (fuel : ℕ) (nodes : List WorkflowNode) (id : String) (current : Option WorkflowNode)
    (w : Walked)
    → IsDeclared nodes current
    → length (unseen w.visited nodes) < fuel
    → Kept nodes id w
    → Yields (walk fuel nodes current w) (Kept nodes id)
unfolding walk visit
walk-Kept fuel nodes id none w h enough kept = kept
walk-Kept zero nodes id (some c) w h enough kept = omega (arith, enough)
walk-Kept (suc fuel) nodes id (some c) w h enough kept = elim (Bool-cases (seen w.visited c.id)) [
  | inl old ↦ rw (old, Yields, walk) kept
  | inr new ↦
      rw (new, Yields, walk)
        (walk-Kept fuel nodes id (next_node nodes c) (visit c w) (next_node-IsDeclared nodes c)
          (shrinks new) (visit-Kept nodes id c w h new kept))
]
  where
    shrinks : seen w.visited c.id ≡ false → length (unseen (visit c w).visited nodes) < fuel
    shrinks new = omega (arith, enough, unseen_lt w.visited c.id nodes h new)

append_rest-occurs :
    (nodes : List WorkflowNode) (id : String)
    → occurs nodes id ≤ 1
    → (w : Walked) → Kept nodes id w
    → occurs (append_rest nodes w) id ≡ occurs nodes id
unfolding append_rest unseen
append_rest-occurs nodes id single w kept =
    rw (occurs-append w.ordered (unseen w.visited nodes) id)
      (ground (arith, single, kept.0, kept.1, occurs-unseen w.visited nodes id))

entry_node-IsDeclared : (nodes : List WorkflowNode) → IsDeclared nodes (entry_node nodes)
unfolding entry_node
entry_node-IsDeclared nodes = declared_of nodes (entry_node nodes) (λ n e. find-declared _ nodes e)

Yields-map {ℓ κ} :
    {A : Type ℓ} {B : Type κ} (P : A → Type 0) (Q : B → Type 0) (f : A → B)
    → ((a : A) → P a → Q (f a))
    → (o : Option A) → Yields o P
    → Yields (opt_map f o) Q
Yields-map P Q f step none h = h
Yields-map P Q f step (some a) h = step a h

-- The loop ends on every graph, also one with cycles or missing nodes; and each id that is declared once is
-- drawn once, and one that is not declared is not drawn.
pub linearize-occurs :
    (nodes : List WorkflowNode) (id : String)
    → occurs nodes id ≤ 1
    → Yields (linearize nodes) (λ ordered. occurs ordered id ≡ occurs nodes id)
unfolding linearize
linearize-occurs nodes id single =
    let start : Walked = record { ordered = []; visited = [] } in
    Yields-map (Kept nodes id) (λ ordered. occurs ordered id ≡ occurs nodes id) (append_rest nodes)
      (append_rest-occurs nodes id single)
      (walk (suc (length nodes)) nodes (entry_node nodes) start)
      (walk-Kept (suc (length nodes)) nodes id (entry_node nodes) start
        (entry_node-IsDeclared nodes) (omega (arith, unseen_all [] nodes))
        (omega arith, omega arith))
