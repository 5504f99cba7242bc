-- ===== src/Cilk2c/Container/Pop.antt =====
-- PopContainer of cilk2c/container.c gives the node to all that waited for it.
use cilk.Common.{
  ℕ, ◌≡◌, refl, sym, ap, subst, inl, inr, Bool-cases, List, [], ◌∷◌, length, ◌==◌, ==_eq, ok,
  Returns, Safe,
}
use cilk.Cilk2c.Container.{
  NodeType, Container, Containers, type_code, pop_top, pop_of, push_container, pop_container,
  add_containee,
}
use cilk.Cilk2c.Container.Containees.{
  AllExits, AllLabels, IsStack, IsContainee, add_containee-IsStack,
}
use cilk.Cilk2c.Container.Attach.{AreIn, AreIn-Moved, exit_all_lem, case_all_lem, stored}

module _ (type_of : ℕ → NodeType) where
  pop_top_lem :
      (top : Container) (l : List Container) (n : ℕ) (s : Containers)
      → type_of n ≡ top.typ
      → AllExits type_of top.typ top.exits
      → AllLabels type_of top.typ top.cases
      → Returns (pop_top type_of top l n s) (λ r s'.
        (r ≡ n) × (s'.stack ≡ l) × AreIn n s'.container top.exits × AreIn n s'.container top.cases)
  unfolding pop_top
  pop_top_lem top l n s q e ca =
      let (s1, f1, a1) =
        exit_all_lem type_of (type_of n) n top.exits s
          (subst (λ t. AllExits type_of t top.exits) (sym q) e) in
      let (s2, f2, a2) =
        case_all_lem type_of (type_of n) n top.cases s1
          (subst (λ t. AllLabels type_of t top.cases) (sym q) ca) in
      let (s3, f3, g) = stored type_of (type_of n) n top.cases s2 in
      rw (==_eq (ap type_code q)) (
        rw f1 (
          rw f2 (
            rw f3 (
              refl,
              refl,
              subst (λ f. AreIn n f top.exits) (sym g)
                  (AreIn-Moved n s1.container s2.container top.exits a1.inside a2.moved),
              subst (λ f. AreIn n f top.cases) (sym g) a2.inside,
            ))))

  -- what the parser does with the containers, where every pop is of a node of the type on top
  pub data Reach (depth : ℕ) : Containers → Type 0 where
    no_container : (s : Containers) → s.stack ≡ [] → Reach depth s
    pushed :
        (s s' : Containers) (t : NodeType)
        → Reach depth s
        → push_container depth t s ≡ ok tt s'
        → Reach depth s'
    added :
        (s s' : Containers) (c : ℕ)
        → Reach depth s
        → IsContainee type_of (type_of c)
        → add_containee type_of c s ≡ ok c s'
        → Reach depth s'
    popped :
        (s s' : Containers) (n : ℕ) (top : Container) (l : List Container)
        → Reach depth s
        → s.stack ≡ top ∷ l
        → type_of n ≡ top.typ
        → pop_container type_of n s ≡ ok n s'
        → Reach depth s'

  -- the result of PopContainer
  abbrev pub Popped : ℕ → Container → List Container → ℕ → Containers → Type 0
  Popped n top l r s' =
      (r ≡ n) × (s'.stack ≡ l) × AreIn n s'.container top.exits × AreIn n s'.container top.cases

  pop_lem :
      (n : ℕ) (top : Container) (l : List Container) (s : Containers)
      → s.stack ≡ top ∷ l
      → IsStack type_of s.stack
      → type_of n ≡ top.typ
      → Returns (pop_container type_of n s) (Popped n top l)
  unfolding pop_container
  pop_lem n top l s e i q =
      let (x, y, z) = subst (IsStack type_of) e i in
      subst (λ w. Returns w (Popped n top l)) (sym (ap (λ k. pop_of type_of k n s) e))
        (pop_top_lem top l n s q x y)

  push-IsStack :
      (depth : ℕ) (t : NodeType) (s : Containers)
      → IsStack type_of s.stack
      → Safe (push_container depth t s) (λ r s'. IsStack type_of s'.stack)
  unfolding push_container
  push-IsStack depth t s i = elim (Bool-cases (length s.stack == depth)) [
    | inl e ↦ rw e tt
    | inr e ↦ rw e (tt, tt, i)
  ]

  reach-IsStack : {depth : ℕ} {s : Containers} → Reach depth s → IsStack type_of s.stack
  reach-IsStack (no_container s e) = subst (IsStack type_of) (sym e) tt
  reach-IsStack {depth} (pushed s s' t r e) =
      subst (λ x. Safe x (λ a g. IsStack type_of g.stack)) e
        (push-IsStack depth t s (reach-IsStack r))
  reach-IsStack (added s s' c r k e) =
      subst (λ x. Returns x (λ a g. IsStack type_of g.stack)) e
        (add_containee-IsStack type_of c s k (reach-IsStack r))
  reach-IsStack (popped s s' n top l r e q f) =
      let i = reach-IsStack r in
      let (x, y, z) = subst (IsStack type_of) e i in
      let (a, st, b, c) = subst (λ w. Returns w (Popped n top l)) f (pop_lem n top l s e i q) in
      subst (IsStack type_of) (sym st) z

-- In every state that the parser reaches by pushes, by breaks, continues, cases and defaults, and by pops
-- of a node of the type on top of the stack, such a pop ends with no failed assertion. It takes the top
-- off the stack, and the node becomes the container of all nodes that waited there.
pub pop_container-gives :
    (type_of : ℕ → NodeType) (depth n : ℕ) (top : Container) (l : List Container) (s : Containers)
    → Reach type_of depth s
    → s.stack ≡ top ∷ l
    → type_of n ≡ top.typ
    → Returns (pop_container type_of n s) (λ r s'.
      (r ≡ n) × (s'.stack ≡ l) × AreIn n s'.container top.exits × AreIn n s'.container top.cases)
pop_container-gives type_of depth n top l s r e q =
    pop_lem type_of n top l s e (reach-IsStack type_of r) q
