-- ===== src/Cilk2c/Container/Attach.antt =====
-- The loops of PopContainer of cilk2c/container.c over the nodes that waited.
use cilk.Common.{
  ℕ, ◌≡◌, ◌⊎◌, refl, sym, ◌∙◌, ap, true, inl, inr, Bool-cases, List, [], ◌∷◌, ◌==◌, ==_eq, ==_true,
  update, update_self, update_ne, ok,
}
use cilk.Cilk2c.Container.{
  NodeType, switch_node, while_node, do_node, for_node, break_node, continue_node, case_node,
  default_node, other_node, Containers, is_switch, set_container, exit_one, exit_all, case_one,
  case_all, store_cases,
}
use cilk.Cilk2c.Container.Containees.{IsExit, IsLabel, AllExits, AllLabels}

-- the nodes have `n` for their container
abbrev pub AreIn : ℕ → (ℕ → ℕ) → List ℕ → Type 0
AreIn n f [] = Unit
AreIn n f (c ∷ cs) = (f c ≡ n) × AreIn n f cs

-- a node has `n`, or what it had
abbrev pub Moved : ℕ → (ℕ → ℕ) → (ℕ → ℕ) → Type 0
Moved n f g = (x : ℕ) → (g x ≡ n) ⊎ (g x ≡ f x)

pub record Attached (n : ℕ) (cs : List ℕ) (s s' : Containers) : Type 0 where
  pub inside : AreIn n s'.container cs
  pub moved : Moved n s.container s'.container
  pub stack : s'.stack ≡ s.stack

pub AreIn-Moved : (n : ℕ) (f g : ℕ → ℕ) (cs : List ℕ) → AreIn n f cs → Moved n f g → AreIn n g cs
AreIn-Moved n f g [] a m = tt
AreIn-Moved n f g (c ∷ cs) (e, a) m =
    (elim (m c) [ inl z ↦ z | inr z ↦ z ∙ e ], AreIn-Moved n f g cs a m)

-- the first node is attached, then the rest
pub attach_more :
    (n c : ℕ) (cs : List ℕ) (s s1 s2 : Containers)
    → s1.container ≡ update s.container c n
    → s1.stack ≡ s.stack
    → Attached n cs s1 s2
    → Attached n (c ∷ cs) s s2
attach_more n c cs s s1 s2 e st a = record {
  inside = (
    elim (a.moved c) [ inl z ↦ z | inr z ↦ z ∙ ap (λ f. f c) e ∙ update_self s.container c n ],
    a.inside,
  );
  moved = λ x. elim (a.moved x) [
    | inl z ↦ inl z
    | inr z ↦ elim (Bool-cases (c == x)) [
      | inl t ↦ inl (
          z
          ∙ ap (λ f. f x) e
          ∙ ap (update s.container c n) (sym (==_true t))
          ∙ update_self s.container c n)
      | inr t ↦ inr (z ∙ ap (λ f. f x) e ∙ update_ne s.container n (λ q. cc (t, ==_eq q)))
    ]
  ];
  stack = a.stack ∙ st;
}

module _ (type_of : ℕ → NodeType) where
  pub exit_one_lem :
      (t u : NodeType) (n c : ℕ) (s : Containers)
      → IsExit t u
      → exit_one type_of t u n c s ≡ ok tt (set_container c n s)
  unfolding exit_one
  exit_one_lem t break_node n c s e = refl
  exit_one_lem t continue_node n c s e = rw e refl
  exit_one_lem t switch_node n c s e = absurd e
  exit_one_lem t while_node n c s e = absurd e
  exit_one_lem t do_node n c s e = absurd e
  exit_one_lem t for_node n c s e = absurd e
  exit_one_lem t case_node n c s e = absurd e
  exit_one_lem t default_node n c s e = absurd e
  exit_one_lem t other_node n c s e = absurd e

  pub case_one_lem :
      (t u : NodeType) (n c : ℕ) (s : Containers)
      → IsLabel t u
      → (s' : Containers) × (case_one type_of t u n c s ≡ ok tt s')
        × (s'.container ≡ update s.container c n)
        × (s'.stack ≡ s.stack)
  unfolding case_one
  case_one_lem t case_node n c s e = (set_container c n s, rw e refl, refl, refl)
  case_one_lem t default_node n c s e = (
    record (set_container c n s) { has_default = update s.has_default n true },
    rw e refl,
    refl,
    refl,
  )
  case_one_lem t break_node n c s e = absurd e
  case_one_lem t continue_node n c s e = absurd e
  case_one_lem t switch_node n c s e = absurd e
  case_one_lem t while_node n c s e = absurd e
  case_one_lem t do_node n c s e = absurd e
  case_one_lem t for_node n c s e = absurd e
  case_one_lem t other_node n c s e = absurd e

  pub exit_all_lem :
      (t : NodeType) (n : ℕ) (cs : List ℕ) (s : Containers)
      → AllExits type_of t cs
      → (s' : Containers) × (exit_all type_of t n cs s ≡ ok tt s') × Attached n cs s s'
  unfolding exit_all
  exit_all_lem t n [] s a = (s, refl, record { inside = tt; moved = λ x. inr refl; stack = refl })
  exit_all_lem t n (c ∷ cs) s (e, a) =
      let s1 : Containers = set_container c n s in
      let (s2, f, b) = exit_all_lem t n cs s1 a in
      (s2, rw (exit_one_lem t (type_of c) n c s e) f, attach_more n c cs s s1 s2 refl refl b)

  pub case_all_lem :
      (t : NodeType) (n : ℕ) (cs : List ℕ) (s : Containers)
      → AllLabels type_of t cs
      → (s' : Containers) × (case_all type_of t n cs s ≡ ok tt s') × Attached n cs s s'
  unfolding case_all
  case_all_lem t n [] s a = (s, refl, record { inside = tt; moved = λ x. inr refl; stack = refl })
  case_all_lem t n (c ∷ cs) s (e, a) =
      let (s1, f1, g, k) = case_one_lem t (type_of c) n c s e in
      let (s2, f, b) = case_all_lem t n cs s1 a in (s2, rw f1 f, attach_more n c cs s s1 s2 g k b)

  pub stored :
      (t : NodeType) (n : ℕ) (cs : List ℕ) (s : Containers)
      → (s' : Containers) × (store_cases type_of t n cs s ≡ ok tt s') × (s'.container ≡ s.container)
  unfolding store_cases
  stored t n cs s = elim (Bool-cases (is_switch t)) [
    | inl e ↦ (record s { switch_cases = update s.switch_cases n cs }, rw e refl, refl)
    | inr e ↦ (s, rw e refl, refl)
  ]
