-- ===== src/Cilk2c/Container/Containees.antt =====
-- What waits in the containers of cilk2c/container.c, and who gets it.
use cilk.Common.{
  ℕ, ◌≡◌, refl, sym, subst, true, false, inl, inr, Bool-cases, Option, some, none, List, [], ◌∷◌,
  ◌++◌, Returns,
}
use cilk.Cilk2c.Container.{
  NodeType, switch_node, while_node, do_node, for_node, break_node, continue_node, case_node,
  default_node, other_node, Container, Containers, is_switch, option_map, add_case, add_exit,
  add_break, or_error, add_typed, add_containee,
}

-- a node that may leave a container of the type: a break, or a continue where it is a loop
abbrev pub IsExit : NodeType → NodeType → Type 0
IsExit t break_node = Unit
IsExit t continue_node = is_switch t ≡ false
IsExit t u = ⊥

abbrev pub IsLabel : NodeType → NodeType → Type 0
IsLabel t case_node = is_switch t ≡ true
IsLabel t default_node = is_switch t ≡ true
IsLabel t u = ⊥

module _ (type_of : ℕ → NodeType) where
  abbrev pub AllExits : NodeType → List ℕ → Type 0
  AllExits t [] = Unit
  AllExits t (c ∷ cs) = IsExit t (type_of c) × AllExits t cs

  abbrev pub AllLabels : NodeType → List ℕ → Type 0
  AllLabels t [] = Unit
  AllLabels t (c ∷ cs) = IsLabel t (type_of c) × AllLabels t cs

  -- what waits in each open container belongs there
  abbrev pub IsStack : List Container → Type 0
  IsStack [] = Unit
  IsStack (top ∷ rest) = AllExits top.typ top.exits × AllLabels top.typ top.cases × IsStack rest

  AllExits-snoc :
      (t : NodeType) (cs : List ℕ) (c : ℕ)
      → AllExits t cs
      → IsExit t (type_of c)
      → AllExits t (cs ++ (c ∷ []))
  AllExits-snoc t [] c a e = (e, tt)
  AllExits-snoc t (d ∷ cs) c (x, a) e = (x, AllExits-snoc t cs c a e)

  AllLabels-snoc :
      (t : NodeType) (cs : List ℕ) (c : ℕ)
      → AllLabels t cs
      → IsLabel t (type_of c)
      → AllLabels t (cs ++ (c ∷ []))
  AllLabels-snoc t [] c a e = (e, tt)
  AllLabels-snoc t (d ∷ cs) c (x, a) e = (x, AllLabels-snoc t cs c a e)

  -- the new stack, where there is one
  abbrev Kept : Option (List Container) → Type 0
  Kept none = Unit
  Kept (some l) = IsStack l

  Kept-later :
      (top : Container) (o : Option (List Container))
      → AllExits top.typ top.exits
      → AllLabels top.typ top.cases
      → Kept o
      → Kept (option_map (λ l. top ∷ l) o)
  Kept-later top none e c k = tt
  Kept-later top (some l) e c k = (e, c, k)

  Kept-add_case :
      (c : ℕ) (l : List Container)
      → ((t : NodeType) → is_switch t ≡ true → IsLabel t (type_of c))
      → IsStack l
      → Kept (add_case type_of c l)
  unfolding add_case
  Kept-add_case c [] h s = tt
  Kept-add_case c (top ∷ rest) h (e, ca, s) = elim (Bool-cases (is_switch top.typ)) [
    | inl t ↦ rw t (e, AllLabels-snoc top.typ top.cases c ca (h top.typ t), s)
    | inr t ↦ rw t (Kept-later top _ e ca (Kept-add_case c rest h s))
  ]

  Kept-add_exit :
      (c : ℕ) (l : List Container)
      → ((t : NodeType) → is_switch t ≡ false → IsExit t (type_of c))
      → IsStack l
      → Kept (add_exit type_of c l)
  unfolding add_exit
  Kept-add_exit c [] h s = tt
  Kept-add_exit c (top ∷ rest) h (e, ca, s) = elim (Bool-cases (is_switch top.typ)) [
    | inl t ↦ rw t (Kept-later top _ e ca (Kept-add_exit c rest h s))
    | inr t ↦ rw t (AllExits-snoc top.typ top.exits c e (h top.typ t), ca, s)
  ]

  Kept-add_break :
      (c : ℕ) (l : List Container)
      → ((t : NodeType) → IsExit t (type_of c))
      → IsStack l
      → Kept (add_break type_of c l)
  unfolding add_break
  Kept-add_break c [] h s = tt
  Kept-add_break c (top ∷ rest) h (e, ca, s) =
      (AllExits-snoc top.typ top.exits c e (h top.typ), ca, s)

  or_error-IsStack :
      (o : Option (List Container)) (s : Containers)
      → Kept o
      → IsStack s.stack
      → IsStack (or_error type_of o s).stack
  unfolding or_error
  or_error-IsStack none s k i = i
  or_error-IsStack (some l) s k i = k

  abbrev pub IsContainee : NodeType → Type 0
  IsContainee break_node = Unit
  IsContainee continue_node = Unit
  IsContainee case_node = Unit
  IsContainee default_node = Unit
  IsContainee t = ⊥

  add_typed-IsStack :
      (t : NodeType) (c : ℕ) (s : Containers)
      → type_of c ≡ t
      → IsContainee t
      → IsStack s.stack
      → Returns (add_typed type_of t c s) (λ r s'. IsStack s'.stack)
  unfolding add_typed
  add_typed-IsStack switch_node c s e k i = absurd k
  add_typed-IsStack while_node c s e k i = absurd k
  add_typed-IsStack do_node c s e k i = absurd k
  add_typed-IsStack for_node c s e k i = absurd k
  add_typed-IsStack other_node c s e k i = absurd k
  add_typed-IsStack case_node c s e k i =
      or_error-IsStack _ s (Kept-add_case c s.stack (λ t h. subst (IsLabel t) (sym e) h) i) i
  add_typed-IsStack default_node c s e k i =
      or_error-IsStack _ s (Kept-add_case c s.stack (λ t h. subst (IsLabel t) (sym e) h) i) i
  add_typed-IsStack continue_node c s e k i =
      or_error-IsStack _ s (Kept-add_exit c s.stack (λ t h. subst (IsExit t) (sym e) h) i) i
  add_typed-IsStack break_node c s e k i =
      or_error-IsStack _ s (Kept-add_break c s.stack (λ t. subst (IsExit t) (sym e) tt) i) i

  pub add_containee-IsStack :
      (c : ℕ) (s : Containers)
      → IsContainee (type_of c)
      → IsStack s.stack
      → Returns (add_containee type_of c s) (λ r s'. IsStack s'.stack)
  unfolding add_containee
  add_containee-IsStack c s k i = add_typed-IsStack (type_of c) c s refl k i
