-- ===== src/Cilk2c/Container/Tests.antt =====
-- A break and a continue in a while loop (cilk2c/container.c).
use cilk.Common.{ℕ, ◌≡◌, refl, List, [], ◌∷◌, false, Returns, ◌==◌, if◌then◌else◌}
use cilk.Cilk2c.Container.{
  NodeType, while_node, break_node, continue_node, other_node, Container, Containers,
  push_container, pop_container, add_containee, add_typed, add_break, add_exit, or_error,
}
use cilk.Cilk2c.Container.Attach.{AreIn}
use cilk.Cilk2c.Container.Pop.{Reach, no_container, pushed, added, pop_container-gives}

-- the loop is 1, the break 2, the continue 3
abbrev type_of : ℕ → NodeType
type_of n =
    if n == 1
    then while_node
    else if n == 2
    then break_node
    else if n == 3
    then continue_node
    else other_node

abbrev with_stack : List Container → Containers
with_stack l = record {
  stack = l;
  container = λ n. 0;
  has_default = λ n. false;
  switch_cases = λ n. [];
  syntax_errors = 0;
}

abbrev while_with : List ℕ → Container
while_with l = record { typ = while_node; cases = []; exits = l }

in_loop : Reach type_of 100 (with_stack (while_with (2 ∷ 3 ∷ []) ∷ []))
unfolding push_container add_containee add_typed add_break add_exit or_error
in_loop =
    added (with_stack (while_with (2 ∷ []) ∷ [])) (with_stack (while_with (2 ∷ 3 ∷ []) ∷ [])) 3
      (added (with_stack (while_with [] ∷ [])) (with_stack (while_with (2 ∷ []) ∷ [])) 2
        (pushed (with_stack []) (with_stack (while_with [] ∷ [])) while_node
          (no_container (with_stack []) refl) refl)
        tt refl)
      tt refl

pop_container-gives_example :
    Returns (pop_container type_of 1 (with_stack (while_with (2 ∷ 3 ∷ []) ∷ []))) (λ r s'.
      (r ≡ 1) × (s'.stack ≡ []) × AreIn 1 s'.container (2 ∷ 3 ∷ []) × AreIn 1 s'.container [])
pop_container-gives_example =
    pop_container-gives type_of 100 1 (while_with (2 ∷ 3 ∷ [])) []
      (with_stack (while_with (2 ∷ 3 ∷ []) ∷ [])) in_loop refl refl
