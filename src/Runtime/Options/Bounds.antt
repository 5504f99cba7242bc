-- ===== src/Runtime/Options/Bounds.antt =====
-- What Cilk_parse_command_line of runtime/cmdline.c leaves: options within their bounds, and the
-- arguments that are not its own.
use cilk.Common.{
  ℕ, zero, suc, ◌<◌, ◌≤◌, ◌≡◌, refl, sym, ◌∙◌, ap, arith, Bool, true, false, inl, inr, Bool-cases,
  none, some, List, [], ◌∷◌, ◌++◌, length, length-append,
}
use cilk.Common.Int.{ℤ, pos, ◌≤ℤ◌, leb_ℤ, le_of_leb_ℤ}
use cilk.Runtime.Options.{
  Text, OptionName, Options, Libc, default_options, Action, go_on, stop, arch_specific, refuse,
  with_argument, check_option, is_positive, or_processors, at_least_8, perform, option_name,
  parse_option, consider, Parsed, accepted, refused, exhausted, arch_specific_options, parse_loop,
  keep_program, parse_command_line,
}

pub record InBounds (o : Options) : Type 0 where
  pub nproc : pos 1 ≤ℤ o.nproc
  pub stackdepth : pos 1 ≤ℤ o.stackdepth
  pub pthread_stacksize : pos 0 ≤ℤ o.pthread_stacksize
  pub alloc_batch_size : pos 8 ≤ℤ o.alloc_batch_size

in_bounds :
    {o : Options}
    → pos 1 ≤ℤ o.nproc
    → pos 1 ≤ℤ o.stackdepth
    → pos 0 ≤ℤ o.pthread_stacksize
    → pos 8 ≤ℤ o.alloc_batch_size
    → InBounds o
in_bounds a b c d = record {
  nproc = a;
  stackdepth = b;
  pthread_stacksize = c;
  alloc_batch_size = d;
}

-- `rest` is what stands after some of the arguments
abbrev pub IsSuffix : List Text → List Text → Type 0
IsSuffix rest args = (taken : List Text) × (args ≡ taken ++ rest)

abbrev Fine : List Text → Action → Type 0
Fine args (go_on o rest) = InBounds o × IsSuffix rest args
Fine args (stop rest) = IsSuffix rest args
Fine args arch_specific = Unit
Fine args (refuse o) = Unit

Fine-check_option :
    (b : Bool) (o : Options) (rest args : List Text)
    → (b ≡ true → InBounds o)
    → IsSuffix rest args
    → Fine args (check_option b o rest)
unfolding check_option
Fine-check_option true o rest args h s = (h refl, s)
Fine-check_option false o rest args h s = tt

Fine-with_argument :
    (o : Options) (args : List Text) (k : Text → List Text → Action)
    → ((a : Text) (rest : List Text) → Fine (a ∷ rest) (k a rest))
    → Fine args (with_argument o args k)
unfolding with_argument
Fine-with_argument o [] k h = tt
Fine-with_argument o (a ∷ rest) k h = h a rest

is_positive_lem : (n : ℤ) → is_positive n ≡ true → pos 1 ≤ℤ n
unfolding is_positive
is_positive_lem n e = le_of_leb_ℤ (pos 1) n e

at_least_8_lem : (n : ℤ) → pos 8 ≤ℤ at_least_8 n
unfolding at_least_8
at_least_8_lem n = elim (Bool-cases (leb_ℤ (pos 8) n)) [
  | inl e ↦ rw e (le_of_leb_ℤ (pos 8) n e)
  | inr e ↦ rw e (omega arith)
]

after_one : (a : Text) (rest : List Text) → IsSuffix rest (a ∷ rest)
after_one a rest = (a ∷ [], refl)

Fine-perform :
    (c : Libc) (name : OptionName) (o : Options) (args : List Text)
    → InBounds o
    → Fine args (perform c name o args)
unfolding perform
Fine-perform c OptionName.no_option o args i = tt
Fine-perform c OptionName.nproc_option o args i = Fine-with_argument o args _ (λ a rest.
    Fine-check_option _ _ rest (a ∷ rest)
      (λ e.
        in_bounds (is_positive_lem (or_processors c (c.atoi a)) e) i.stackdepth i.pthread_stacksize
          i.alloc_batch_size)
      (after_one a rest))
Fine-perform c OptionName.stack o args i = Fine-with_argument o args _ (λ a rest.
    Fine-check_option _ _ rest (a ∷ rest)
      (λ e. in_bounds i.nproc (is_positive_lem (c.atoi a) e) i.pthread_stacksize i.alloc_batch_size)
      (after_one a rest))
Fine-perform c OptionName.pthread_stack o args i = Fine-with_argument o args _ (λ a rest.
    Fine-check_option _ _ rest (a ∷ rest)
      (λ e.
        let l = is_positive_lem (c.atoi a) e in
        in_bounds i.nproc i.stackdepth (omega (arith, l)) i.alloc_batch_size)
      (after_one a rest))
Fine-perform c OptionName.stats_option o args i = Fine-with_argument o args _ (λ a rest.
    (in_bounds i.nproc i.stackdepth i.pthread_stacksize i.alloc_batch_size, after_one a rest))
Fine-perform c OptionName.no_stats o args i =
    (in_bounds i.nproc i.stackdepth i.pthread_stacksize i.alloc_batch_size, ([], refl))
Fine-perform c OptionName.yield o args i =
    (in_bounds i.nproc i.stackdepth i.pthread_stacksize i.alloc_batch_size, ([], refl))
Fine-perform c OptionName.no_yield o args i =
    (in_bounds i.nproc i.stackdepth i.pthread_stacksize i.alloc_batch_size, ([], refl))
Fine-perform c OptionName.posix_locks o args i =
    (in_bounds i.nproc i.stackdepth i.pthread_stacksize i.alloc_batch_size, ([], refl))
Fine-perform c OptionName.memory_locks_option o args i =
    (in_bounds i.nproc i.stackdepth i.pthread_stacksize i.alloc_batch_size, ([], refl))
Fine-perform c OptionName.dump o args i =
    (in_bounds i.nproc i.stackdepth i.pthread_stacksize i.alloc_batch_size, ([], refl))
Fine-perform c OptionName.no_dump o args i =
    (in_bounds i.nproc i.stackdepth i.pthread_stacksize i.alloc_batch_size, ([], refl))
Fine-perform c OptionName.pinned_proc o args i = Fine-with_argument o args _ (λ a rest.
    (in_bounds i.nproc i.stackdepth i.pthread_stacksize i.alloc_batch_size, after_one a rest))
Fine-perform c OptionName.help o args i = tt
Fine-perform c OptionName.version o args i = tt
Fine-perform c OptionName.alloc_batch o args i = Fine-with_argument o args _ (λ a rest. (
  in_bounds i.nproc i.stackdepth i.pthread_stacksize (at_least_8_lem (c.atoi a)),
  after_one a rest,
))
Fine-perform c OptionName.infofile o args i = Fine-with_argument o args _ (λ a rest.
    (in_bounds i.nproc i.stackdepth i.pthread_stacksize i.alloc_batch_size, after_one a rest))
Fine-perform c OptionName.end_options o args i = ([], refl)

append_assoc : {A : Type 0} (xs ys zs : List A) → (xs ++ ys) ++ zs ≡ xs ++ (ys ++ zs)
append_assoc [] ys zs = refl
append_assoc (x ∷ xs) ys zs = ap (λ l. x ∷ l) (append_assoc xs ys zs)

IsSuffix-trans : (a : Text) (r s t : List Text) → IsSuffix r s → IsSuffix s t → IsSuffix r (a ∷ t)
IsSuffix-trans a r s t (xs, e) (ys, f) =
    (a ∷ (ys ++ xs), ap (λ l. a ∷ l) (f ∙ ap (λ l. ys ++ l) e ∙ sym (append_assoc ys xs r)))

length-IsSuffix : (s t : List Text) → IsSuffix s t → length s ≤ length t
length-IsSuffix s t (xs, e) = omega (arith, ap length e, length-append xs s)

Fine-consider :
    (c : Libc) (o : Options) (a : Text) (rest : List Text)
    → InBounds o
    → Fine rest (consider c o a rest)
unfolding consider
Fine-consider c o a rest i =
    elim (option_name a)
      as (λ n.
        Fine rest
          (elim n [ none ↦ arch_specific | some name ↦ perform c (parse_option name) o rest ])) [
            | none ↦ tt
            | some name ↦ Fine-perform c (parse_option name) o rest i
          ]

-- an accepted command line has options in their bounds and a rest of the arguments
abbrev pub IsParsed : List Text → Parsed → Type 0
IsParsed args (accepted o rest) = InBounds o × IsSuffix rest args
IsParsed args (refused o) = Unit
IsParsed args exhausted = ⊥

IsParsed-later :
    (a : Text) (s t : List Text) (p : Parsed) → IsParsed s p → IsSuffix s t → IsParsed (a ∷ t) p
IsParsed-later a s t (accepted o rest) (i, x) y = (i, IsSuffix-trans a rest s t x y)
IsParsed-later a s t (refused o) q y = tt
IsParsed-later a s t exhausted q y = q

IsParsed-loop :
    (fuel : ℕ) (c : Libc) (o : Options) (args : List Text)
    → length args < fuel
    → InBounds o
    → IsParsed args (parse_loop fuel c o args)
unfolding parse_loop arch_specific_options
IsParsed-loop zero c o args l i = absurd (omega arith)
IsParsed-loop (suc fuel) c o [] l i = (i, ([], refl))
IsParsed-loop (suc fuel) c o (a ∷ rest) l i =
    (elim (consider c o a rest)
        as (λ x.
          Fine rest x
          → IsParsed (a ∷ rest) (elim x [
            | go_on o' rest' ↦ parse_loop fuel c o' rest'
            | stop rest' ↦ accepted o rest'
            | arch_specific ↦ accepted o (arch_specific_options (a ∷ rest))
            | refuse o' ↦ refused o'
          ])) [
            | go_on o' rest' ↦ λ q.
                let (i', s) = q in
                IsParsed-later a rest' rest _
                  (IsParsed-loop fuel c o' rest' (omega (arith, l, length-IsSuffix rest' rest s))
                    i')
                  s
            | stop rest' ↦ λ s. (i, IsSuffix-trans a rest' rest' rest ([], refl) s)
            | arch_specific ↦ λ q. (i, ([], refl))
            | refuse o' ↦ λ q. tt
          ])
      (Fine-consider c o a rest i)

default_options-InBounds : InBounds default_options
unfolding default_options
default_options-InBounds = in_bounds (omega arith) (omega arith) (omega arith) (omega arith)

-- what is left of the command line: the program and a rest of the arguments
abbrev pub Leaves : Text → List Text → Parsed → Type 0
Leaves program args (accepted o []) = ⊥
Leaves program args (accepted o (a ∷ rest)) = InBounds o × (a ≡ program) × IsSuffix rest args
Leaves program args (refused o) = Unit
Leaves program args exhausted = ⊥

keep_program-Leaves :
    (program : Text) (args : List Text) (p : Parsed)
    → IsParsed args p
    → Leaves program args (keep_program program p)
unfolding keep_program
keep_program-Leaves program args (accepted o rest) (i, s) = (i, refl, s)
keep_program-Leaves program args (refused o) q = tt
keep_program-Leaves program args exhausted q = q

-- With more rounds than arguments, Cilk_parse_command_line comes to an end, whatever atoi, atol and
-- sysconf give. Where it returns 0, the number of processors and the stack depth are at least 1, the
-- stack size of the threads at least 0 and the batch at least 8, and what is left are the name of the
-- program and the arguments after some first ones.
pub parse_command_line-Leaves :
    (fuel : ℕ) (c : Libc) (program : Text) (args : List Text)
    → length args < fuel
    → Leaves program args (parse_command_line fuel c (program ∷ args))
unfolding parse_command_line
parse_command_line-Leaves fuel c program args l =
    keep_program-Leaves program args _
      (IsParsed-loop fuel c default_options args l default_options-InBounds)
