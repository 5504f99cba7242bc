-- ===== src/Runtime/Options.antt =====
-- The command line of a Cilk program: runtime/cmdline.c, built without CILK_ND, with
-- Cilk_arch_specific_options of runtime/sysdep.c. A text is the list of its characters.
pub mod Bounds
pub mod Tests
use cilk.Common.{
  ℕ, zero, suc, Bool, true, false, ◌&&◌, ◌-◌, ◌%◌, ◌^◌, Option, none, some, List, [], ◌∷◌, ◌==◌,
  if◌then◌else◌,
}
use cilk.Common.Int.{ℤ, pos, negsuc, leb_ℤ}
use Prim.Native.Char.{Char, code}
use Prim.Native.String.{String}

abbrev pub Text : Type 0
Text = List ℕ

abbrev pub codes : String → Text
codes String.[] = []
codes (String.◌∷◌ c s) = code c ∷ codes s

-- The enumeration of the options. No text names INFOFILE.
pub data OptionName : Type 0 where
  no_option nproc_option stats_option no_stats help stack yield no_yield : OptionName
  pthread_stack posix_locks memory_locks_option infofile dump no_dump : OptionName
  pinned_proc alloc_batch version end_options : OptionName

pub record Options : Type 0 where
  pub nproc : ℤ
  pub stackdepth : ℤ
  pub pthread_stacksize : ℤ
  pub statlevel : ℤ
  pub yieldslice : ℤ
  pub memory_locks : ℤ
  pub dump_core : ℤ
  pub alloc_batch_size : ℤ
  pub pinned_mask : ℕ
  pub infofile_name : Text

-- What the C library gives: atoi and atol of a text, and the processors that sysconf counts.
pub record Libc : Type 0 where
  pub atoi : Text → ℤ
  pub atol : Text → ℤ
  pub processors : ℤ

-- CILK_DEFAULT_OPTIONS
default_options : Options
default_options = record {
  nproc = pos 1;
  stackdepth = pos 32768;
  pthread_stacksize = pos 0;
  statlevel = pos 0;
  yieldslice = pos 0;
  memory_locks = pos 0;
  dump_core = pos 0;
  alloc_batch_size = pos 64;
  pinned_mask = 1024;
  infofile_name = codes "-";
}

optarray : List (Text × OptionName)
optarray =
    (codes "", end_options)
    ∷ (codes "nproc", nproc_option)
    ∷ (codes "stack", stack)
    ∷ (codes "pthread-stacksize", pthread_stack)
    ∷ (codes "stats", stats_option)
    ∷ (codes "no-stats", no_stats)
    ∷ (codes "alloc-batch", alloc_batch)
    ∷ (codes "yield", yield)
    ∷ (codes "no-yield", no_yield)
    ∷ (codes "with-posix-locks", posix_locks)
    ∷ (codes "with-memory-locks", memory_locks_option)
    ∷ (codes "dump-core", dump)
    ∷ (codes "no-dump-core", no_dump)
    ∷ (codes "pin-proc", pinned_proc)
    ∷ (codes "version", version)
    ∷ (codes "help", help)
    ∷ []

-- strcmp is 0
text_eq : Text → Text → Bool
text_eq [] [] = true
text_eq [] (d ∷ t) = false
text_eq (c ∷ s) [] = false
text_eq (c ∷ s) (d ∷ t) = (c == d) && text_eq s t

find_option : List (Text × OptionName) → Text → OptionName
find_option [] s = no_option
find_option ((t, o) ∷ rest) s = let later = find_option rest s in if text_eq s t then o else later

parse_option : Text → OptionName
parse_option s = find_option optarray s

after_dash : Text → Text
after_dash [] = []
after_dash (c ∷ t) = if c == b'-' then t else c ∷ t

-- the name of an option, with one dash or two; `none` is no option
option_name : Text → Option Text
option_name [] = none
option_name (c ∷ t) = if c == b'-' then some (after_dash t) else none

-- How one argument goes on: with the arguments after it, out of the loop, to the code of the
-- architecture, or with 1 as the result.
pub data Action : Type 0 where
  go_on : Options → List Text → Action
  stop : List Text → Action
  arch_specific : Action
  refuse : Options → Action

-- `++i; CHECK(i < *argc, "argument missing")`
with_argument : Options → List Text → (Text → List Text → Action) → Action
with_argument o [] k = refuse o
with_argument o (a ∷ rest) k = k a rest

-- CHECK
check_option : Bool → Options → List Text → Action
check_option true o rest = go_on o rest
check_option false o rest = refuse o

is_positive : ℤ → Bool
is_positive n = leb_ℤ (pos 1) n

-- `atoi` gave 0: the size of the machine
or_processors : Libc → ℤ → ℤ
or_processors c (pos n) = if n == 0 then c.processors else pos n
or_processors c (negsuc n) = negsuc n

at_least_8 : ℤ → ℤ
at_least_8 n = if leb_ℤ (pos 8) n then n else pos 8

-- the conversion to unsigned long
to_unsigned_long : ℤ → ℕ
to_unsigned_long (pos n) = n % 2 ^ 64
to_unsigned_long (negsuc n) = 2 ^ 64 - 1 - n % 2 ^ 64

perform : Libc → OptionName → Options → List Text → Action
perform c nproc_option o args = with_argument o args (λ a rest.
    let n = or_processors c (c.atoi a) in
    check_option (is_positive n) (record o { nproc = n }) rest)
perform c stack o args =
    with_argument o args (λ a rest.
      let n = c.atoi a in check_option (is_positive n) (record o { stackdepth = n }) rest)
perform c pthread_stack o args = with_argument o args (λ a rest.
    let n = c.atoi a in check_option (is_positive n) (record o { pthread_stacksize = n }) rest)
perform c stats_option o args =
    with_argument o args (λ a rest. go_on (record o { statlevel = c.atoi a }) rest)
perform c no_stats o args = go_on (record o { statlevel = pos 0 }) args
perform c yield o args = go_on (record o { yieldslice = pos 1 }) args
perform c no_yield o args = go_on (record o { yieldslice = pos 0 }) args
perform c posix_locks o args = go_on (record o { memory_locks = pos 0 }) args
perform c memory_locks_option o args = go_on (record o { memory_locks = pos 1 }) args
perform c dump o args = go_on (record o { dump_core = pos 1 }) args
perform c no_dump o args = go_on (record o { dump_core = pos 0 }) args
perform c pinned_proc o args =
    with_argument o args
      (λ a rest. go_on (record o { pinned_mask = to_unsigned_long (c.atol a) }) rest)
perform c help o args = refuse o
perform c version o args = refuse o
perform c alloc_batch o args =
    with_argument o args
      (λ a rest. go_on (record o { alloc_batch_size = at_least_8 (c.atoi a) }) rest)
perform c infofile o args =
    with_argument o args (λ a rest. go_on (record o { infofile_name = a }) rest)
perform c end_options o args = stop args
perform c no_option o args = arch_specific

-- `accepted`: 0, with the arguments that are left. `refused`: 1.
pub data Parsed : Type 0 where
  accepted : Options → List Text → Parsed
  refused : Options → Parsed
  exhausted : Parsed

-- Cilk_arch_specific_options looks at nothing
arch_specific_options : List Text → List Text
arch_specific_options args = args

consider : Libc → Options → Text → List Text → Action
consider c o a rest = elim (option_name a) [
  | none ↦ arch_specific
  | some name ↦ perform c (parse_option name) o rest
]

parse_loop : ℕ → Libc → Options → List Text → Parsed
parse_loop zero c o args = exhausted
parse_loop (suc fuel) c o [] = accepted o (arch_specific_options [])
parse_loop (suc fuel) c o (a ∷ rest) = elim (consider c o a rest) [
  | go_on o' rest' ↦ parse_loop fuel c o' rest'
  | stop rest' ↦ accepted o rest'
  | arch_specific ↦ accepted o (arch_specific_options (a ∷ rest))
  | refuse o' ↦ refused o'
]

-- the name of the program stays in front
keep_program : Text → Parsed → Parsed
keep_program program (accepted o args) = accepted o (program ∷ args)
keep_program program (refused o) = refused o
keep_program program exhausted = exhausted

pub parse_command_line : ℕ → Libc → List Text → Parsed
parse_command_line fuel c [] = accepted default_options []
parse_command_line fuel c (program ∷ args) =
    keep_program program (parse_loop fuel c default_options args)
