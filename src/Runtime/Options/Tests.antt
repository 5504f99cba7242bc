-- ===== src/Runtime/Options/Tests.antt =====
-- Command lines of runtime/cmdline.c.
use cilk.Common.{◌-◌, ◌≡◌, refl, arith, List, [], ◌∷◌}
use cilk.Common.Int.{ℤ, pos}
use cilk.Runtime.Options.{
  Text, codes, Libc, default_options, optarray, text_eq, find_option, parse_option, after_dash,
  option_name, with_argument, check_option, is_positive, or_processors, at_least_8,
  to_unsigned_long, perform, accepted, consider, arch_specific_options, parse_loop, keep_program,
  parse_command_line,
}
use cilk.Runtime.Options.Bounds.{Leaves, parse_command_line-Leaves}

-- one decimal digit
abbrev digit : Text → ℤ
digit [] = pos 0
digit (c ∷ t) = pos (c - 48)

abbrev libc : Libc
libc = record { atoi = digit; atol = digit; processors = pos 4 }

abbrev line : List Text
line =
    codes "--alloc-batch"
    ∷ codes "3"
    ∷ codes "-nproc"
    ∷ codes "0"
    ∷ codes "--"
    ∷ codes "--stats"
    ∷ []

raised_batch :
    parse_command_line 7 libc (codes "fib" ∷ line)
    ≡ accepted
        (record default_options { alloc_batch_size = pos 8; nproc = pos 4 })
        (codes "fib" ∷ codes "--stats" ∷ [])
unfolding default_options optarray text_eq find_option parse_option after_dash option_name
    with_argument check_option is_positive or_processors at_least_8 to_unsigned_long perform
    consider arch_specific_options parse_loop keep_program parse_command_line
raised_batch = refl

parse_command_line-Leaves_example :
    Leaves (codes "fib") line (parse_command_line 7 libc (codes "fib" ∷ line))
parse_command_line-Leaves_example =
    parse_command_line-Leaves 7 libc (codes "fib") line (omega arith)
