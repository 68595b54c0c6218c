-- ===== src/Monitor.antt =====
-- The command line of kern/monitor.c: how runcmd takes it apart, in the memory of the line.
pub mod Words
use yu_os.Prelude.{
  ℕ, zero, suc, List, [], ◌∷◌, ◌++◌, Option, some, none, Bool, ◌==◌, ◌&&◌, ◌||◌, not, if◌then◌else◌,
  ◌+◌, update, ◌-◌,
}
use yu_os.Strings.{Bytes, strcmp}

abbrev pub maxargs : ℕ
maxargs = 16

-- `strchr(WHITESPACE, c)` for a `c` that is not 0
abbrev pub is_white : ℕ → Bool
is_white c = (c == 9) || (c == 13) || (c == 10)

-- `while (*buf && strchr(WHITESPACE, *buf)) *buf++ = 0;`; `none` is a loop that needs more rounds.
unfoldable pub gobble : ℕ → ℕ → Bytes → Option (ℕ × Bytes)
gobble zero buf mem = none
gobble (suc fuel) buf mem =
    let rest = gobble fuel (buf + 1) (update mem buf 0) in
    if not (mem buf == 0) && is_white (mem buf) then rest else some (buf, mem)

-- `while (*buf && !strchr(WHITESPACE, *buf)) buf++;`
unfoldable pub scan_past : ℕ → ℕ → Bytes → Option ℕ
scan_past zero buf mem = none
scan_past (suc fuel) buf mem =
    let rest = scan_past fuel (buf + 1) mem in
    if not (mem buf == 0) && not (is_white (mem buf)) then rest else some buf

-- The arguments and the line after the loop, or the message about too many of them
pub data Args : Type 0 where
  too_many : Args
  argv : List ℕ → Bytes → Args

-- What one more argument makes of the rest
abbrev pub with_arg : ℕ → Option Args → Option Args
with_arg buf none = none
with_arg buf (some too_many) = some too_many
with_arg buf (some (argv ps mem)) = some (argv (buf ∷ ps) mem)

-- After the argument at `start` has been passed; `next` is the rest of the loop.
abbrev pub go_on : (ℕ → Option Args) → ℕ → Option ℕ → Option Args
go_on next start none = none
go_on next start (some buf) = with_arg start (next buf)

-- The rest of a round behind the white space, with `left` arguments still to be taken
abbrev pub take_arg : (ℕ → Bytes → Option Args) → ℕ → ℕ → Option (ℕ × Bytes) → Option Args
take_arg next len left none = none
take_arg next len left (some (buf, mem)) =
    if mem buf == 0
    then some (argv [] mem)
    else if left == 0
    then some too_many
    else go_on (λ end. next end mem) buf (scan_past len buf mem)

-- The loop of `runcmd`; `len` is fuel for the two loops in it.
unfoldable pub parse_args : ℕ → ℕ → ℕ → ℕ → Bytes → Option Args
parse_args zero len left buf mem = none
parse_args (suc fuel) len left buf mem =
    take_arg (λ buf mem. parse_args fuel len (left - 1) buf mem) len left (gobble len buf mem)

-- What `runcmd` comes to: nothing to do, a message, or the command of that index with its arguments
pub data Command : Type 0 where
  nothing : Command
  complains : Command
  calls : ℕ → List ℕ → Bytes → Command
  unknown : ℕ → Command

-- The search in `commands`, by the addresses of the names from index `i` on
unfoldable pub look_up : ℕ → ℕ → List ℕ → ℕ → List ℕ → Bytes → Option Command
look_up fuel i [] arg args mem = some (unknown arg)
look_up fuel i (name ∷ names) arg args mem =
    let rest = look_up fuel (i + 1) names arg args mem in found (strcmp fuel arg name mem) rest
  where
    found : Option ℕ → Option Command → Option Command
    found none rest = none
    found (some diff) rest = if diff == 0 then some (calls i (arg ∷ args) mem) else rest

abbrev run_args : ℕ → List ℕ → Option Args → Option Command
run_args fuel names none = none
run_args fuel names (some too_many) = some complains
run_args fuel names (some (argv [] mem)) = some nothing
run_args fuel names (some (argv (arg ∷ args) mem)) = look_up fuel 0 names arg args mem

-- `names` are the names of the commands; `fuel` is enough for every loop over the line.
unfoldable pub runcmd : ℕ → List ℕ → ℕ → Bytes → Option Command
runcmd fuel names buf mem = run_args fuel names (parse_args fuel fuel (maxargs - 1) buf mem)
