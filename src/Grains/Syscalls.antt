-- ===== src/Grains/Syscalls.antt =====
-- src/grains/syscalls.rs: the symbols of the kernel, and the measurement made of a system call.
pub mod Symbols
pub mod Own
use ingraind.Prelude.{
  ℕ, zero, suc, ◌+◌, ◌-◌, ◌*◌, ◌≡◌, ◌&&◌, ◌||◌, Text, chars, Option, none, some, List, [], ◌∷◌,
  ◌++◌, map, if◌then◌else◌, ◌==◌, nat_equality, text_equality, leb, split_once, lines, Run, Result,
  ok, err, ◌>>=◌, unwrap, try_map, get_elem?, bit_or,
}
use ingraind.Prelude.Maps.{Map, lookup, from_pairs}
use ingraind.Prelude.Number
use ingraind.Prelude.Number.{u64_max}
use ingraind.Float.{Float}
use ingraind.Backends.{Message, single}
use ingraind.Metrics
use ingraind.Metrics.Kind
use ingraind.Metrics.Units.{MeasureUnit}
use ingraind.Metrics.TagList
use ingraind.Grains.CString
use ingraind.Grains.CString.{Lossy}
use ingraind.Grains.Files.{find_map_by_name}
use ingraind.Probes.Bpf.{BpfMap}
use ingraind.Probes.Syscalls.{SyscallTracepoint}

abbrev pub KSyms : Type 0
KSyms = Map ℕ Text

-- `splitn(n, c)` for a positive number of parts
unfoldable pub splitn : ℕ → ℕ → Text → List Text
splitn zero c s = []
splitn (suc zero) c s = s ∷ []
splitn (suc (suc n)) c s = elim ((split_once c s).1) [
  | none ↦ (split_once c s).0 ∷ []
  | some rest ↦ (split_once c s).0 ∷ splitn (suc n) c rest
]

-- a digit of base 16
unfoldable pub hex_digit : ℕ → Option ℕ
hex_digit c =
    if leb b'0' c && leb c b'9'
    then some (c - b'0')
    else if leb b'a' c && leb c b'f'
    then some (c - 87)
    else if leb b'A' c && leb c b'F'
    then some (c - 55)
    else none

-- the number so far and the digits left, up to the largest `u64`
unfoldable pub hex_from : ℕ → Text → Option ℕ
unfolding hex_digit
hex_from n [] = some n
hex_from n (c ∷ cs) = elim (hex_digit c) [
  | none ↦ none
  | some d ↦ let rest = hex_from (n * 16 + d) cs in if leb (n * 16 + d) u64_max then rest else none
]

abbrev hex_digits : Text → Option ℕ
hex_digits [] = none
hex_digits (c ∷ cs) = hex_from 0 (c ∷ cs)

-- `u64::from_str_radix(s, 16)`: a `+` or none, and at least one digit
unfoldable pub from_hex : Text → Option ℕ
unfolding hex_from
from_hex [] = none
from_hex (c ∷ cs) = if c == b'+' then hex_digits cs else hex_digits (c ∷ cs)

-- the address and the name in a line
unfoldable pub symbol : Text → Run (ℕ × Text)
unfolding splitn from_hex
symbol l = do
  first ← unwrap (get_elem? (splitn 4 b' ' l) 0)
  address ← unwrap (from_hex first)
  name ← unwrap (get_elem? (splitn 4 b' ' l) 2)
  ok (address, name)

-- `parse_symbol_map` on the text of the file; a later line for an address replaces an earlier one
unfoldable pub parse_symbol_map : Text → Run KSyms
unfolding symbol
parse_symbol_map text = try_map symbol (lines text) >>= λ pairs. ok (from_pairs pairs)

-- the symbols and the opened map in the kernel
unfoldable pub prepared :
    {M N : Type 0}
    → (Text → Option Text)
    → (N → Option M)
    → Option Text
    → List (Text × N)
    → Run (KSyms × M)
unfolding parse_symbol_map find_map_by_name
prepared read_to_string open_map symbol_map maps = do
  let symfile : Text = elim symbol_map [ some path ↦ path | none ↦ chars "/proc/kallsyms" ]
  text ← unwrap (read_to_string symfile)
  ksyms ← parse_symbol_map text
  found ← find_map_by_name maps (chars "host_pid")
  m ← unwrap (open_map found)
  ok (ksyms, m)

-- `loaded`: the symbols, and the map with the process in it. `read_to_string` reads a file, `open_map`
-- is `BPFHashMap::new`, and `pid` the process.
unfoldable pub loaded :
    {M N : Type 0} ⦃host_pid : BpfMap ℕ ℕ M⦄
    → (Text → Option Text)
    → (N → Option M)
    → ℕ
    → Option Text
    → List (Text × N)
    → Run (KSyms × M)
unfolding prepared
loaded ⦃host_pid⦄ read_to_string open_map pid symbol_map maps =
    prepared read_to_string open_map symbol_map maps >>= λ p. ok (p.0, host_pid.set 1 pid p.1)

module _ ⦃lossy : Lossy⦄ {F : Type 0} ⦃fl : Float F⦄ where
  -- the callback of `get_handler`; an index that the symbols lack panics
  unfoldable pub handler : KSyms → ℕ → SyscallTracepoint → Run (Option (Message F))
  unfolding TagList.insert
  handler ksyms now event = unwrap (lookup event.syscall_nr ksyms) >>= λ syscall_name. ok (
      some (
        single (
          Metrics.new now (bit_or Kind.counter Kind.histogram) (chars "syscall.enter")
            (MeasureUnit.byte 1)
            (TagList.insert (chars "process_str") (CString.to_string event.comm) (
              TagList.insert (chars "process_id") (Number.to_string event.id)
                (TagList.insert (chars "syscall_str") syscall_name TagList.new))))))

-- The names that `attach` binds to, by the version of the kernel, on x86_64.
unfoldable pub bound_names : ℕ → List Text → List Text
bound_names version syscalls =
    map (λ syscall. (if leb 0x041100 version then chars "__x64_sys_" else chars "sys_") ++ syscall)
      syscalls
