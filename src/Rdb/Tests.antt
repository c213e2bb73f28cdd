-- ===== src/Rdb/Tests.antt =====
-- Runs of the RDB primitives, and their theorems at concrete inputs.
use hayakv.Base.{◌≡◌, refl, Option, none, some, [], ◌∷◌, ◌++◌, arith, if◌then◌else◌}
use hayakv.Base.Int.{ℤ, negsuc}
use hayakv.Base.Classes.{Bytes, bytes_eq}
use hayakv.Rdb.{write_len, write_string, read_string}
use hayakv.Rdb.Strings.{read_string-write_string}

-- a parser that knows one literal, -5, and its printer
abbrev parse_one : Bytes → Option ℤ
parse_one s = if bytes_eq s (45 ∷ 53 ∷ []) then some (negsuc 4) else none

abbrev print_one : ℤ → Bytes
print_one v = 45 ∷ 53 ∷ []

compact : write_string parse_one print_one (45 ∷ 53 ∷ []) ≡ 192 ∷ 251 ∷ []
unfolding write_string bytes_eq
compact = refl

two_bytes : write_len 300 ≡ 65 ∷ 44 ∷ []
unfolding write_len
two_bytes = refl

read_string-write_string_example :
    read_string parse_one print_one (write_string parse_one print_one (45 ∷ 53 ∷ []) ++ (9 ∷ []))
    ≡ some (45 ∷ 53 ∷ [], 9 ∷ [])
read_string-write_string_example =
    read_string-write_string parse_one print_one (45 ∷ 53 ∷ []) (9 ∷ []) (omega arith)
