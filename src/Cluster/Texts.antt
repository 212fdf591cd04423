-- ===== src/Cluster/Texts.antt =====
-- C strings, as master.cpp and client.cpp take them from their arrays, and `getline` into one.
use http_decoder.Base.{
  ℕ, zero, suc, ◌-◌, Bool, true, false, [], ◌∷◌, Option, none, some, ◌==◌, if◌then◌else◌, Outcome,
  ok, fault, out_of_bounds, ◌>>=◌, Bytes,
}

abbrev pub is_empty : Bytes → Bool
is_empty [] = true
is_empty (c ∷ s) = false

-- a C string in a block: the bytes in front of the first NUL
unfoldable pub c_string : Bytes → Outcome Bytes
c_string [] = fault out_of_bounds
c_string (c ∷ s) = let rest = c_string s in if c == 0 then ok [] else (do t ← rest; ok (c ∷ t))

-- `sizeof(ip)`
abbrev pub ip_size : ℕ
ip_size = 1000

-- What `getline` stores, and what it leaves in the stream; nothing where `failbit` is set. The end
-- of the stream is looked for first, then the line feed, then the end of the room.
unfoldable pub line_in : ℕ → Bytes → Option (Bytes × Bytes)
line_in room [] = some ([], [])
line_in zero (c ∷ s) = if c == b'\n' then some ([], s) else none
line_in (suc room) (c ∷ s) =
    let more = line_in room s in
    if c == b'\n'
    then some ([], s)
    else elim more [ none ↦ none | some (text, rest) ↦ some (c ∷ text, rest) ]

-- `fin.getline(ip, sizeof(ip))`: `failbit` too where there is nothing left.
unfoldable pub getline : Bytes → Option (Bytes × Bytes)
getline s = if is_empty s then none else line_in (ip_size - 1) s
