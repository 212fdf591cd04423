-- ===== src/Tests/Buffers.antt =====
-- Buffer.cpp, the session's reset and the header map on small contents.
use http_decoder.Base.{
  ◌-◌, ◌^◌, ◌≡◌, ◌≤◌, ◌⊎◌, refl, arith, false, [], ◌∷◌, none, some, ok, fault, out_of_bounds, Bytes,
  Heap, codes, equal,
}
use http_decoder.Buffer.{append}
use http_decoder.Buffer.Append.{Appends, append-Appends, append_negative}
use http_decoder.Public.Headers.{HeaderMap, less, insert}
use http_decoder.Tests.Setting.{zeroed, zeroed-Sized, filled, filled-IsValid, request}

abbrev hello : Bytes
hello = codes "hello"

append-Appends_example :
    ((zeroed 30 ≡ none)
      × (2024 ≤ 5)
      × (append zeroed (filled request) (some hello) 5 ≡ ok (filled request, false)))
    ⊎ Appends (filled request) hello (append zeroed (filled request) (some hello) 5)
append-Appends_example =
    append-Appends zeroed hello 5 zeroed-Sized (filled-IsValid request (omega arith)) (omega arith)
      (omega arith)

-- An allocator that has a little block for every size.
abbrev sparing : Heap
sparing n = some []

append_negative_example :
    append sparing (filled request) (some hello) (2 ^ 64 - 3) ≡ fault out_of_bounds
append_negative_example =
    append_negative sparing hello [] 3 (filled-IsValid request (omega arith)) (omega arith)
      (omega arith) (omega arith) refl

abbrev two_headers : HeaderMap
two_headers = (codes "Date", codes "x") ∷ (codes "Server", codes "y") ∷ []

-- The new key goes between the two.
between :
    insert (codes "Host") (codes "b") two_headers
    ≡ (codes "Date", codes "x") ∷ (codes "Host", codes "b") ∷ (codes "Server", codes "y") ∷ []
unfolding insert less equal
between = refl
