-- ===== src/Cluster/HostMap.antt =====
-- The map of hosts that `caf_main` of master.cpp fills.
use http_decoder.Base.{
  ℕ, ◌+◌, List, [], ◌∷◌, Option, none, some, ◌≡◌, refl, arith, if◌then◌else◌, Bytes, equal,
  equal_iff,
}
use http_decoder.Cluster.Launch.{add_host}
use http_decoder.Public.Headers.{StringMap, lookup, lookup-insert, IsSorted, insert-IsSorted}

-- the place of the first line that is `k`
abbrev pub first_index : ℕ → Bytes → List Bytes → Option ℕ
first_index a k [] = none
first_index a k (line ∷ lines) =
    let rest = first_index (a + 1) k lines in if equal line k then some a else rest

unfoldable pub added : ℕ → List Bytes → StringMap ℕ → StringMap ℕ
added a [] m = m
added a (line ∷ lines) m = added (a + 1) lines (add_host line a m)

abbrev or_else : Option ℕ → Option ℕ → Option ℕ
or_else none y = y
or_else (some a) y = some a

lookup-add_host :
    (ip k : Bytes) (a : ℕ) (m : StringMap ℕ)
    → lookup k (add_host ip a m) ≡ or_else (lookup k m) (if equal ip k then some a else none)
unfolding add_host
lookup-add_host ip k a m = by_state (lookup ip m) refl
  where
    by_state :
        (o : Option ℕ)
        → lookup ip m ≡ o
        → lookup k (add_host ip a m) ≡ or_else (lookup k m) (if equal ip k then some a else none)
    by_state none e = rw (e, add_host) (ground (arith, lookup-insert ip k a m, equal_iff ip k))
    by_state (some b) e = rw (e, add_host) (ground (arith, equal_iff ip k))

pub lookup-added :
    (a : ℕ) (k : Bytes) (lines : List Bytes) (m : StringMap ℕ)
    → lookup k (added a lines m) ≡ or_else (lookup k m) (first_index a k lines)
unfolding added
lookup-added a k [] m = ground arith
lookup-added a k (line ∷ lines) m =
    ground (arith, lookup-added (a + 1) k lines (add_host line a m), lookup-add_host line k a m)

add_host-IsSorted : (ip : Bytes) (a : ℕ) (m : StringMap ℕ) → IsSorted m → IsSorted (add_host ip a m)
unfolding add_host
add_host-IsSorted ip a m s = by_state (lookup ip m) refl
  where
    by_state : (o : Option ℕ) → lookup ip m ≡ o → IsSorted (add_host ip a m)
    by_state none e = rw (e, add_host) (insert-IsSorted ip a m s)
    by_state (some b) e = rw (e, add_host) s

pub added-IsSorted :
    (a : ℕ) (lines : List Bytes) (m : StringMap ℕ) → IsSorted m → IsSorted (added a lines m)
unfolding added
added-IsSorted a [] m s = s
added-IsSorted a (line ∷ lines) m s =
    added-IsSorted (a + 1) lines (add_host line a m) (add_host-IsSorted line a m s)
