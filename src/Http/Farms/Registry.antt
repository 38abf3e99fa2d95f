-- ===== src/Http/Farms/Registry.antt =====
-- The table of farms in src/http/http_sync.cpp.
use ssyncd.Common.{ℕ, ◌≡◌, ◌⊎◌, refl, true, some, [], ◌∷◌, ◌++◌, arith, inl, if◌then◌else◌}
use ssyncd.Common.Bytes.{Bytes}
use ssyncd.Common.Ordered.{bytes_ordered, nat_ordered, ◌==◌}
use ssyncd.Common.Map.{Map, lookup}
use ssyncd.Common.SortedMap.{IsSorted, lookup-IsAbove}
use ssyncd.Http.Session.{HttpActionType, Indeterminate}
use ssyncd.Http.Farms.{HttpSync, find_farm, get_farm_fd, remove_farm}

-- A search that starts from `start` ends there or at a socket of the farm.
find_farm_start :
    (farm_name : Bytes) (start : ℕ) (m : Map ℕ Bytes)
    → IsSorted m
    → (find_farm farm_name start m ≡ start)
      ⊎ (lookup (find_farm farm_name start m) m ≡ some farm_name)
unfolding find_farm lookup
find_farm_start farm_name start [] s = inl refl
find_farm_start farm_name start ((j, n) ∷ m) (above, s) = ground (
  arith,
  find_farm_start farm_name (if n == farm_name then j else start) m s,
  bytes_ordered.eqb_iff n farm_name,
  nat_ordered.eqb_iff j (find_farm farm_name (if n == farm_name then j else start) m),
  lookup-IsAbove j m above,
)

find_farm_lem :
    (farm_name : Bytes) (start : ℕ) (m : Map ℕ Bytes) (fd : ℕ)
    → IsSorted m
    → lookup fd m ≡ some farm_name
    → lookup (find_farm farm_name start m) m ≡ some farm_name
unfolding find_farm lookup
find_farm_lem farm_name start [] fd s h = ground (arith, h)
find_farm_lem farm_name start ((j, n) ∷ m) fd (above, s) h = ground (
  arith,
  h,
  find_farm_start farm_name (if n == farm_name then j else start) m s,
  find_farm_lem farm_name (if n == farm_name then j else start) m fd s,
  bytes_ordered.eqb_iff n farm_name,
  nat_ordered.eqb_iff j fd,
  nat_ordered.eqb_iff j (find_farm farm_name (if n == farm_name then j else start) m),
  lookup-IsAbove j m above,
)

-- `get_farm_fd` answers 0 or a socket of the farm.
pub get_farm_fd-IsOf :
    (farm_name : Bytes) (s : HttpSync)
    → IsSorted s.farms_fd
    → (get_farm_fd farm_name s ≡ 0) ⊎ (lookup (get_farm_fd farm_name s) s.farms_fd ≡ some farm_name)
unfolding get_farm_fd
get_farm_fd-IsOf farm_name s sorted = find_farm_start farm_name 0 s.farms_fd sorted

-- Where a farm has a socket in the table, `get_farm_fd` answers a socket of that farm.
pub get_farm_fd-finds :
    (farm_name : Bytes) (s : HttpSync) (fd : ℕ)
    → IsSorted s.farms_fd
    → lookup fd s.farms_fd ≡ some farm_name
    → lookup (get_farm_fd farm_name s) s.farms_fd ≡ some farm_name
unfolding get_farm_fd
get_farm_fd-finds farm_name s fd sorted h = find_farm_lem farm_name 0 s.farms_fd fd sorted h

-- `remove_farm` closes the socket of the farm and queues a DISCONNECT for it, but the farm stays in
-- the table: where the call reports success, `get_farm_fd` answers the socket that was closed, and a
-- second call reports success again and closes that same socket once more.
pub remove_farm-remove_farm :
    (g : Indeterminate) (action : HttpActionType) (farm_name : Bytes) (s : HttpSync)
    → (remove_farm g action farm_name s).1 ≡ true
    → (get_farm_fd farm_name (remove_farm g action farm_name s).0 ≡ get_farm_fd farm_name s)
      × ((remove_farm g action farm_name (remove_farm g action farm_name s).0).1 ≡ true)
      × ((remove_farm g action farm_name (remove_farm g action farm_name s).0).0.closed
          ≡ (s.closed ++ (get_farm_fd farm_name s ∷ [])) ++ (get_farm_fd farm_name s ∷ []))
unfolding remove_farm get_farm_fd
remove_farm-remove_farm g action farm_name s h = ground (arith, h)
