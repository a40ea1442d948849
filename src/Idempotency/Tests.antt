-- ===== src/Idempotency/Tests.antt =====
-- Runs of the memory cache, and the theorems at concrete inputs.
use inc_trade.Prelude.{
  ℕ, ◌≤◌, ◌≡◌, refl, true, false, none, some, List, [], ◌∷◌, remove, arith, ℕ_discrete,
}
use inc_trade.Prelude.Dict.{insert, erase}
use inc_trade.Idempotency.MemoryCache.{
  CacheEntry, MemoryCache, empty_cache, is_expired, evict_loop, evict_if_needed,
  update_access_order, drop, get, put, delete, holds, drop_all, expired_keys, cleanup_expired, Call,
  gets, puts, step, run,
}
use inc_trade.Idempotency.MemoryCache.Valid.{IsOrdered, run-IsOrdered}
use inc_trade.Idempotency.MemoryCache.Agrees.{tell_all, get-latest}
use inc_trade.Prelude.Result.{ok, err}
use inc_trade.Idempotency.Service
use inc_trade.Idempotency.Service.{Backend, IdempotencyService, new_service, recover, ask_fallback}
use inc_trade.Idempotency.Service.Memory.{
  memory_backend, Reading, gets_again, asks, read_all, memory-get-put,
}

-- Two entries, the first used last.
abbrev calls : List (Call ℕ ℕ)
calls = puts 100 1 11 none ∷ puts 101 2 22 (some 5) ∷ gets 102 1 ∷ []

abbrev room_for : ℕ → MemoryCache ℕ ℕ
room_for n = run ℕ_discrete calls (empty_cache 10 n)

run-IsOrdered_example : IsOrdered ℕ_discrete (room_for 1)
run-IsOrdered_example = run-IsOrdered ℕ_discrete calls 10 1

valid : (n : ℕ) → IsOrdered ℕ_discrete (room_for n)
valid n = run-IsOrdered ℕ_discrete calls 10 n

cache_test :
    ((room_for 1).access_order ≡ 2 ∷ 1 ∷ [])
    × ((get ℕ_discrete 106 2 (room_for 1)).1 ≡ some 22)
    × ((get ℕ_discrete 107 2 (room_for 1)).1 ≡ none)
    × ((delete ℕ_discrete 2 (room_for 1)).1 ≡ true)
    × ((holds ℕ_discrete 111 1 (room_for 1)).1 ≡ false)
    × ((cleanup_expired ℕ_discrete (λ k. 107) (room_for 1)).1 ≡ 1)
unfolding run step put get evict_if_needed evict_loop update_access_order insert erase remove
    ℕ_discrete empty_cache is_expired delete holds cleanup_expired expired_keys drop_all drop
cache_test = (refl, refl, refl, refl, refl, refl)

found : (get ℕ_discrete 103 2 (room_for 1)).1 ≡ some 22
unfolding run step put get evict_if_needed evict_loop update_access_order insert erase remove
    ℕ_discrete empty_cache is_expired
found = refl

get-latest_example :
    (e : CacheEntry ℕ) × (tell_all ℕ_discrete 10 calls (λ j. none) 2 ≡ some e)
    × (e.value ≡ 22)
    × (103 ≤ e.expires_at)
get-latest_example = get-latest ℕ_discrete calls 10 1 103 2 22 found

-- A backend that always raises, and a service with one backend of either kind.
abbrev down : Backend (MemoryCache ℕ ℕ) ℕ ℕ ℕ
down = record {
  fetch = λ k c. (c, err 1);
  store = λ k v ttl c. (c, err 1);
  remove = λ k c. (c, err 1);
  holds = λ k c. (c, err 1);
  clear = λ c. (c, err 1);
  clean_up = λ c. (c, err 1);
}

abbrev up : ℕ → Backend (MemoryCache ℕ ℕ) ℕ ℕ ℕ
up now = memory_backend ℕ_discrete now

abbrev service : IdempotencyService (MemoryCache ℕ ℕ) (MemoryCache ℕ ℕ)
service = new_service (empty_cache 10 5) (some (room_for 5)) 10 true

service_test :
    ((Service.get (up 103) (up 103) 1 service).1 ≡ some 11)
    × ((Service.get down (up 103) 1 service).1 ≡ some 11)
    × ((Service.get (up 103) down 1 service).0.metrics.primary_failures ≡ 1)
    × ((Service.delete (up 103) (up 103) 1 service).1 ≡ true)
    × ((Service.contains (up 103) down 1 service).1 ≡ false)
unfolding Service.get ask_fallback recover Service.delete Service.contains new_service
    memory_backend run step put get evict_if_needed evict_loop update_access_order insert erase
    remove ℕ_discrete empty_cache is_expired delete holds drop
service_test = (refl, refl, refl, refl, refl)

-- A reading of the key, and one of a key that is gone by then.
abbrev readings : List (Reading (MemoryCache ℕ ℕ) ℕ ℕ ℕ)
readings = gets_again 105 down ∷ asks 107 (up 107) 1 ∷ []

memory-get-put_example :
    let (after, result) = Service.put (up 100) (up 100) 3 33 none service in
    (result ≡ ok tt)
    × ((Service.get (up 108) down 3 (read_all ℕ_discrete 3 readings after)).1 ≡ some 33)
unfolding new_service
memory-get-put_example =
    memory-get-put ℕ_discrete (up 100) down 100 108 3 33 none readings service (omega arith)
      (omega arith, omega arith)
