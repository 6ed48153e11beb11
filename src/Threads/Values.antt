-- ===== src/Threads/Values.antt =====
-- The thread-specific values of model/dce-pthread.cc: `IsKeyValid` and the calls on keys.
use ns_3_dce.Prelude.{
  ℕ, Bool, true, not, ◌&&◌, Option, none, some, List, [], ◌∷◌, ◌++◌, map, if◌then◌else◌,
}
use ns_3_dce.ObjectTable.{find, store, erase}
use ns_3_dce.Threads.{
  KeyValue, Thread, Process, Code, success, eagain, einval, key_of, first_free, is_some,
}

-- The keys of the thread that calls.
unfoldable pub is_key_valid : ℕ → Thread → Bool
is_key_valid key current = is_some (find key_of key current.key_values)

unfoldable pub getspecific : ℕ → Thread → ℕ
getspecific key current = elim (find key_of key current.key_values) [ none ↦ 0 | some v ↦ v.value ]

unfoldable pub setspecific : ℕ → ℕ → Thread → Code × Thread
setspecific key value current = elim (find key_of key current.key_values) [
  | none ↦ (einval, current)
  | some v ↦ (
    success,
    record current { key_values = store key_of (record v { value = value }) current.key_values },
  )
]

unfoldable pub push_key : KeyValue → Thread → Thread
push_key v t = record t { key_values = t.key_values ++ v ∷ [] }

-- The least key from 2 on that the caller does not have, below the limit; all threads get it.
unfoldable pub key_create : ℕ → Thread → Process → Code × Option ℕ × Process
key_create destructor current p = elim (first_free (λ k. is_key_valid k current) 99998 2) [
  | none ↦ (eagain, none, p)
  | some k ↦ (
    success,
    some k,
    record p {
      threads = map (push_key (record { key = k; destructor = destructor; value = 0 })) p.threads;
    },
  )
]

unfoldable pub drop_key : ℕ → Thread → Thread
drop_key k t = record t { key_values = erase key_of k t.key_values }

-- Whether every thread has the key.
unfoldable pub all_have : ℕ → List Thread → Bool
all_have k [] = true
all_have k (t ∷ ts) = is_key_valid k t && all_have k ts

-- `none` is the failed assertion that each thread has the key.
unfoldable pub key_delete : ℕ → Thread → Process → Option (Code × Process)
key_delete k current p =
    if not (is_key_valid k current)
    then some (einval, p)
    else if all_have k p.threads
    then some (success, record p { threads = map (drop_key k) p.threads })
    else none
