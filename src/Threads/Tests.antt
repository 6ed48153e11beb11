-- ===== src/Threads/Tests.antt =====
-- Threads of model/dce-pthread.cc at concrete processes.
use ns_3_dce.Prelude.{
  ℕ, ◌≡◌, ◌≤◌, ◌<◌, if◌then◌else◌, true, false, none, some, List, [], ◌∷◌, arith, refl,
}
use ns_3_dce.ObjectTable.{find, store, erase}
use ns_3_dce.Threads.{
  KeyValue, Thread, Process, success, thread_exits, waits, pthread_self, joins, new_thread,
  search_thread, pthread_create, pthread_exit, pthread_join, join_again, pthread_to_pid,
  pthread_to_tid, pid_tid_to_pthread, on_process, put_thread, delete_thread, join_or_wait,
  allocate_pid, seek_pid, first_free, cleanup_calls, create_thread, allocate_tid, copied_keys,
  first_task,
}
use ns_3_dce.Threads.Values.{key_create, key_delete}
use ns_3_dce.Threads.Creating.{create_then_search}
use ns_3_dce.Threads.Joining.{join_and_exit_commute, awaited, exited}
use ns_3_dce.Threads.Machine.{stay, next, exits, awaited_thread_stays}
use ns_3_dce.Threads.Keys.{has, without, IsUniform, key_calls_agree}

abbrev main_thread : Thread
main_thread = new_thread 0 100 []

abbrev worker : Thread
worker = new_thread 1 101 []

abbrev two_threads : Process
two_threads = record { pid = 7; threads = main_thread ∷ worker ∷ [] }

abbrev node : List Process
node = two_threads ∷ []

-- The handle of the worker.
abbrev worker_handle : ℕ
worker_handle = 65543

abbrev held : List Process
held = record { pid = 7; threads = main_thread ∷ awaited 0 worker ∷ [] } ∷ []

abbrev done : List Process
done = record { pid = 7; threads = main_thread ∷ exited 5 worker ∷ [] } ∷ []

abbrev done_held : List Process
done_held = record { pid = 7; threads = main_thread ∷ exited 5 (awaited 0 worker) ∷ [] } ∷ []

abbrev left : List Process
left = record { pid = 7; threads = main_thread ∷ [] } ∷ []

join_and_exit_commute_example :
    ((qs : List Process) × (pthread_exit 7 1 5 node ≡ some (thread_exits [] none qs))
      × (pthread_join 7 0 worker_handle qs ≡ (joins 5, left)))
    × ((qs rs : List Process) × (pthread_join 7 0 worker_handle node ≡ (waits, qs))
        × (pthread_exit 7 1 5 qs ≡ some (thread_exits [] (some 0) rs))
        × (join_again 7 0 1 rs ≡ (joins 5, left)))
unfolding pthread_to_pid pthread_to_tid search_thread find new_thread cleanup_calls delete_thread
    on_process erase
join_and_exit_commute_example =
    join_and_exit_commute 7 0 5 worker_handle node worker refl (omega arith) refl
      (λ p e. ground arith) refl refl refl

awaited_thread_stays_example :
    (t : Thread) × (search_thread 7 1 done_held ≡ some t)
    × (t.join_waiter ≡ some 0)
    × ((join_again 7 0 1 done_held).0 ≡ (if t.has_exit_value then joins t.exit_value else waits))
unfolding pthread_to_pid pthread_to_tid search_thread find new_thread join_or_wait put_thread
    on_process store pthread_join pthread_exit cleanup_calls
awaited_thread_stays_example =
    awaited_thread_stays 7 0 worker_handle node held done_held refl
      (next held done_held done_held (exits 7 1 5 [] (some 0) held done_held refl) (stay done_held))

abbrev three : List Process
three = record { pid = 7; threads = main_thread ∷ worker ∷ new_thread 2 102 [] ∷ [] } ∷ []

create_then_search_example :
    (t : Thread) × (search_thread 7 2 three ≡ some t)
    × (search_thread 7 2 node ≡ none)
    × (t.is_detached ≡ false)
    × (t.has_exit_value ≡ false)
    × (t.join_waiter ≡ none)
    × (t.tid < 65536)
    × (pthread_self 7 t ≡ 131079)
unfolding pthread_create create_thread allocate_tid new_thread find first_free copied_keys
    first_task pid_tid_to_pthread on_process pthread_to_pid pthread_to_tid
create_then_search_example = create_then_search 102 7 131079 node three (omega arith) refl

abbrev key_two : KeyValue
key_two = record { key = 2; destructor = 9; value = 0 }

abbrev keyed : Thread
keyed = new_thread 0 100 (key_two ∷ [])

key_calls_agree_example :
    ((task : ℕ) (t : Thread) (q : Process)
      → create_thread task two_threads ≡ some (t, q)
      → IsUniform [] q.threads)
    × ((destructor k : ℕ) (q : Process)
        → key_create destructor main_thread two_threads ≡ (success, some k, q)
        → (has k [] ≡ false) × (2 ≤ k) × (k < 100000) × IsUniform (k ∷ []) q.threads)
    × ((k : ℕ)
        → has k [] ≡ true
        → (q : Process) × (key_delete k main_thread two_threads ≡ some (success, q))
          × IsUniform (without k []) q.threads)
unfolding new_thread
key_calls_agree_example =
    key_calls_agree [] main_thread two_threads (refl, (refl, tt)) refl (λ e. cc)

abbrev keyed_process : Process
keyed_process = record { pid = 7; threads = keyed ∷ new_thread 1 101 (key_two ∷ []) ∷ [] }

abbrev half_exited : Process
half_exited = record { pid = 7; threads = keyed ∷ exited 5 worker ∷ [] }

-- The pid after the last one is found from the start again.
pid_wraps : allocate_pid 65535 (record { pid = 65535; threads = [] } ∷ []) ≡ some (2, 3)
unfolding allocate_pid seek_pid find
pid_wraps = refl
