-- ===== src/Signals/Tests.antt =====
-- Signals of model/dce-signal.cc at concrete sets.
use ns_3_dce.Prelude.{◌≡◌, true, false, [], ◌∷◌, update, count}
use ns_3_dce.Threads.{Thread, new_thread}
use ns_3_dce.Signals.{SigSet, empty_set, Action, SignalHandler, Pending, do_signal, is_masked}
use ns_3_dce.Signals.Delivery.{signals, is_handled, do_signal_lem}

abbrev on_usr1 : SignalHandler
on_usr1 = record { signal = 10; flags = 0; mask = empty_set; handler = 77; sigaction = 0 }

abbrev new_action : Action
new_action = record { call = 88; mask = empty_set; flags = 4 }

abbrev all_set : SigSet
all_set s = true

abbrev usr1_sent : Pending
usr1_sent = record { of_thread = empty_set; of_process = update empty_set 10 true }

do_signal_lem_example :
    let (calls, q) = do_signal empty_set (on_usr1 ∷ []) usr1_sent in
    (count 10 (signals calls) ≡ 1) × (q.of_thread 10 ≡ false) × (q.of_process 10 ≡ false)
unfolding is_handled is_masked
do_signal_lem_example = do_signal_lem empty_set (on_usr1 ∷ []) usr1_sent 10

abbrev blocked_thread : Thread
blocked_thread = new_thread 1 101 []
