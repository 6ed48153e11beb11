-- ===== src/Poll/Tests.antt =====
-- `dce_poll` and `dce_select` of model/dce-poll.cc at concrete descriptors.
use ns_3_dce.Prelude.{
  ℕ, pos, ◌≡◌, Bool, true, false, none, some, List, [], ◌∷◌, ◌==◌, ◌||◌, refl, if◌then◌else◌,
}
use ns_3_dce.Poll.{
  Mask, no_events, PollFd, returns, poll_first, Sets, in_set, poll_fds, asked, select_result,
  is_set, any_bit, and_bits, restrict, select_refuses,
}
use ns_3_dce.Poll.Ready.{answers, count_ready, poll_first_lem}
use ns_3_dce.Poll.Selecting.{any_answer, select_result_lem}

abbrev input_only : Mask
input_only = record no_events { input = true }

abbrev output_only : Mask
output_only = record no_events { output = true }

abbrev hung : Mask
hung = record no_events { hung_up = true }

-- 3 has input, 4 was hung up, 5 does not exist.
abbrev exists : ℕ → Bool
exists fd = fd == 3 || fd == 4

abbrev poll_of : ℕ → Mask
poll_of fd = if fd == 3 then input_only else hung

abbrev three_fds : List PollFd
three_fds =
    record { fd = 3; events = input_only; revents = hung }
    ∷ record { fd = 4; events = output_only; revents = hung }
    ∷ record { fd = 5; events = input_only; revents = hung }
    ∷ []

poll_first_lem_example :
    ((poll_first exists poll_of none three_fds).1.fds
      ≡ record { fd = 3; events = input_only; revents = input_only }
        ∷ record { fd = 4; events = output_only; revents = hung }
        ∷ record { fd = 5; events = input_only; revents = no_events }
        ∷ [])
    × ((poll_first exists poll_of none three_fds).0 ≡ returns 2)
unfolding answers count_ready is_set restrict and_bits any_bit
poll_first_lem_example = poll_first_lem exists poll_of none three_fds

abbrev to_write : Sets
to_write = record {
  reads = some (λ fd. false);
  writes = some (λ fd. fd == 4);
  excepts = some (λ fd. false);
}

abbrev answered : List PollFd
answered = record { fd = 4; events = output_only; revents = hung } ∷ []

-- The descriptor 4 is only asked for output, and reported for input.
select_result_lem_example :
    (in_set (select_result 1 answered to_write).1.reads 4 ≡ true)
    × (in_set (select_result 1 answered to_write).1.writes 4 ≡ false)
    × (in_set (select_result 1 answered to_write).1.excepts 4 ≡ false)
unfolding any_answer
select_result_lem_example =
    select_result_lem 0 answered (λ fd. false) (λ fd. fd == 4) (λ fd. false) 4

select_asks :
    poll_fds exists to_write 5 0
    ≡ some (record { fd = 4; events = output_only; revents = no_events } ∷ [])
unfolding poll_fds asked is_set any_bit
select_asks = refl

missing_refused : poll_fds (λ fd. false) to_write 5 0 ≡ none
unfolding poll_fds asked is_set any_bit
missing_refused = refl

-- A call without a set is refused, also with a time.
no_sets_refused :
    select_refuses
      (pos 0)
      (record { reads = none; writes = none; excepts = none })
      (some (pos 1, pos 0))
    ≡ true
unfolding select_refuses
no_sets_refused = refl
