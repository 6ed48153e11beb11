-- ===== src/Poll/Ready.antt =====
-- `dce_poll` of model/dce-poll.cc.
use ns_3_dce.Prelude.{
  ℕ, suc, ◌+◌, ◌-◌, ◌≡◌, Bool, true, not, ◌&&◌, Option, none, some, List, [], ◌∷◌, ◌==◌, arith,
  if◌then◌else◌, ltb, count, refl, inl, inr, ap, Bool-cases,
}
use ns_3_dce.Poll.{
  Mask, no_events, is_set, restrict, PollFd, clear_revents, scan, returns, advances, any_bit,
  and_bits, waits_forever, waits_for, poll_pass, poll_first, member, keys_of, add_uses, drop_uses,
  uses_after,
}

module _ (exists : ℕ → Bool) (poll_of : ℕ → Mask) where
  -- The events of a descriptor that a call answers with.
  abbrev pub answer : PollFd → Mask
  answer f =
      if exists f.fd
      then record {
        input = (poll_of f.fd).input && f.events.input;
        output = (poll_of f.fd).output && f.events.output;
        urgent = (poll_of f.fd).urgent && f.events.urgent;
        failed = (poll_of f.fd).failed;
        hung_up = (poll_of f.fd).hung_up;
        others = and_bits (poll_of f.fd).others f.events.others;
      }
      else no_events

  unfoldable pub answers : List PollFd → List PollFd
  answers [] = []
  answers (f ∷ fs) = record f { revents = answer f } ∷ answers fs

  unfoldable pub count_ready : List PollFd → ℕ
  count_ready [] = 0
  count_ready (f ∷ fs) = if is_set (answer f) then suc (count_ready fs) else count_ready fs

  scan-clear :
      (table : Bool) (fs : List PollFd)
      → ((scan exists poll_of table (clear_revents fs)).count ≡ count_ready fs)
        × ((scan exists poll_of table (clear_revents fs)).fds ≡ answers fs)
  unfolding scan clear_revents count_ready answers is_set restrict any_bit
  scan-clear table [] = (refl, refl)
  scan-clear table (f ∷ fs) = elim (Bool-cases (exists f.fd)) [
    | inl e ↦
        let (c, d) = scan-clear (table && not (is_set (restrict (poll_of f.fd) f.events))) fs in
        (ground (arith, e, c), ground (arith, e, d))
    | inr e ↦ let (c, d) = scan-clear table fs in (ground (arith, e, c), ground (arith, e, d))
  ]

  -- The first pass of `dce_poll` leaves in each descriptor the events that it has among those asked for,
  -- errors and hang-ups always, and none in one that does not exist; it returns how many have one, if
  -- any has; and if none has it waits, for the timeout or without limit, unless the timeout is 0 and it
  -- advances the time instead.
  pub poll_first_lem :
      (timeout : Option ℕ) (fs : List PollFd)
      → let (pass, s) = poll_first exists poll_of timeout fs in
        (s.fds ≡ answers fs)
        × (pass ≡ (
            if ltb 0 (count_ready fs) then returns (count_ready fs) else elim timeout [
              | none ↦ waits_forever
              | some n ↦ if n == 0 then advances else waits_for n
            ]))
  unfolding poll_first poll_pass
  poll_first_lem none fs = let (c, d) = scan-clear true fs in (d, ground (arith, c))
  poll_first_lem (some n) fs = let (c, d) = scan-clear (not (n == 0)) fs in (d, ground (arith, c))

add_uses_lem : (ks : List ℕ) (uses : ℕ → ℕ) (fd : ℕ) → add_uses ks uses fd ≡ uses fd + count fd ks
unfolding add_uses count
add_uses_lem [] uses fd = omega arith
add_uses_lem (k ∷ ks) uses fd = ground (arith, add_uses_lem ks uses fd)

drop_uses_lem : (ks : List ℕ) (uses : ℕ → ℕ) (fd : ℕ) → drop_uses ks uses fd ≡ uses fd - count fd ks
unfolding drop_uses count
drop_uses_lem [] uses fd = omega arith
drop_uses_lem (k ∷ ks) uses fd = ground (arith, drop_uses_lem ks uses fd)

member-count : (k : ℕ) (ks : List ℕ) → member k ks ≡ ltb 0 (count k ks)
unfolding member count
member-count k [] = ground arith
member-count k (j ∷ ks) = ground (arith, member-count k ks)

count-keys_of :
    (fd : ℕ) (ks : List ℕ) → count fd (keys_of ks) ≡ (if ltb 0 (count fd ks) then 1 else 0)
unfolding keys_of count
count-keys_of fd [] = ground arith
count-keys_of fd (k ∷ ks) = elim (Bool-cases (k == fd)) [
  | inl e ↦
      let same : k ≡ fd = ground (arith, e) in
      ground (arith, e, member-count k ks, ap (λ x. count x ks) same, count-keys_of fd ks)
  | inr e ↦ ground (arith, e, count-keys_of fd ks)
]

-- After a call the uses of a descriptor's file are as before it, when its descriptor was taken with the
-- table once or not at all; for each time more that it was taken, one use is left over.
pub uses_after_lem :
    (taken : List ℕ) (uses : ℕ → ℕ) (fd : ℕ)
    → uses_after taken uses fd ≡ uses fd + (count fd taken - 1)
unfolding uses_after
uses_after_lem taken uses fd = ground (
  arith,
  drop_uses_lem (keys_of taken) (add_uses taken uses) fd,
  add_uses_lem taken uses fd,
  count-keys_of fd taken,
)
