-- ===== src/Poll.antt =====
-- model/dce-poll.cc with `PollTable::PollWait` of model/wait-queue.cc: `dce_poll` and `dce_select`.
--
-- A mask is its five bits that the code names, and the list of all others, in one order in every mask. What the descriptors are is a parameter:
-- whether one exists, and what `UnixFd::Poll` gives for it. The loop of `dce_poll` stops in `Wait`: a
-- pass of it is `poll_pass`, the first with the table and the later ones without it.
pub mod Ready
pub mod Selecting
mod Tests
use ns_3_dce.Prelude.{
  ℕ, zero, suc, ℤ, pos, negsuc, Bool, true, false, not, ◌&&◌, ◌||◌, Option, none, some, List, [],
  ◌∷◌, ◌==◌, if◌then◌else◌, ltb, ◌+◌, ◌-◌,
}

pub record Mask : Type 0 where
  pub input : Bool
  pub output : Bool
  pub urgent : Bool
  pub failed : Bool
  pub hung_up : Bool
  pub others : List Bool

abbrev pub no_events : Mask
no_events = record {
  input = false;
  output = false;
  urgent = false;
  failed = false;
  hung_up = false;
  others = [];
}

unfoldable pub any_bit : List Bool → Bool
any_bit [] = false
any_bit (b ∷ bs) = b || any_bit bs

unfoldable pub and_bits : List Bool → List Bool → List Bool
and_bits [] cs = []
and_bits (b ∷ bs) [] = []
and_bits (b ∷ bs) (c ∷ cs) = (b && c) ∷ and_bits bs cs

-- `mask != 0`.
pub is_set : Mask → Bool
is_set m = m.input || m.output || m.urgent || m.failed || m.hung_up || any_bit m.others

-- `mask & (events | POLLERR | POLLHUP)`.
pub restrict : Mask → Mask → Mask
restrict m events = record m {
  input = m.input && events.input;
  output = m.output && events.output;
  urgent = m.urgent && events.urgent;
  others = and_bits m.others events.others;
}

pub record PollFd : Type 0 where
  pub fd : ℕ
  pub events : Mask
  pub revents : Mask

unfoldable pub clear_revents : List PollFd → List PollFd
clear_revents [] = []
clear_revents (f ∷ fs) = record f { revents = no_events } ∷ clear_revents fs

-- What a pass leaves: the count, the descriptors, and those that were taken with the table, in order.
pub record Scan : Type 0 where
  pub count : ℕ
  pub fds : List PollFd
  pub taken : List ℕ

-- How a call of `dce_poll` goes on after a pass: `advances` is the call of `UtilsAdvanceTime`, after
-- which 0 is returned.
pub data Pass : Type 0 where
  returns : ℕ → Pass
  advances : Pass
  waits_forever : Pass
  waits_for : ℕ → Pass

module _ (exists : ℕ → Bool) (poll_of : ℕ → Mask) where
  -- The `for` loop of a pass; the flag says whether there is still a table.
  unfoldable pub scan : Bool → List PollFd → Scan
  unfolding is_set restrict
  scan table [] = record { count = 0; fds = []; taken = [] }
  scan table (f ∷ fs) =
      let mask = restrict (poll_of f.fd) f.events in
      let skipped = scan table fs in
      let after = scan (table && not (is_set mask)) fs in
      if exists f.fd
      then record {
        count = if is_set mask then suc after.count else after.count;
        fds = record f { revents = mask } ∷ after.fds;
        taken = if table then f.fd ∷ after.taken else after.taken;
      }
      else record skipped { fds = f ∷ skipped.fds }

  -- A pass, with the time left, `none` for a wait without limit and 0 when it ran out.
  pub poll_pass : Bool → Option ℕ → List PollFd → Pass × Scan
  poll_pass table left fs =
      let s = scan table fs in
      (
        (if ltb 0 s.count then returns s.count else elim left [
          | none ↦ waits_forever
          | some n ↦ if n == 0 then returns 0 else waits_for n
        ]),
        s,
      )

  -- The first pass: with a timeout of 0 it has no table, and time advances when nothing is found.
  pub poll_first : Option ℕ → List PollFd → Pass × Scan
  unfolding poll_pass
  poll_first timeout fs =
      let no_wait : Bool = elim timeout [ none ↦ false | some n ↦ n == 0 ] in
      let (pass, s) = poll_pass (not no_wait) timeout (clear_revents fs) in
      ((if no_wait && s.count == 0 then advances else pass), s)

-- The keys of the map `toUnRef`: each descriptor once.
unfoldable pub member : ℕ → List ℕ → Bool
member k [] = false
member k (j ∷ js) = j == k || member k js

unfoldable pub keys_of : List ℕ → List ℕ
keys_of [] = []
keys_of (k ∷ ks) = if member k ks then keys_of ks else k ∷ keys_of ks

-- The uses of files: each taken descriptor adds one, and each key of the map takes one back.
unfoldable pub add_uses : List ℕ → (ℕ → ℕ) → ℕ → ℕ
add_uses [] uses fd = uses fd
add_uses (k ∷ ks) uses fd = if k == fd then suc (add_uses ks uses fd) else add_uses ks uses fd

unfoldable pub drop_uses : List ℕ → (ℕ → ℕ) → ℕ → ℕ
drop_uses [] uses fd = uses fd
drop_uses (k ∷ ks) uses fd = if k == fd then drop_uses ks uses fd - 1 else drop_uses ks uses fd

-- The uses after a call that took those descriptors.
pub uses_after : List ℕ → (ℕ → ℕ) → ℕ → ℕ
uses_after taken uses fd = drop_uses (keys_of taken) (add_uses taken uses) fd

-- The sets of `dce_select`, `none` for a null pointer.
pub record Sets : Type 0 where
  pub reads : Option (ℕ → Bool)
  pub writes : Option (ℕ → Bool)
  pub excepts : Option (ℕ → Bool)

abbrev pub in_set : Option (ℕ → Bool) → ℕ → Bool
in_set none fd = false
in_set (some s) fd = s fd

pub asked : Sets → ℕ → Mask
asked s fd = record {
  input = in_set s.reads fd;
  output = in_set s.writes fd;
  urgent = in_set s.excepts fd;
  failed = false;
  hung_up = false;
  others = [];
}

-- The loop over the descriptors below `nfds`: `none` when one that is asked for does not exist.
unfoldable pub poll_fds : (ℕ → Bool) → Sets → ℕ → ℕ → Option (List PollFd)
unfolding asked is_set
poll_fds exists s zero fd = some []
poll_fds exists s (suc fuel) fd =
    let rest = poll_fds exists s fuel (suc fd) in
    if not (is_set (asked s fd)) then rest else if not (exists fd) then none else elim rest [
      | none ↦ none
      | some fs ↦ some (record { fd = fd; events = asked s fd; revents = no_events } ∷ fs)
    ]

abbrev pub empty_or_null : Option (ℕ → Bool) → Option (ℕ → Bool)
empty_or_null none = none
empty_or_null (some s) = some (λ fd. false)

abbrev pub add_to : Bool → ℕ → Option (ℕ → Bool) → Option (ℕ → Bool)
add_to b fd none = none
add_to b fd (some s) = some (if b then (λ k. if fd == k then true else s k) else s)

abbrev pub as_one : Bool → Option (ℕ → Bool) → ℕ
as_one b none = 0
as_one b (some s) = if b then 1 else 0

-- The last loop of `dce_select`: the count and the sets.
unfoldable pub fill_sets : List PollFd → Sets → ℕ × Sets
fill_sets [] s = (0, s)
fill_sets (f ∷ fs) s =
    let reads = f.revents.input || f.revents.hung_up || f.revents.failed in
    let (count, t) = fill_sets fs (record {
      reads = add_to reads f.fd s.reads;
      writes = add_to f.revents.output f.fd s.writes;
      excepts = add_to f.revents.urgent f.fd s.excepts;
    }) in
    (
      as_one reads s.reads
          + as_one f.revents.output s.writes
          + as_one f.revents.urgent s.excepts
          + count,
      t,
    )

-- What `dce_select` makes of the result of `dce_poll`.
pub select_result : ℕ → List PollFd → Sets → ℕ × Sets
select_result count fs s =
    let empty : Sets = record {
      reads = empty_or_null s.reads;
      writes = empty_or_null s.writes;
      excepts = empty_or_null s.excepts;
    } in
    if ltb 0 count then fill_sets fs empty else (count, empty)

-- Whether `dce_select` refuses its arguments with `EINVAL`: the count -1, no set at all, or a negative
-- time.
pub select_refuses : ℤ → Sets → Option (ℤ × ℤ) → Bool
select_refuses nfds s timeout =
    is_minus_one nfds
    || (is_null s.reads && is_null s.writes && is_null s.excepts)
    || elim timeout [ none ↦ false | some (sec, usec) ↦ is_negative sec || is_negative usec ]
  where
    is_minus_one : ℤ → Bool
    is_minus_one (pos n) = false
    is_minus_one (negsuc n) = n == 0

    is_negative : ℤ → Bool
    is_negative (pos n) = false
    is_negative (negsuc n) = true

    is_null : Option (ℕ → Bool) → Bool
    is_null none = true
    is_null (some s) = false
