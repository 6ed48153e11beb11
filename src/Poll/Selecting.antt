-- ===== src/Poll/Selecting.antt =====
-- `dce_select` of model/dce-poll.cc.
use ns_3_dce.Prelude.{
  ℕ, suc, ◌≡◌, Bool, true, false, ◌&&◌, ◌||◌, some, List, [], ◌∷◌, ◌==◌, arith, if◌then◌else◌,
}
use ns_3_dce.Poll.{Mask, PollFd, in_set, fill_sets, select_result}

-- Whether some answer for the descriptor passes a test.
unfoldable pub any_answer : (Mask → Bool) → ℕ → List PollFd → Bool
any_answer test k [] = false
any_answer test k (f ∷ fs) = (f.fd == k && test f.revents) || any_answer test k fs

abbrev pub reads_of : Mask → Bool
reads_of m = m.input || m.hung_up || m.failed

fill_sets_lem :
    (fs : List PollFd) (r w x : ℕ → Bool) (k : ℕ)
    → let t = (fill_sets fs (record { reads = some r; writes = some w; excepts = some x })).1 in
      (in_set t.reads k ≡ (r k || any_answer reads_of k fs))
      × (in_set t.writes k ≡ (w k || any_answer (λ m. m.output) k fs))
      × (in_set t.excepts k ≡ (x k || any_answer (λ m. m.urgent) k fs))
unfolding fill_sets any_answer
fill_sets_lem [] r w x k = ground arith
fill_sets_lem (f ∷ fs) r w x k =
    let put : Bool → (ℕ → Bool) → ℕ → Bool =
      λ b s. if b then (λ j. if f.fd == j then true else s j) else s in
    let (a, b, c) =
      fill_sets_lem fs (put (reads_of f.revents) r) (put f.revents.output w)
        (put f.revents.urgent x) k in
    (ground (arith, a), ground (arith, b), ground (arith, c))

-- After a call of `dce_select` with all three sets, for which `dce_poll` counted some descriptor, a
-- descriptor is in the set of those to read from just when `dce_poll` answered for it with input, a
-- hang-up or an error, whether or not it was in that set before; in the set of those to write to when
-- it answered with output, and in the third when it answered with urgent data.
pub select_result_lem :
    (n : ℕ) (fs : List PollFd) (r w x : ℕ → Bool) (k : ℕ)
    → let t =
        (select_result
          (suc n)
          fs
          (record { reads = some r; writes = some w; excepts = some x })).1 in
      (in_set t.reads k ≡ any_answer reads_of k fs)
      × (in_set t.writes k ≡ any_answer (λ m. m.output) k fs)
      × (in_set t.excepts k ≡ any_answer (λ m. m.urgent) k fs)
unfolding select_result
select_result_lem n fs r w x k =
    let (a, b, c) = fill_sets_lem fs (λ _. false) (λ _. false) (λ _. false) k in
    (ground (arith, a), ground (arith, b), ground (arith, c))
