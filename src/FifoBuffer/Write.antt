-- ===== src/FifoBuffer/Write.antt =====
-- `FifoBuffer::Write` of model/fifo-buffer.cc: what it takes, and what it leaves.
use ns_3_dce.Prelude.{
  ℕ, suc, ◌-◌, ◌≤◌, ◌<◌, ◌≡◌, ◌^◌, List, ◌++◌, length, take, arith, ◌≢◌, Option, none, some, ℤ, pos,
  minus_one, min, Bool-cases, inl, inr, ◌⊎◌, refl, ltb, leb, ◌==◌, length-take, take_all,
  append-nil, Option-cases, ◌∙◌, ap, sym,
}
use ns_3_dce.FifoBuffer.{
  FifoBuffer, append_bytes, compact, new_size, grow, write_pass, write_fuel, write, Outcome,
}
use ns_3_dce.FifoBuffer.Valid.{
  IsValid, contents, length-contents, append_bytes-IsValid, contents-append_bytes, compact-IsValid,
  contents-compact, grow-IsValid, contents-grow,
}

-- What a client may say of a call of `Write`: the buffer stays valid, and either the bytes that
-- there is room for went to the end, or memory was refused and nothing was written.
pub record Wrote (malloc : ℕ → Option (List ℕ)) (b : FifoBuffer) (bytes : List ℕ) (r : ℤ)
    (b' : FifoBuffer) : Type 0 where
  pub valid : IsValid b'
  pub same_max : b'.max_size ≡ b.max_size
  pub effect :
      ((r ≡ pos (min (length bytes) (b.max_size - length (contents b))))
        × (contents b' ≡ contents b ++ take (b.max_size - length (contents b)) bytes))
      ⊎ ((r ≡ minus_one) × (contents b' ≡ contents b) × (n : ℕ) × (malloc n ≡ none))

module _ (malloc : ℕ → Option (List ℕ))
    (malloc_size : (n : ℕ) (block : List ℕ) → malloc n ≡ some block → length block ≡ n) where
  abbrev Good : FifoBuffer → List ℕ → Outcome → Type 0
  Good b bytes o = (r : ℤ) × (b' : FifoBuffer) × (o ≡ some (r, b')) × Wrote malloc b bytes r b'

  -- A buffer with the same contents and limit may be written in place of another.
  Good-moved :
      (b c : FifoBuffer) (bytes : List ℕ) {o : Outcome}
      → contents c ≡ contents b
      → c.max_size ≡ b.max_size
      → Good c bytes o
      → Good b bytes o
  Good-moved b c bytes e m (r, b', p, w) = (
    r,
    b',
    p,
    record { valid = w.valid; same_max = w.same_max ∙ m; effect = rw (e, m) at w.effect },
  )

  take_room :
      (b : FifoBuffer) (bytes : List ℕ)
      → IsValid b
      → length bytes ≤ b.size - b.fill
      → take (b.max_size - length (contents b)) bytes ≡ bytes
  take_room b bytes v h = take_all _ bytes (omega (arith, length-contents b v))

  pass_fits :
      (again : FifoBuffer → Outcome) (b : FifoBuffer) (bytes : List ℕ)
      → IsValid b
      → length bytes < 2 ^ 63
      → length bytes ≤ b.size - b.fill
      → Good b bytes (write_pass malloc again b bytes)
  unfolding write_pass
  pass_fits again b bytes v s h = (
    pos (length bytes),
    append_bytes b bytes,
    ground arith,
    record {
      valid = append_bytes-IsValid b bytes v (omega arith);
      same_max = unfold append_bytes in refl;
      effect = inl (
        ground (arith, length-contents b v),
        contents-append_bytes b bytes v (omega arith)
            ∙ ap (◌++◌ (contents b)) (sym (take_room b bytes v h)),
      );
    },
  )

  pass_full :
      (again : FifoBuffer → Outcome) (b : FifoBuffer) (bytes : List ℕ)
      → IsValid b
      → b.size - b.fill < length bytes
      → b.read ≡ 0
      → b.size ≡ b.max_size
      → Good b bytes (write_pass malloc again b bytes)
  unfolding write_pass
  pass_full again b bytes v h z m = elim (Bool-cases (ltb 0 (b.size - b.fill))) [
    | inl room ↦ (
      pos (b.size - b.fill),
      append_bytes b (take (b.size - b.fill) bytes),
      ground arith,
      record {
        valid = append_bytes-IsValid b _ v (omega (arith, length-take (b.size - b.fill) bytes));
        same_max = unfold append_bytes in refl;
        effect = inl (
          ground (arith, length-contents b v),
          contents-append_bytes b _ v (omega (arith, length-take (b.size - b.fill) bytes))
              ∙ ap (λ k. contents b ++ take k bytes) (omega (arith, length-contents b v)),
        );
      },
    )
    | inr full ↦ (
      pos 0,
      b,
      ground arith,
      record {
        valid = v;
        same_max = refl;
        effect = inl (
          ground (arith, length-contents b v),
          let e : b.max_size - length (contents b) ≡ 0 = ground (arith, length-contents b v) in
              rw e (sym (append-nil (contents b))),
        );
      },
    )
  ]

  -- The call of itself that a pass makes with `fuel` left.
  abbrev next : ℕ → List ℕ → FifoBuffer → Outcome
  next fuel bytes b = write_fuel malloc fuel b bytes

  -- No call is made when the bytes fit, or when a front-aligned buffer has its full size.
  settled :
      (fuel : ℕ) (b : FifoBuffer) (bytes : List ℕ)
      → IsValid b
      → length bytes < 2 ^ 63
      → (length bytes ≤ b.size - b.fill) ⊎ ((b.read ≡ 0) × (b.size ≡ b.max_size))
      → Good b bytes (write_fuel malloc (suc fuel) b bytes)
  unfolding write_fuel
  settled fuel b bytes v s (inl h) = pass_fits (next fuel bytes) b bytes v s h
  settled fuel b bytes v s (inr (z, m)) = elim (Bool-cases (leb (length bytes) (b.size - b.fill))) [
    | inl fits ↦ pass_fits (next fuel bytes) b bytes v s (ground arith)
    | inr over ↦ pass_full (next fuel bytes) b bytes v (ground arith) z m
  ]

  -- The block that is asked for holds the bytes, or is as large as may be.
  new_size_bounds :
      (b : FifoBuffer) (len : ℕ)
      → IsValid b
      → len < 2 ^ 63
      → b.size - b.fill < len
      → b.size ≢ b.max_size
      → (b.size < new_size b len)
        × (new_size b len ≤ b.max_size)
        × ((len ≤ new_size b len - b.fill) ⊎ (new_size b len ≡ b.max_size))
  unfolding new_size
  new_size_bounds b len v s h m = ground arith

  pass_grows :
      (again : FifoBuffer → Outcome) (b : FifoBuffer) (bytes : List ℕ) (block : List ℕ)
      → IsValid b
      → length bytes < 2 ^ 63
      → b.size - b.fill < length bytes
      → b.read ≡ 0
      → b.size ≢ b.max_size
      → malloc (new_size b (length bytes)) ≡ some block
      → write_pass malloc again b bytes ≡ again (grow b (new_size b (length bytes)) block)
  unfolding write_pass
  pass_grows again b bytes block v s h z m e = ground arith

  pass_refused :
      (again : FifoBuffer → Outcome) (b : FifoBuffer) (bytes : List ℕ)
      → IsValid b
      → length bytes < 2 ^ 63
      → b.size - b.fill < length bytes
      → b.read ≡ 0
      → b.size ≢ b.max_size
      → malloc (new_size b (length bytes)) ≡ none
      → write_pass malloc again b bytes ≡ some (minus_one, b)
  unfolding write_pass
  pass_refused again b bytes v s h z m e = ground arith

  pass_compacts :
      (again : FifoBuffer → Outcome) (b : FifoBuffer) (bytes : List ℕ)
      → IsValid b
      → length bytes < 2 ^ 63
      → b.size - b.fill < length bytes
      → 0 < b.read
      → write_pass malloc again b bytes ≡ again (compact b)
  unfolding write_pass
  pass_compacts again b bytes v s h z = ground arith

  grown :
      (fuel : ℕ) (b : FifoBuffer) (bytes : List ℕ)
      → IsValid b
      → length bytes < 2 ^ 63
      → b.size - b.fill < length bytes
      → b.read ≡ 0
      → b.size ≢ b.max_size
      → Good b bytes (write_fuel malloc (suc (suc fuel)) b bytes)
  grown fuel b bytes v s h z m = elim (Option-cases (malloc n)) [
    | inl refused ↦ (
      minus_one,
      b,
      unfold write_fuel in pass_refused (next (suc fuel) bytes) b bytes v s h z m refused,
      record { valid = v; same_max = refl; effect = inr (refl, refl, n, refused) },
    )
    | inr (block, e) ↦
        let c : FifoBuffer = grow b n block in
        let w : IsValid c =
          grow-IsValid b n block v (malloc_size n block e) (omega (arith, bounds)) bounds.1 in
        let fuel_step : write_fuel malloc (suc (suc fuel)) b bytes
            ≡ write_fuel malloc (suc fuel) c bytes =
          unfold write_fuel in pass_grows (next (suc fuel) bytes) b bytes block v s h z m e in
        rw fuel_step (
          Good-moved b c bytes (contents-grow b n block v) (unfold grow in refl)
            (settled fuel c bytes w s (unfold grow in ground (arith, bounds))))
  ]
    where
      n : ℕ
      n = new_size b (length bytes)

      bounds : (b.size < n) × (n ≤ b.max_size) × ((length bytes ≤ n - b.fill) ⊎ (n ≡ b.max_size))
      bounds = new_size_bounds b (length bytes) v s h m

  front :
      (fuel : ℕ) (b : FifoBuffer) (bytes : List ℕ)
      → IsValid b
      → length bytes < 2 ^ 63
      → b.read ≡ 0
      → Good b bytes (write_fuel malloc (suc (suc fuel)) b bytes)
  front fuel b bytes v s z = elim (Bool-cases (leb (length bytes) (b.size - b.fill))) [
    | inl fits ↦ settled (suc fuel) b bytes v s (inl (ground arith))
    | inr over ↦ elim (Bool-cases (b.size == b.max_size)) [
      | inl full ↦ settled (suc fuel) b bytes v s (inr (z, ground arith))
      | inr more ↦ grown fuel b bytes v s (ground arith) z (ground arith)
    ]
  ]

  any_marks :
      (fuel : ℕ) (b : FifoBuffer) (bytes : List ℕ)
      → IsValid b
      → length bytes < 2 ^ 63
      → Good b bytes (write_fuel malloc (suc (suc (suc fuel))) b bytes)
  any_marks fuel b bytes v s = elim (Bool-cases (leb (length bytes) (b.size - b.fill))) [
    | inl fits ↦ settled (suc (suc fuel)) b bytes v s (inl (ground arith))
    | inr over ↦ elim (Bool-cases (ltb 0 b.read)) [
      | inl shifted ↦
          let fuel_step : write_fuel malloc (suc (suc (suc fuel))) b bytes
              ≡ write_fuel malloc (suc (suc fuel)) (compact b) bytes =
            unfold write_fuel in
            pass_compacts (next (suc (suc fuel)) bytes) b bytes v s (ground arith) (ground arith) in
          rw fuel_step (
            Good-moved b (compact b) bytes (contents-compact b v) (unfold compact in refl)
              (front fuel (compact b) bytes (compact-IsValid b v) s (unfold compact in refl)))
      | inr at_front ↦ front (suc fuel) b bytes v s (ground arith)
    ]
  ]

  -- With a `malloc` whose blocks have the size asked for, `Write` of fewer than 2 ^ 63 bytes returns
  -- on every valid buffer, within the three passes of the model. If memory is not refused it takes as many of the bytes as there is room for below the limit, from the first on,
  -- puts them behind those that wait, and returns their number; if memory is refused it returns -1
  -- and what waits is unchanged. The buffer stays valid and keeps its limit in both cases.
  pub write_takes_what_fits :
      (b : FifoBuffer) (bytes : List ℕ)
      → IsValid b
      → length bytes < 2 ^ 63
      → (r : ℤ) × (b' : FifoBuffer) × (write malloc b bytes ≡ some (r, b'))
        × Wrote malloc b bytes r b'
  unfolding write
  write_takes_what_fits b bytes v s = any_marks 0 b bytes v s
