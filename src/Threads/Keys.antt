-- ===== src/Threads/Keys.antt =====
-- The thread-specific values of model/dce-pthread.cc.
use ns_3_dce.Prelude.{
  ℕ, ◌≤◌, ◌<◌, ◌≡◌, ◌≢◌, Bool, true, false, none, some, List, [], ◌∷◌, ◌++◌, map, ◌==◌, arith,
  if◌then◌else◌, refl, subst, sym, inl, inr, ◌∙◌, ap, ap₂, Option-cases,
}
use ns_3_dce.ObjectTable.{find, store, erase, find-append, find-store_self, find-store_ne, find-id}
use ns_3_dce.Threads.{
  KeyValue, Process, Thread, success, einval, key_of, tid_of, is_some, first_free, allocate_tid,
  create_thread, copied_keys, clear_value, new_thread,
}
use ns_3_dce.Threads.Values.{
  is_key_valid, getspecific, setspecific, key_create, key_delete, push_key, drop_key, all_have,
}
use ns_3_dce.Threads.Ids.{first_free-some, not_some}

-- A value that a thread sets is the value that it reads, and its values for other keys are as before;
-- a key that it does not have is refused, and reads as 0.
pub setspecific_lem :
    (key value : ℕ) (t : Thread)
    → let (code, u) = setspecific key value t in
      ((is_key_valid key t ≡ true)
        → (code ≡ success)
          × (getspecific key u ≡ value)
          × ((k : ℕ) → k ≢ key → getspecific k u ≡ getspecific k t))
      × ((is_key_valid key t ≡ false) → (code ≡ einval) × (u ≡ t) × (getspecific key t ≡ 0))
unfolding setspecific getspecific is_key_valid
setspecific_lem key value t = elim (Option-cases (find key_of key t.key_values)) [
  | inl n ↦ ground (arith, n)
  | inr (v, n) ↦
      let i = find-id key_of key t.key_values v n in
      let w : KeyValue = record v { value = value } in
      let back : find key_of key (store key_of w t.key_values) ≡ some w =
        ap (λ x. find key_of x (store key_of w t.key_values)) (sym i)
        ∙ find-store_self key_of w v t.key_values (ap (λ x. find key_of x t.key_values) i ∙ n) in
      (
        λ h. (
          ground (arith, n),
          ground (arith, n, back),
          λ k e. ground (arith, n, find-store_ne key_of k w t.key_values (λ q. e (sym q ∙ i))),
        ),
        λ h. absurd (ground (arith, n)),
      )
]

-- The keys that a thread has, in order.
abbrev pub keys : Thread → List ℕ
keys t = map key_of t.key_values

unfoldable pub has : ℕ → List ℕ → Bool
has k [] = false
has k (j ∷ js) = if j == k then true else has k js

unfoldable pub without : ℕ → List ℕ → List ℕ
without k [] = []
without k (j ∷ js) = if j == k then js else j ∷ without k js

-- Every thread has these keys, in this order.
abbrev pub IsUniform : List ℕ → List Thread → Type 0
IsUniform ks [] = Unit
IsUniform ks (t ∷ ts) = (keys t ≡ ks) × IsUniform ks ts

has-keys : (k : ℕ) (vs : List KeyValue) → is_some (find key_of k vs) ≡ has k (map key_of vs)
unfolding find has
has-keys k [] = refl
has-keys k (v ∷ vs) = ground (arith, has-keys k vs)

keys-clear : (vs : List KeyValue) → map key_of (map clear_value vs) ≡ map key_of vs
unfolding clear_value
keys-clear [] = refl
keys-clear (v ∷ vs) = ap (λ l. v.key ∷ l) (keys-clear vs)

keys-erase :
    (k : ℕ) (vs : List KeyValue) → map key_of (erase key_of k vs) ≡ without k (map key_of vs)
unfolding erase without
keys-erase k [] = refl
keys-erase k (v ∷ vs) = ground (arith, keys-erase k vs)

keys-append :
    (v : KeyValue) (vs : List KeyValue) → map key_of (vs ++ v ∷ []) ≡ map key_of vs ++ v.key ∷ []
keys-append v [] = refl
keys-append v (w ∷ vs) = ap (λ l. w.key ∷ l) (keys-append v vs)

push-IsUniform :
    (v : KeyValue) (ks : List ℕ) (ts : List Thread)
    → IsUniform ks ts
    → IsUniform (ks ++ v.key ∷ []) (map (push_key v) ts)
unfolding push_key
push-IsUniform v ks [] u = tt
push-IsUniform v ks (t ∷ ts) u =
    (keys-append v t.key_values ∙ ap (λ l. l ++ v.key ∷ []) u.0, push-IsUniform v ks ts u.1)

drop-IsUniform :
    (k : ℕ) (ks : List ℕ) (ts : List Thread)
    → IsUniform ks ts
    → IsUniform (without k ks) (map (drop_key k) ts)
unfolding drop_key
drop-IsUniform k ks [] u = tt
drop-IsUniform k ks (t ∷ ts) u =
    (keys-erase k t.key_values ∙ ap (without k) u.0, drop-IsUniform k ks ts u.1)

all_have-IsUniform :
    (k : ℕ) (ks : List ℕ) (ts : List Thread)
    → IsUniform ks ts
    → has k ks ≡ true
    → all_have k ts ≡ true
unfolding all_have is_key_valid
all_have-IsUniform k ks [] u h = refl
all_have-IsUniform k ks (t ∷ ts) u h =
    ground (arith, has-keys k t.key_values, ap (has k) u.0, h, all_have-IsUniform k ks ts u.1 h)

append-IsUniform :
    (ks : List ℕ) (t : Thread) (ts : List Thread)
    → IsUniform ks ts
    → keys t ≡ ks
    → IsUniform ks (ts ++ t ∷ [])
append-IsUniform ks t [] u e = (e, tt)
append-IsUniform ks t (x ∷ ts) u e = (u.0, append-IsUniform ks t ts u.1 e)

keys-copied :
    (ks : List ℕ) (ts : List Thread) → IsUniform ks ts → ts ≢ [] → map key_of (copied_keys ts) ≡ ks
unfolding copied_keys
keys-copied ks [] u o = absurd (o refl)
keys-copied ks (t ∷ ts) u o = keys-clear t.key_values ∙ u.0

create_thread-IsUniform :
    (ks : List ℕ) (task : ℕ) (p : Process) (t : Thread) (q : Process)
    → IsUniform ks p.threads
    → p.threads ≢ []
    → create_thread task p ≡ some (t, q)
    → IsUniform ks q.threads
unfolding create_thread new_thread
create_thread-IsUniform ks task p t q u o e = elim (Option-cases (allocate_tid p)) [
  | inl n ↦ absurd (ground (arith, n))
  | inr (k, n) ↦
      let x : Thread = new_thread k task (copied_keys p.threads) in
      let same : q.threads ≡ p.threads ++ x ∷ [] = ground (arith, n) in
      subst (IsUniform ks) (sym same)
        (append-IsUniform ks x p.threads u (keys-copied ks p.threads u o))
]

key_create-IsUniform :
    (ks : List ℕ) (destructor k : ℕ) (current : Thread) (p q : Process)
    → IsUniform ks p.threads
    → keys current ≡ ks
    → key_create destructor current p ≡ (success, some k, q)
    → (has k ks ≡ false) × (2 ≤ k) × (k < 100000) × IsUniform (ks ++ k ∷ []) q.threads
unfolding key_create is_key_valid
key_create-IsUniform ks destructor k current p q u c e =
    elim (Option-cases (first_free (λ k. is_some (find key_of k current.key_values)) 99998 2)) [
      | inl n ↦ absurd (ground (arith, n))
      | inr (j, n) ↦
          let (free, lo, hi, _) =
            first_free-some (λ k. is_some (find key_of k current.key_values)) 99998 2 j n in
          let v : KeyValue = record { key = k; destructor = destructor; value = 0 } in
          let same : j ≡ k = ground (arith, n) in
          let made : q.threads ≡ map (push_key v) p.threads = ground (arith, n) in
          (
            sym (has-keys k current.key_values ∙ ap (has k) c)
                ∙ ap (λ x. is_some (find key_of x current.key_values)) (sym same)
                ∙ free,
            omega (arith, lo, same),
            omega (arith, hi, same),
            subst (IsUniform (ks ++ k ∷ [])) (sym made) (push-IsUniform v ks p.threads u),
          )
    ]

-- In a process with a thread, all of whose threads have the same keys, the one that calls among them:
-- a new thread has them too; a key that is created is new, at least 2 and less than 100000, and all
-- threads get it behind the others; and the delete of a key that they have passes its assertion and
-- takes it from all threads.
pub key_calls_agree :
    (ks : List ℕ) (current : Thread) (p : Process)
    → IsUniform ks p.threads
    → keys current ≡ ks
    → p.threads ≢ []
    → ((task : ℕ) (t : Thread) (q : Process)
        → create_thread task p ≡ some (t, q)
        → IsUniform ks q.threads)
      × ((destructor k : ℕ) (q : Process)
          → key_create destructor current p ≡ (success, some k, q)
          → (has k ks ≡ false) × (2 ≤ k) × (k < 100000) × IsUniform (ks ++ k ∷ []) q.threads)
      × ((k : ℕ)
          → has k ks ≡ true
          → (q : Process) × (key_delete k current p ≡ some (success, q))
            × IsUniform (without k ks) q.threads)
unfolding key_delete is_key_valid
key_calls_agree ks current p u c o = (
  λ task t q e. create_thread-IsUniform ks task p t q u o e,
  λ destructor k q e. key_create-IsUniform ks destructor k current p q u c e,
  λ k h. (
    record p { threads = map (drop_key k) p.threads },
    ground (
      arith,
      has-keys k current.key_values,
      ap (has k) c,
      h,
      all_have-IsUniform k ks p.threads u h,
    ),
    drop-IsUniform k ks p.threads u,
  ),
)

find-map_push :
    (v : KeyValue) (tid : ℕ) (ts : List Thread) (t : Thread)
    → find tid_of tid ts ≡ some t
    → find tid_of tid (map (push_key v) ts) ≡ some (push_key v t)
unfolding find push_key
find-map_push v tid [] t e = cc
find-map_push v tid (x ∷ ts) t e = ground (arith, find-map_push v tid ts t)

lacks_drop :
    (v : KeyValue) (vs : List KeyValue)
    → has v.key (map key_of vs) ≡ false
    → erase key_of v.key (vs ++ v ∷ []) ≡ vs
unfolding erase has
lacks_drop v [] h = ground arith
lacks_drop v (w ∷ vs) h = ground (arith, lacks_drop v vs)

drop-push :
    (v : KeyValue) (ks : List ℕ) (ts : List Thread)
    → IsUniform ks ts
    → has v.key ks ≡ false
    → map (drop_key v.key) (map (push_key v) ts) ≡ ts
unfolding drop_key push_key
drop-push v ks [] u h = refl
drop-push v ks (t ∷ ts) u h =
    ap₂ (λ x xs. x ∷ xs)
      (ap (λ l. record t { key_values = l }) (lacks_drop v t.key_values (ap (has v.key) u.0 ∙ h)))
      (drop-push v ks ts u.1 h)

has-append_self : (k : ℕ) (ks : List ℕ) → has k (ks ++ k ∷ []) ≡ true
unfolding has
has-append_self k [] = ground arith
has-append_self k (j ∷ ks) = ground (arith, has-append_self k ks)

key_delete_valid :
    (k : ℕ) (current : Thread) (p : Process)
    → is_key_valid k current ≡ true
    → all_have k p.threads ≡ true
    → key_delete k current p ≡ some (success, record p { threads = map (drop_key k) p.threads })
unfolding key_delete
key_delete_valid k current p v h = ground (arith, v, h)

whole :
    (p q : Process) (ts : List Thread)
    → q.pid ≡ p.pid
    → ts ≡ p.threads
    → record q { threads = ts } ≡ p
whole p q ts e f = cc

-- In a process all of whose threads have the same keys, the one that calls among them: a key that is
-- created is valid for the thread that created it and reads as 0, and its delete by that thread
-- leaves the process as it was before.
pub create_then_delete :
    (ks : List ℕ) (destructor k : ℕ) (current : Thread) (p q : Process)
    → IsUniform ks p.threads
    → find tid_of current.tid p.threads ≡ some current
    → keys current ≡ ks
    → key_create destructor current p ≡ (success, some k, q)
    → (caller : Thread) × (find tid_of current.tid q.threads ≡ some caller)
      × (is_key_valid k caller ≡ true)
      × (getspecific k caller ≡ 0)
      × (key_delete k caller q ≡ some (success, p))
unfolding key_create is_key_valid getspecific push_key
create_then_delete ks destructor k current p q u f c e =
    let (free, lo, hi, v) = key_create-IsUniform ks destructor k current p q u c e in
    let w : KeyValue = record { key = k; destructor = destructor; value = 0 } in
    let made : q ≡ record p { threads = map (push_key w) p.threads } = created in
    let n : find key_of k current.key_values ≡ none =
      not_some (find key_of k current.key_values)
        (has-keys k current.key_values ∙ ap (has k) c ∙ free) in
    let seen : find key_of k (current.key_values ++ w ∷ []) ≡ some w =
      ground (arith, find-append key_of k current.key_values w n) in
    let all : all_have k q.threads ≡ true =
      all_have-IsUniform k (ks ++ k ∷ []) q.threads v (has-append_self k ks) in
    let back : map (drop_key k) q.threads ≡ p.threads =
      ap (λ x. map (drop_key k) x.threads) made ∙ drop-push w ks p.threads u free in
    (
      push_key w current,
      ap (λ x. find tid_of current.tid x.threads) made
          ∙ find-map_push w current.tid p.threads current f,
      ground (arith, seen),
      ground (arith, seen),
      key_delete_valid k (push_key w current) q (ground (arith, seen)) all
          ∙ ap (λ x. some (success, x))
              (whole p q (map (drop_key k) q.threads) (ap (λ x. x.pid) made) back),
    )
  where
    created : q ≡ record p {
      threads = map (push_key (record { key = k; destructor = destructor; value = 0 })) p.threads;
    }
    created =
        elim (Option-cases (first_free (λ k. is_some (find key_of k current.key_values)) 99998 2)) [
          | inl n ↦ absurd (ground (arith, n))
          | inr (j, n) ↦ ground (arith, n)
        ]

all_have-lacks :
    (k tid : ℕ) (ts : List Thread) (x : Thread)
    → find tid_of tid ts ≡ some x
    → is_key_valid k x ≡ false
    → all_have k ts ≡ false
unfolding find all_have
all_have-lacks k tid [] x f h = cc
all_have-lacks k tid (t ∷ ts) x f h = ground (arith, all_have-lacks k tid ts x)

-- While a thread that has exited, and so has no keys, is not joined, no key can be deleted: the delete
-- of a key of the caller fails its assertion that every thread has the key.
pub key_delete_fails_after_exit :
    (k tid : ℕ) (current x : Thread) (p : Process)
    → is_key_valid k current ≡ true
    → find tid_of tid p.threads ≡ some x
    → x.key_values ≡ []
    → key_delete k current p ≡ none
unfolding key_delete is_key_valid find
key_delete_fails_after_exit k tid current x p v f e =
    ground (arith, v, all_have-lacks k tid p.threads x f (ap (λ l. is_some (find key_of k l)) e))
