-- ===== src/Buffer/Room.antt =====
-- src/io/buffer.cpp: the invariant of the buffer, its live bytes, and the growth of its storage.
use samurai.Prelude.{
  ◌⊎◌, sym, ℕ, zero, suc, ◌+◌, ◌-◌, ◌*◌, ◌^◌, ◌≤◌, ◌<◌, ◌≡◌, refl, ap, ◌∙◌, inl, inr, Bool, true,
  false, some, arith, Bool-cases, length, drop, length-append, replicate, length-replicate,
  length-take, length-drop, take_prefix, drop_prefix, Bytes, size_max, wrap, slice, length-write,
  slice-write, ltb, leb, ◌==◌, if◌then◌else◌, not, ◌&&◌,
}
use native.Mathlib.Nat.{pow-suc}
use mathlib.Core.Option.{some-injective}
use samurai.Buffer.{
  Buffer, Allocator, compact, grow, grow_fuel, extend, reallocate, make_room, resize, size,
  init_buf_size,
}

pub record IsValid (b : Buffer) : Type 0 where
  pub ordered : b.head ≤ b.len
  pub stored : b.len ≤ length b.buf
  pub addressable : length b.buf < size_max
  pub resettable : b.initial_capasity < size_max

-- What a reader of the buffer sees: the bytes in [head, len).
abbrev pub contents : Buffer → Bytes
contents b = slice b.buf b.head (b.len - b.head)

pub length-contents : (b : Buffer) → IsValid b → length (contents b) ≡ size b
length-contents b v =
    omega (arith, length-take (b.len - b.head) (drop b.head b.buf), length-drop b.head b.buf)

pub compact-IsValid : (b : Buffer) → IsValid b → IsValid (compact b)
unfolding compact
compact-IsValid b v = ground (arith, length-write b.buf 0 (slice b.buf b.head (b.len - b.head)))

pub contents-compact : (b : Buffer) → IsValid b → contents (compact b) ≡ contents b
unfolding compact
contents-compact b v = elim (Bool-cases (b.head == 0)) [
  | inl start ↦ rw (start, compact)
  | inr moved ↦ elim (Bool-cases (b.len - b.head == 0)) [
    | inl gone ↦ rw (moved, gone, compact) (let e : b.len - b.head ≡ 0 = ground arith in rw e)
    | inr some_left ↦
        rw (moved, some_left, compact)
          (slice-write b.buf 0 0 (b.len - b.head - 0) (contents b) (omega arith)
            (omega (arith, length-contents b v)) (omega (arith, length-contents b v)))
  ]
]

not_wrapped :
    (n : ℕ)
    → n ≤ size_max
    → leb (wrap (n * 2)) n ≡ false
    → (wrap (n * 2) ≡ n * 2) × (n * 2 ≤ size_max)
not_wrapped n h e = ground arith

grow_double :
    (fuel n required : ℕ)
    → ltb n required ≡ true
    → leb (wrap (n * 2)) n ≡ false
    → n ≤ size_max
    → grow (suc fuel) n required ≡ grow fuel (n * 2) required
unfolding grow
grow_double fuel n required small doubled h = rw (small, doubled, (not_wrapped n h doubled).0, grow)

grow_overflow :
    (fuel n required : ℕ)
    → ltb n required ≡ true
    → leb (wrap (n * 2)) n ≡ true
    → grow (suc fuel) n required ≡ some required
unfolding grow
grow_overflow fuel n required small wrapped = rw (small, wrapped, grow)

grow_done : (fuel n required : ℕ) → ltb n required ≡ false → grow (suc fuel) n required ≡ some n
unfolding grow
grow_done fuel n required large = rw (large, grow)

grow_again :
    (fuel n required : ℕ)
    → ltb n required ≡ true
    → leb (wrap (n * 2)) n ≡ false
    → grow (suc fuel) n required ≡ grow fuel (wrap (n * 2)) required
unfolding grow
grow_again fuel n required small doubled = rw (small, doubled, grow) refl

-- From a size that is not 0, and for a size and a requirement that a size_t holds, the doubling
-- loop ends within the fuel if that many doublings exceed SIZE_MAX; its result holds what is
-- required, fits a size_t, and is no smaller than the size that it started from.
pub grow_total :
    (fuel nsize required : ℕ)
    → 0 < nsize
    → nsize ≤ size_max
    → required ≤ size_max
    → size_max < nsize * 2 ^ fuel
    → (m : ℕ) × (grow (suc fuel) nsize required ≡ some m)
      × (required ≤ m)
      × (m ≤ size_max)
      × (nsize ≤ m)
grow_total zero nsize required pos n r h = absurd (omega arith)
grow_total (suc fuel) nsize required pos n r h = elim (Bool-cases (ltb nsize required)) [
  | inl small ↦ elim (Bool-cases (leb (wrap (nsize * 2)) nsize)) [
    | inl wrapped ↦
        (required, grow_overflow _ _ _ small wrapped, omega arith, omega arith, ground arith)
    | inr doubled ↦
        let fits = (not_wrapped nsize n doubled).1 in
        let (m, e, p, q, l) =
          grow_total fuel (nsize * 2) required (omega arith) fits r
            (omega (arith, ap (λ (t : ℕ). nsize * t) (pow-suc 2 fuel))) in
        (m, grow_double _ _ _ small doubled n ∙ e, p, q, omega arith)
  ]
  | inr large ↦ (nsize, grow_done _ _ _ large, ground arith, n, omega arith)
]

-- The loop ends at the size that it started from, or at no more than twice what is required.
grow-small : (fuel n required m : ℕ) → grow fuel n required ≡ some m → (m ≡ n) ⊎ (m ≤ 2 * required)
grow-small zero n required m e = unfold grow in cc
grow-small (suc fuel) n required m e = elim (Bool-cases (ltb n required)) [
  | inl small ↦ elim (Bool-cases (leb (wrap (n * 2)) n)) [
    | inl wrapped ↦
        let same =
          some-injective required m (sym (grow_overflow fuel n required small wrapped) ∙ e) in
        inr (omega (arith, same))
    | inr doubled ↦
        elim (grow-small fuel (wrap (n * 2)) required m
          (sym (grow_again fuel n required small doubled) ∙ e)) [
            | inl own ↦ inr (ground (arith, own, small))
            | inr less ↦ inr less
          ]
  ]
  | inr large ↦ inl (sym (some-injective n m (sym (grow_done fuel n required large) ∙ e)))
]

-- The sizes that `resize` asks the allocator for: they hold what is required, and are no larger than
-- twice that or than the first allocation.
abbrev pub Asks : ℕ → ℕ → Type 0
Asks required m = (required ≤ m) × ((m ≤ 2 * required) ⊎ (m ≤ init_buf_size))

-- Why there is no room for more bytes behind `len`: a size_t does not hold the size, or the allocator
-- has refused one of these sizes.
abbrev pub Refuses : Allocator → ℕ → ℕ → Type 0
Refuses al len needed =
    (size_max < len + needed)
    ⊎ ((m : ℕ) × Asks (len + needed) m × ((al.max_size < m) ⊎ (al.grants m ≡ false)))

-- What `resize` and `make_room` promise: the buffer reads as before, after a success the bytes asked
-- for fit behind `len`, and a failure has a reason.
pub record Room (al : Allocator) (b : Buffer) (needed : ℕ) (r : Buffer × Bool) : Type 0 where
  pub valid : IsValid r.0
  pub same : contents r.0 ≡ contents b
  pub fits : r.1 ≡ true → r.0.len + needed ≤ length r.0.buf
  pub fails : r.1 ≡ false → Refuses al r.0.len needed

extend-contents :
    (b : Buffer) (n : ℕ) → IsValid b → contents (record b { buf = extend b.buf n }) ≡ contents b
extend-contents b n v =
    rw (drop_prefix b.head b.buf (replicate (n - length b.buf) 0) (omega arith))
      (take_prefix (b.len - b.head) (drop b.head b.buf) _ (omega (arith, length-drop b.head b.buf)))

length-extend : (xs : Bytes) (n : ℕ) → length xs ≤ n → length (extend xs n) ≡ n
length-extend xs n h = omega (
  arith,
  length-append xs (replicate (n - length xs) 0),
  length-replicate {A = ℕ} (n - length xs) 0,
)

reallocate-Room :
    (al : Allocator) (b : Buffer) (needed m : ℕ)
    → IsValid b
    → Asks (b.len + needed) m
    → m ≤ size_max
    → length b.buf ≤ m
    → al.max_size < size_max
    → Room al b needed (reallocate al b (some m))
unfolding reallocate
reallocate-Room al b needed m v r q l bound = elim (Bool-cases (ltb al.max_size m)) [
  | inl large ↦
      rw (large, reallocate)
        (record {
          valid = v;
          same = refl;
          fits = λ e. cc;
          fails = λ _. inr (m, r, inl (ground (arith, large)));
        })
  | inr small ↦ elim (Bool-cases (al.grants m)) [
    | inl granted ↦
        rw (small, granted, reallocate)
          (record {
            valid = ground (arith, length-extend b.buf m l);
            same = extend-contents b m v;
            fits = λ _. omega (arith, r.0, length-extend b.buf m l);
            fails = λ e. cc;
          })
    | inr refused ↦
        rw (small, refused, reallocate)
          (record { valid = v; same = refl; fits = λ e. cc; fails = λ _. inr (m, r, inr refused) })
  ]
]

module _ (al : Allocator) (bound : al.max_size < size_max) (b : Buffer) (needed : ℕ) (v : IsValid b)
    (n : needed ≤ size_max) where
  not_overflowed :
      ltb (wrap (b.len + needed)) b.len ≡ false
      → (wrap (b.len + needed) ≡ b.len + needed) × (b.len + needed ≤ size_max)
  not_overflowed e = ground arith

  -- The size that the loop starts from, the constant or the capacity, is not 0.
  start_size : ℕ
  start_size = if length b.buf == 0 then init_buf_size else length b.buf

  start_size_bounds : (0 < start_size) × (start_size ≤ size_max) × (length b.buf ≤ start_size)
  unfolding start_size
  start_size_bounds = (ground arith, ground arith, ground arith)

  -- A capacity that is too small is not what the loop ends at.
  asks :
      (m : ℕ)
      → (m ≡ start_size) ⊎ (m ≤ 2 * (b.len + needed))
      → length b.buf < b.len + needed
      → (m ≤ 2 * (b.len + needed)) ⊎ (m ≤ init_buf_size)
  unfolding start_size
  asks m (inr less) small = inl less
  asks m (inl own) small = elim (Bool-cases (length b.buf == 0)) [
    | inl first ↦ inr (ground (arith, own, first))
    | inr later ↦ inl (ground (arith, own, later, small))
  ]

  make_room-Room : Room al b needed (make_room al b needed)
  unfolding make_room start_size
  make_room-Room = elim (Bool-cases (ltb (wrap (b.len + needed)) b.len)) [
    | inl wrapped ↦
        rw (wrapped, make_room)
          (record {
            valid = v;
            same = refl;
            fits = λ e. cc;
            fails = λ _. inl (ground (arith, wrapped));
          })
    | inr more ↦ elim (Bool-cases (leb (wrap (b.len + needed)) (length b.buf))) [
      | inl enough ↦
          rw (more, enough, make_room)
            (record {
              valid = v;
              same = refl;
              fits = λ _. ground (arith, not_overflowed more);
              fails = λ e. cc;
            })
      | inr little ↦
          let (pos, small, least) = start_size_bounds in
          let (w, fits) = not_overflowed more in
          let (m, e, enough, bounded, grown) =
            grow_total 64 start_size (b.len + needed) pos small fits (omega arith) in
          rw (more, little, w, make_room)
            (rw e (
              reallocate-Room al b needed m v
                (
                  enough,
                  asks m (grow-small grow_fuel start_size (b.len + needed) m e)
                      (ground (arith, little, w)),
                )
                bounded (omega arith) bound))
    ]
  ]

-- Growing never loses a live byte, whether it succeeds or not.
pub resize-Room :
    (al : Allocator)
    → al.max_size < size_max
    → (b : Buffer) (needed : ℕ) → IsValid b
    → needed ≤ size_max
    → Room al b needed (resize al b needed)
unfolding resize
resize-Room al bound b needed v n =
    elim (Bool-cases (not (b.head == 0) && ltb (length b.buf) (wrap (b.len + needed)))) [
      | inl packs ↦
          let r = make_room-Room al bound (compact b) needed (compact-IsValid b v) n in
          rw (packs, resize)
            (record {
              valid = r.valid;
              same = r.same ∙ contents-compact b v;
              fits = r.fits;
              fails = r.fails;
            })
      | inr keeps ↦ rw (keeps, resize) (make_room-Room al bound b needed v n)
    ]

-- With an allocator whose max_size is below SIZE_MAX, `resize` on a valid buffer leaves a valid
-- buffer with the same live bytes. Either it succeeds, and then the bytes asked for fit behind
-- `len`; or it fails, and then their sum with `len` exceeds SIZE_MAX, or the allocator has refused
-- a size that holds them and is at most twice as large or at most that of the first allocation.
pub resize_lem :
    (al : Allocator)
    → al.max_size < size_max
    → (b : Buffer) (needed : ℕ) → IsValid b
    → needed ≤ size_max
    → (let r = resize al b needed in
        IsValid r.0
        × (contents r.0 ≡ contents b)
        × ((r.1 ≡ true) × (r.0.len + needed ≤ length r.0.buf)
            ⊎ (r.1 ≡ false) × Refuses al r.0.len needed))
resize_lem al bound b needed v n =
    let r = resize-Room al bound b needed v n in
    (
      r.valid,
      r.same,
      elim (Bool-cases (resize al b needed).1) [
        | inl done ↦ inl (done, r.fits done)
        | inr failed ↦ inr (failed, r.fails failed)
      ],
    )
