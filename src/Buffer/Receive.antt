-- ===== src/Buffer/Receive.antt =====
-- put_data of src/lib/buffer.cpp on any bytes, well framed or not. The release build is meant, in which an assert is no test.
use etwork.Common.{
  ℕ, zero, suc, ◌+◌, ◌*◌, ◌^◌, ◌≤◌, ◌<◌, true, false, List, [], ◌∷◌, none, some, ◌≡◌, refl, ◌⊎◌,
  inl, inr, arith, length, ◌==◌, All, length-drop, Option-cases, sym, subst, ap, ◌∙◌,
}
use etwork.Common.Bytes.{IsByte, add_size, length-fresh_bytes}
use etwork.Buffer.{Message, Impl, no_size, clip, new_message}
use etwork.Buffer.Run.{Run, done, assert_failed, bad_access, no_fuel, ◌>>=◌}
use etwork.Buffer.PutData.{
  Step, return, go_on, read_size, allocate, skip_data, fill_target, take_data, round, put_data_loop,
  put_data,
}
use etwork.Buffer.Invariant.{IsValid, HasRoom, Fits, fresh, new_message_cases}
use etwork.Buffer.Filling.{RoomFor, cleared, cleared-IsValid, Goes, All-drop, fill_target-Goes}

clip_le : (skip n : ℕ) → clip skip n ≤ n
unfolding clip
clip_le skip n = ground arith

-- The bookkeeping of a state that receives no message, whatever waits or is to be skipped.
waiting-IsValid :
    (im : Impl) (to_skip tmp_size : ℕ)
    → IsValid (cleared im)
    → im.cur_target ≡ none
    → (tmp_size ≡ no_size) ⊎ (tmp_size + 256 ≤ 2 ^ 16)
    → IsValid (record im { to_skip = to_skip; tmp_size = tmp_size })
waiting-IsValid im to_skip tmp_size v free t = record {
  counted = v.counted;
  few = v.few;
  bounded = v.bounded;
  whole = v.whole;
  room = subst (HasRoom (record im { to_skip = to_skip; tmp_size = tmp_size })) (sym free) tt;
  limits = v.limits;
  shorts = v.shorts;
  half = elim t [ inl e ↦ inl e | inr h ↦ inr (h, free) ];
}

skip_data-Goes :
    (im : Impl) (bytes : List ℕ) (len total taken : ℕ)
    → IsValid (cleared im)
    → im.cur_target ≡ none
    → im.tmp_size ≡ no_size
    → All IsByte bytes
    → taken + length bytes ≡ total + len
    → length bytes < len
    → Goes len total (skip_data false im bytes taken)
unfolding skip_data
skip_data-Goes im bytes len total taken v free e b s h =
    let n = clip im.to_skip (length bytes) in
    let le : n ≤ length bytes = clip_le im.to_skip (length bytes) in
    (
      waiting-IsValid im _ im.tmp_size v free (inl e),
      All-drop n bytes b,
      omega (arith, length-drop n bytes),
      omega (arith, length-drop n bytes),
    )

new_message-cleared : (im : Impl) (n : ℕ) → new_message im n ≡ new_message (cleared im) n
unfolding new_message
new_message-cleared im n = refl

-- With the size of a message at hand, the message is allocated and filled, or skipped.
next_message-Goes :
    (im : Impl) (bytes : List ℕ) (len total taken : ℕ)
    → IsValid (cleared im)
    → im.cur_target ≡ none
    → im.tmp_size < 2 ^ 16
    → All IsByte bytes
    → taken + length bytes ≡ total + len
    → length bytes < len
    → Goes len total (allocate false im >>= λ next. take_data false next bytes taken)
unfolding allocate take_data
next_message-Goes im bytes len total taken v free h b s k =
    let n = im.tmp_size in
    let some_size : (n == no_size) ≡ false = ground arith in
    elim (new_message_cases (cleared im) n v) [
      | inl (f, e) ↦
          rw (some_size, new_message-cleared im n ∙ e)
            (fill_target-Goes (record im { cur_target = some (fresh im n); tmp_size = no_size })
              (fresh im n) bytes len total taken v refl (room f) b s (inl k))
      | inr (_, e) ↦
          rw (some_size, new_message-cleared im n ∙ e)
            (skip_data-Goes (record im { cur_target = none; to_skip = n; tmp_size = no_size }) bytes
              len total taken
              (waiting-IsValid (record im { cur_target = none }) n no_size v refl (inl refl)) refl
              refl b s k)
    ]
  where
    room :
        Fits (cleared im) im.tmp_size
        → RoomFor
            (record im { cur_target = some (fresh im im.tmp_size); tmp_size = no_size })
            (fresh im im.tmp_size)
    room f = record {
      queued = f.messages;
      total = f.total;
      begun = omega arith;
      sized = omega (arith, length-fresh_bytes im.fill im.tmp_size);
      short = f.message;
    }

target-Goes :
    (im : Impl) (w : Message) (bytes : List ℕ) (total : ℕ)
    → IsValid im
    → im.cur_target ≡ some w
    → im.tmp_size ≡ no_size
    → All IsByte bytes
    → 0 < length bytes
    → Goes (length bytes) total (allocate false im >>= λ next. take_data false next bytes total)
unfolding allocate take_data
target-Goes im w bytes total v e n b h =
    let no_half : (im.tmp_size == no_size) ≡ true = ground arith in
    let r : HasRoom im (some w) = subst (HasRoom im) e v.room in
    rw no_half (
      subst
        (λ c. Goes (length bytes) total (elim c [
          | none ↦ skip_data false im bytes total
          | some w ↦ fill_target false im w bytes total
        ]))
        (sym e)
        (fill_target-Goes im w bytes (length bytes) total total (cleared-IsValid im v) n
          (record { queued = r.0; total = r.1; begun = omega arith; sized = r.3; short = r.4 }) b
          refl (inr (refl, r.2, h))))

-- The next round of a state between two messages, by the bytes that are there.
between-Goes :
    (im : Impl) (b : ℕ) (bs : List ℕ) (total : ℕ)
    → IsValid im
    → im.cur_target ≡ none
    → im.tmp_size ≡ no_size
    → All IsByte (b ∷ bs)
    → Goes (suc (length bs)) total (round false im (b ∷ bs) total)
unfolding round read_size
between-Goes im b [] total v free n h =
    let no_half : (im.tmp_size == no_size) ≡ true = ground arith in
    rw (no_half, free)
      (
        waiting-IsValid im im.to_skip (b * 256) (cleared-IsValid im v) free (inr (omega arith)),
        refl,
      )
between-Goes im b (c ∷ cs) total v free n h =
    let no_half : (im.tmp_size == no_size) ≡ true = ground arith in
    rw (no_half, free)
      (next_message-Goes (record im { tmp_size = b * 256 + c }) cs (suc (suc (length cs))) total
        (total + 2) (cleared-IsValid im v) free (omega arith) h.1.1 (omega arith) (omega arith))

-- With half of a size waiting, its second byte completes it.
half-Goes :
    (im : Impl) (b : ℕ) (bs : List ℕ) (total : ℕ)
    → IsValid im
    → im.tmp_size + 256 ≤ 2 ^ 16
    → im.cur_target ≡ none
    → All IsByte (b ∷ bs)
    → Goes (suc (length bs)) total (round false im (b ∷ bs) total)
unfolding round read_size
half-Goes im b bs total v small free h =
    let half : (im.tmp_size == no_size) ≡ false = ground arith in
    rw half (
      next_message-Goes (record im { tmp_size = add_size im.tmp_size b }) bs (suc (length bs)) total
        (total + 1) (cleared-IsValid im v) free (omega arith) h.1 (omega arith) (omega arith))

receiving-Goes :
    (im : Impl) (w : Message) (b : ℕ) (bs : List ℕ) (total : ℕ)
    → IsValid im
    → im.cur_target ≡ some w
    → im.tmp_size ≡ no_size
    → All IsByte (b ∷ bs)
    → Goes (suc (length bs)) total (round false im (b ∷ bs) total)
unfolding round read_size
receiving-Goes im w b bs total v e n h =
    let no_half : (im.tmp_size == no_size) ≡ true = ground arith in
    rw (no_half, e) (target-Goes im w (b ∷ bs) total v e n h (omega arith))

-- A round on some bytes keeps the bookkeeping and takes a byte at least.
round-Goes :
    (im : Impl) (b : ℕ) (bs : List ℕ) (total : ℕ)
    → IsValid im
    → All IsByte (b ∷ bs)
    → Goes (suc (length bs)) total (round false im (b ∷ bs) total)
round-Goes im b bs total v h = elim v.half [
  | inr (small, free) ↦ half-Goes im b bs total v small free h
  | inl n ↦ elim (Option-cases im.cur_target) [
    | inl free ↦ between-Goes im b bs total v free n h
    | inr (w, e) ↦ receiving-Goes im w b bs total v e n h
  ]
]

-- The outcome of the whole loop.
abbrev pub TakesAll : ℕ → Run (Impl × ℕ) → Type 0
TakesAll total r = (im : Impl) × (r ≡ done (im, total)) × IsValid im

put_data_loop-TakesAll :
    (fuel : ℕ) (im : Impl) (bytes : List ℕ) (total : ℕ)
    → IsValid im
    → All IsByte bytes
    → length bytes < fuel
    → TakesAll (total + length bytes) (put_data_loop fuel false im bytes total)
unfolding put_data_loop
put_data_loop-TakesAll zero im bytes total v h f = absurd (omega arith)
put_data_loop-TakesAll (suc fuel) im [] total v h f = (im, ap (λ t. done (im, t)) (omega arith), v)
put_data_loop-TakesAll (suc fuel) im (b ∷ bs) total v h f =
    after (round false im (b ∷ bs) total) (round-Goes im b bs total v h)
      (λ next bytes total' v' h' f'. put_data_loop-TakesAll fuel next bytes total' v' h' f')
  where
    after :
        (r : Run Step)
        → Goes (suc (length bs)) total r
        → ((next : Impl) (bytes : List ℕ) (total' : ℕ)
            → IsValid next
            → All IsByte bytes
            → length bytes < fuel
            → TakesAll (total' + length bytes) (put_data_loop fuel false next bytes total'))
        → TakesAll (total + suc (length bs)) (
            r >>= λ s. elim s [
              | return im' total' ↦ done (im', total')
              | go_on im' bytes' total' ↦ put_data_loop fuel false im' bytes' total'
            ])
    after (done (return next total')) g ih = (next, ap (λ t. done (next, t)) g.1, g.0)
    after (done (go_on next bytes total')) g ih =
        subst (λ t. TakesAll t (put_data_loop fuel false next bytes total')) g.2
          (ih next bytes total' g.0 g.1 (omega arith))
    after assert_failed g ih = absurd g
    after bad_access g ih = absurd g
    after no_fuel g ih = absurd g

-- In the release build, put_data on any bytes whatever ends, returns the count of all of them,
-- and keeps the bookkeeping: however the peer frames its data, the queue stays within its limits.
pub put_data-TakesAll :
    (im : Impl) (bytes : List ℕ)
    → IsValid im
    → All IsByte bytes
    → TakesAll (length bytes) (put_data false im bytes)
unfolding put_data
put_data-TakesAll im bytes v h =
    subst (λ t. TakesAll t (put_data_loop (suc (length bytes)) false im bytes 0)) (omega arith)
      (put_data_loop-TakesAll (suc (length bytes)) im bytes 0 v h (omega arith))
