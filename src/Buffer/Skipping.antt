-- ===== src/Buffer/Skipping.antt =====
-- src/lib/buffer.cpp where a message that is refused is to be skipped, and arrives in two pieces.
use etwork.Common.{
  ℕ, ◌+◌, ◌-◌, ◌*◌, ◌/◌, ◌%◌, ◌^◌, ◌<◌, true, false, List, [], ◌∷◌, ◌++◌, none, some, ◌≡◌, ap, ◌∙◌,
  inl, inr, arith, length, drop_all, take_all, memcpy, memcpy_all, ◌==◌, map-append,
}
use etwork.Common.Bytes.{sub_size, fresh_bytes, length-fresh_bytes}
use etwork.Buffer.{Message, Impl, no_size, clip, new_message}
use etwork.Buffer.Run.{done}
use etwork.Buffer.PutData.{
  put_data, put_data_loop, round, read_size, allocate, take_data, skip_data, fill_target, to_read,
  copy_bytes,
}
use etwork.Buffer.Frames.{frame, IsIdle, IsIdle-idle, idle, skipping, allocate-none}
use etwork.Buffer.Invariant.{IsValid, Fits, fresh, appended, new_message-Fits, new_message_cases}
use etwork.Buffer.Wire.{contents}

put_refused :
    (im : Impl) (n : ℕ) (p : List ℕ)
    → new_message im n ≡ none
    → n < 2 ^ 16
    → length p < n
    → put_data false (idle im) (n / 256 ∷ n % 256 ∷ p)
      ≡ done (skipping im (n - length p), 2 + length p)
unfolding put_data put_data_loop round read_size take_data skip_data
put_refused im n p e h k =
    let size : n / 256 * 256 + n % 256 ≡ n = omega arith in
    let skip : clip n (length p) ≡ length p = unfold clip in ground arith in
    let left : sub_size n (length p) ≡ n - length p = omega arith in
    rw (size, allocate-none false im n h e, skip, left, drop_all (length p) p (omega arith))
      (ap (λ t. done (skipping im (n - length p), t)) (omega arith))

allocate_skipping :
    (im : Impl) (n k : ℕ) (w : Message)
    → n < 2 ^ 16
    → new_message im n ≡ some w
    → allocate false (record im { cur_target = none; to_skip = k; tmp_size = n })
      ≡ done (record im { cur_target = some w; to_skip = k; tmp_size = no_size })
unfolding allocate new_message
allocate_skipping im n k w h e = ground arith

-- The message behind the queue, with some bytes still to be skipped.
abbrev pub appended_skipping : Impl → List ℕ → ℕ → Impl
appended_skipping im m k = record (appended im m) {
  cur_target = none;
  to_skip = k;
  tmp_size = no_size;
}

copy_skipping :
    (im : Impl) (m : List ℕ) (k : ℕ)
    → IsValid im
    → Fits im (length m)
    → copy_bytes
        (record im { cur_target = some (fresh im (length m)); to_skip = k; tmp_size = no_size })
        (fresh im (length m))
        (length m)
        m
      ≡ appended_skipping im m k
unfolding copy_bytes
copy_skipping im m k v f =
    let full : (length m == (0 + length m) % 2 ^ 16) ≡ true = ground arith in
    let same : memcpy (fresh_bytes im.fill (length m)) m ≡ m =
      memcpy_all _ m (omega (arith, length-fresh_bytes im.fill (length m))) in
    rw (take_all (length m) m (omega arith), full, same)
      (ap (λ k'. record (appended_skipping im m k) { written = k' }) (omega arith))

put_unskipped :
    (im : Impl) (m : List ℕ) (k : ℕ)
    → IsValid im
    → Fits im (length m)
    → put_data false (skipping im k) (frame m) ≡ done (appended_skipping im m k, 2 + length m)
unfolding put_data put_data_loop round read_size take_data fill_target
put_unskipped im m k v f =
    let size : length m / 256 * 256 + length m % 256 ≡ length m = omega arith in
    let read : to_read (fresh im (length m)) (length m) ≡ length m =
      unfold to_read clip in ground arith in
    rw
      (
        size,
        allocate_skipping im (length m) k (fresh im (length m)) (omega arith)
            (new_message-Fits im (length m) v f),
        read,
        copy_skipping im m k v f,
        drop_all (length m) m (omega arith),
      )
      (ap (λ t. done (appended_skipping im m k, t)) (omega arith))

-- A message that is refused, of n bytes of which the first piece brings fewer: in the release build
-- the next call reads a size from what should be skipped. If the rest of the refused message looks
-- like a frame, its inside is queued as a message.
pub put_data-split_refused :
    (im : Impl) (n : ℕ) (p m : List ℕ)
    → IsValid im
    → IsIdle im
    → n < 2 ^ 16
    → ¬ Fits im n
    → n ≡ length p + length (frame m)
    → Fits im (length m)
    → (put_data false im (n / 256 ∷ n % 256 ∷ p)
        ≡ done (skipping im (length (frame m)), 2 + length p))
      × (put_data false (skipping im (length (frame m))) (frame m)
          ≡ done (appended_skipping im m (length (frame m)), length (frame m)))
      × (contents (appended_skipping im m (length (frame m))) ≡ contents im ++ (m ∷ []))
put_data-split_refused im n p m v free h no_fit e f = elim (new_message_cases im n v) [
  | inl (fit, _) ↦ absurd (no_fit fit)
  | inr (_, none_made) ↦
      let left : n - length p ≡ length (frame m) = omega arith in
      (
        ap (λ j. put_data false j (n / 256 ∷ n % 256 ∷ p)) (IsIdle-idle im free)
            ∙ put_refused im n p none_made h (omega arith)
            ∙ ap (λ k. done (skipping im k, 2 + length p)) left,
        put_unskipped im m (length (frame m)) v f
            ∙ ap (λ t. done (appended_skipping im m (length (frame m)), t)) (omega arith),
        map-append _ im.queue _,
      )
]
