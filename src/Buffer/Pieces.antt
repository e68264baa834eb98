-- ===== src/Buffer/Pieces.antt =====
-- src/lib/buffer.cpp where data comes and goes in pieces: a frame that is split between two calls
-- of put_data, and a message that is split between two calls of get_data.
use etwork.Common.{
  ℕ, ◌+◌, ◌*◌, ◌/◌, ◌%◌, ◌^◌, ◌≤◌, ◌<◌, Bool, true, false, List, [], ◌∷◌, ◌++◌, none, some, ◌≡◌,
  ◌≢◌, refl, ap, ◌∙◌, sym, ◌⊎◌, inl, inr, arith, length, map-append, take_all, drop_all, memcpy,
  ◌==◌, append-nil,
}
use etwork.Common.Bytes.{add_size, fresh_bytes}
use etwork.Buffer.{Message, Impl, no_size, clip, new_message, push_back, put_message}
use etwork.Buffer.Run.{Run, done, assert_failed, ◌>>=◌, ◌>>◌, assert}
use etwork.Buffer.PutData.{
  Step, go_on, put_data, put_data_loop, round, read_size, allocate, take_data, skip_data,
  fill_target, to_read, copy_bytes,
}
use etwork.Buffer.Frames.{
  IsIdle, idle, IsIdle-idle, sized, targeted, assert_both, allocate-none, allocate-some,
  read_size-frame, allocate-take_data,
}
use etwork.Buffer.Invariant.{IsValid, Fits, fresh, new_message-Fits, new_message_cases}
use etwork.Buffer.Wire.{contents}

-- The state with the high byte of a size at hand.
abbrev pub half_sized : Impl → ℕ → Impl
half_sized im b = record im { cur_target = none; to_skip = 0; tmp_size = b * 256 }

put_half :
    (debug : Bool) (im : Impl) (b : ℕ)
    → put_data debug (idle im) (b ∷ []) ≡ done (half_sized im b, 1)
unfolding put_data put_data_loop round read_size
put_half debug im b = refl

put_rest :
    (debug : Bool) (im : Impl) (b c : ℕ) (m : List ℕ)
    → b * 256 + c ≡ length m
    → c < 256
    → (0 < length m) ⊎ (debug ≡ false)
    → length m < 2 ^ 16
    → put_data debug (half_sized im b) (c ∷ m) ≡ done (idle (put_message im m).0, 1 + length m)
unfolding put_data put_data_loop round read_size
put_rest debug im b c m e hc ok h =
    let half : (b * 256 == no_size) ≡ false = ground arith in
    let size : add_size (b * 256) c ≡ length m = omega arith in
    let whole = rw (append-nil m) at (allocate-take_data debug im m [] (0 + 1) ok h) in
    rw (half, size, assert_both debug (go_on (sized im (length m)) m (0 + 1)), whole) refl

-- A frame whose size is split between two calls: the first call keeps the one byte, and after the
-- second, with the rest of the frame, the buffer is as put_message leaves it.
pub put_data-split_size :
    (debug : Bool) (im : Impl) (b c : ℕ) (m : List ℕ)
    → IsIdle im
    → b * 256 + c ≡ length m
    → c < 256
    → (0 < length m) ⊎ (debug ≡ false)
    → length m < 2 ^ 16
    → (put_data debug im (b ∷ []) ≡ done (half_sized im b, 1))
      × (put_data debug (half_sized im b) (c ∷ m) ≡ done (idle (put_message im m).0, 1 + length m))
put_data-split_size debug im b c m free e hc ok h = (
  ap (λ j. put_data debug j (b ∷ [])) (IsIdle-idle im free) ∙ put_half debug im b,
  put_rest debug im b c m e hc ok h,
)

-- The debug build on the frame of an empty message that is refused: nothing is to be skipped, and
-- assert( toSkip_ > 0 ) fails.
pub put_data-empty_refused :
    (im : Impl) (rest : List ℕ)
    → IsValid im
    → IsIdle im
    → ¬ Fits im 0
    → put_data true im (0 ∷ 0 ∷ rest) ≡ assert_failed
unfolding put_data put_data_loop round take_data skip_data
put_data-empty_refused im rest v free full = elim (new_message_cases im 0 v) [
  | inl (f, _) ↦ absurd (full f)
  | inr (_, e) ↦
      ap (λ j. put_data true j (0 ∷ 0 ∷ rest)) (IsIdle-idle im free)
      ∙ rw (read_size-frame true im [] rest 0, allocate-none true im 0 (omega arith) e) refl
]

-- The target of a message of n bytes when the piece p of it has come.
abbrev pub begun : Impl → ℕ → List ℕ → Impl
begun im n p =
    targeted im (record { offset = length p; size = n; payload = memcpy (fresh_bytes im.fill n) p })

to_read_some : (w : Message) (n : ℕ) → w.offset + n ≤ w.size → w.size < 2 ^ 16 → to_read w n ≡ n
unfolding to_read clip
to_read_some w n h k = ground arith

asserts_then {ℓ} :
    {A : Type ℓ} (debug : Bool) (s : Step) (k : Step → Run A)
    → ((assert debug true >> (assert debug true >> done s)) >>= k) ≡ k s
asserts_then true s k = refl
asserts_then false s k = refl

put_first :
    (debug : Bool) (im : Impl) (p q : List ℕ)
    → 0 < length p
    → 0 < length q
    → length p + length q < 2 ^ 16
    → new_message im (length p + length q) ≡ some (fresh im (length p + length q))
    → put_data debug (idle im) ((length p + length q) / 256 ∷ (length p + length q) % 256 ∷ p)
      ≡ done (begun im (length p + length q) p, 2 + length p)
unfolding put_data put_data_loop round read_size take_data fill_target copy_bytes
put_first debug im p q hp hq h e =
    let n = length p + length q in
    let size : n / 256 * 256 + n % 256 ≡ n = omega arith in
    let w = fresh im n in
    let read : to_read w (length p) ≡ length p = to_read_some w (length p) (omega arith) h in
    let small : (n == (0 + length p) % 2 ^ 16) ≡ false = ground arith in
    rw
      (
        size,
        allocate-some debug im n w h e,
        read,
        small,
        take_all (length p) p (omega arith),
        drop_all (length p) p (omega arith),
      )
      (asserts_then debug _ _ ∙ ends)
  where
    ends :
        ◌≡◌ {A = Run (Impl × ℕ)}
          (done (
            targeted im (record {
              offset = (0 + length p) % 2 ^ 16;
              size = length p + length q;
              payload = memcpy (fresh_bytes im.fill (length p + length q)) p;
            }),
            0 + 2 + length p,
          ))
          (done (begun im (length p + length q) p, 2 + length p))
    ends = ground arith

-- The queue when both pieces have come: the second was copied over the start of the first.
abbrev pub overwritten : Impl → List ℕ → List ℕ → List ℕ
overwritten im p q = memcpy (memcpy (fresh_bytes im.fill (length p + length q)) p) q

abbrev pub ended : Impl → List ℕ → List ℕ → Impl
ended im p q = idle (
    push_back im (record { offset = 0; size = length p + length q; payload = overwritten im p q })
      (length p + length q))

copy_last :
    (im : Impl) (p q : List ℕ)
    → length p + length q < 2 ^ 16
    → copy_bytes
        (begun im (length p + length q) p)
        (record {
          offset = length p;
          size = length p + length q;
          payload = memcpy (fresh_bytes im.fill (length p + length q)) p;
        })
        (length q)
        q
      ≡ ended im p q
unfolding copy_bytes
copy_last im p q h =
    let full : (length p + length q == (length p + length q) % 2 ^ 16) ≡ true = ground arith in
    rw (take_all (length q) q (omega arith), full) refl

put_second :
    (debug : Bool) (im : Impl) (p q : List ℕ)
    → 0 < length q
    → length p + length q < 2 ^ 16
    → put_data debug (begun im (length p + length q) p) q ≡ done (ended im p q, length q)
unfolding put_data put_data_loop round read_size allocate take_data fill_target
put_second debug im p [] hq h = absurd (omega arith)
put_second debug im p (y ∷ qs) hq h =
    let q : List ℕ = y ∷ qs in
    let w : Message = record {
      offset = length p;
      size = length p + length q;
      payload = memcpy (fresh_bytes im.fill (length p + length q)) p;
    } in
    let read : to_read w (length q) ≡ length q = to_read_some w (length q) (omega arith) h in
    rw (read, copy_last im p q h, drop_all (length q) q (omega arith))
      (asserts_then debug _ _ ∙ ap (λ t. done (ended im p q, t)) (omega arith))

append-cancel : (xs : List (List ℕ)) (a b : List ℕ) → xs ++ (a ∷ []) ≡ xs ++ (b ∷ []) → a ≡ b
append-cancel [] a b e = cc
append-cancel (x ∷ xs) a b e = append-cancel xs a b (cc)

-- A message that is accepted, and arrives in two pieces: the second piece is copied over the start
-- of the first. If the pieces begin with different bytes, what is queued is not what was sent.
pub put_data-split_message :
    (debug : Bool) (im : Impl) (x y : ℕ) (ps qs : List ℕ)
    → IsValid im
    → IsIdle im
    → Fits im (length (x ∷ ps) + length (y ∷ qs))
    → x ≢ y
    → (put_data debug im (
          (length (x ∷ ps) + length (y ∷ qs)) / 256
          ∷ (length (x ∷ ps) + length (y ∷ qs)) % 256
          ∷ x
          ∷ ps)
        ≡ done (begun im (length (x ∷ ps) + length (y ∷ qs)) (x ∷ ps), 2 + length (x ∷ ps)))
      × (put_data debug (begun im (length (x ∷ ps) + length (y ∷ qs)) (x ∷ ps)) (y ∷ qs)
          ≡ done (ended im (x ∷ ps) (y ∷ qs), length (y ∷ qs)))
      × (contents (ended im (x ∷ ps) (y ∷ qs))
          ≡ contents im ++ (overwritten im (x ∷ ps) (y ∷ qs) ∷ []))
      × (contents (ended im (x ∷ ps) (y ∷ qs)) ≢ contents im ++ (((x ∷ ps) ++ (y ∷ qs)) ∷ []))
put_data-split_message debug im x y ps qs v free f differ =
    let p : List ℕ = x ∷ ps in
    let q : List ℕ = y ∷ qs in
    let small : length p + length q < 2 ^ 16 = omega arith in
    (
      ap (λ j. put_data debug j ((length p + length q) / 256 ∷ (length p + length q) % 256 ∷ p))
            (IsIdle-idle im free)
          ∙ put_first debug im p q (omega arith) (omega arith) small
              (new_message-Fits im (length p + length q) v f),
      put_second debug im p q (omega arith) small,
      map-append _ im.queue _,
      λ e. other (append-cancel (contents im) _ _ (sym (map-append _ im.queue _) ∙ e)),
    )
  where
    other : overwritten im (x ∷ ps) (y ∷ qs) ≢ (x ∷ ps) ++ (y ∷ qs)
    other e = differ (cc)
