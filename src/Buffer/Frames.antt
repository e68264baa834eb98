-- ===== src/Buffer/Frames.antt =====
-- The framing of src/lib/buffer.cpp, and whole frames that arrive in one piece.
use etwork.Common.{
  ℕ, zero, suc, ◌+◌, ◌/◌, ◌%◌, ◌^◌, ◌<◌, Bool, true, false, List, [], ◌∷◌, ◌++◌, none, some, ◌≡◌,
  refl, ap, ◌∙◌, sym, arith, length, ltb, All, length-append, take-append, drop-append, inl, inr,
  ◌⊎◌, Option-cases,
}
use etwork.Common.Bytes.{length-fresh_bytes}
use etwork.Buffer.{Message, Impl, no_size, clip, new_message, put_message}
use etwork.Buffer.Run.{done, ◌>>=◌, ◌>>◌, assert}
use etwork.Buffer.PutData.{
  put_data, put_data_loop, round, read_size, allocate, take_data, skip_data, fill_target, to_read,
  copy_bytes, Step, go_on,
}

-- A two-byte length in network order, and the message.
abbrev pub frame : List ℕ → List ℕ
frame m = length m / 256 ∷ length m % 256 ∷ m

abbrev pub frames : List (List ℕ) → List ℕ
frames [] = []
frames (m ∷ ms) = frame m ++ frames ms

-- Neither half a size, nor half a message, nor a message to skip.
pub record IsIdle (im : Impl) : Type 0 where
  pub no_target : im.cur_target ≡ none
  pub no_half : im.tmp_size ≡ no_size
  pub no_skip : im.to_skip ≡ 0

-- The state between two frames, after the size of one, and with its message as the target.
abbrev pub idle : Impl → Impl
idle im = record im { cur_target = none; to_skip = 0; tmp_size = no_size }

abbrev pub sized : Impl → ℕ → Impl
sized im n = record im { cur_target = none; to_skip = 0; tmp_size = n }

abbrev pub targeted : Impl → Message → Impl
targeted im w = record im { cur_target = some w; to_skip = 0; tmp_size = no_size }

abbrev pub skipping : Impl → ℕ → Impl
skipping im n = record im { cur_target = none; to_skip = n; tmp_size = no_size }

pub IsIdle-idle : (im : Impl) → IsIdle im → im ≡ idle im
IsIdle-idle im h = ground arith

pub read_size-frame :
    (debug : Bool) (im : Impl) (m rest : List ℕ) (total : ℕ)
    → read_size debug (idle im) (frame m ++ rest) total
      ≡ done (go_on (sized im (length m)) (m ++ rest) (total + 2))
unfolding read_size
read_size-frame debug im m rest total =
    ap (λ n. done (go_on (sized im n) (m ++ rest) (total + 2))) (omega arith)

pub allocate-some :
    (debug : Bool) (im : Impl) (n : ℕ) (w : Message)
    → n < 2 ^ 16
    → new_message im n ≡ some w
    → allocate debug (sized im n) ≡ done (targeted im w)
unfolding allocate new_message
allocate-some true im n w h e = ground arith
allocate-some false im n w h e = ground arith

pub allocate-none :
    (debug : Bool) (im : Impl) (n : ℕ)
    → n < 2 ^ 16
    → new_message im n ≡ none
    → allocate debug (sized im n) ≡ done (skipping im n)
unfolding allocate new_message
allocate-none true im n h e = ground arith
allocate-none false im n h e = ground arith

-- What new_message gives when it gives something.
pub new_message-some :
    (im : Impl) (n : ℕ) (w : Message)
    → new_message im n ≡ some w
    → (w.offset ≡ 0) × (w.size ≡ n % 2 ^ 16) × (length w.payload ≡ n)
unfolding new_message
new_message-some im n w e = ground (arith, length-fresh_bytes im.fill n)

to_read_all :
    (w : Message) (m rest : List ℕ)
    → w.offset ≡ 0
    → w.size ≡ length m
    → length m < 2 ^ 16
    → to_read w (length (m ++ rest)) ≡ length m
unfolding to_read
to_read_all w m rest o e h = ground (arith, length-append m rest)

copy_bytes_all :
    (im : Impl) (w : Message) (m rest : List ℕ)
    → new_message im (length m) ≡ some w
    → length m < 2 ^ 16
    → copy_bytes (targeted im w) w (length m) (m ++ rest) ≡ idle (put_message im m).0
unfolding copy_bytes put_message
copy_bytes_all im w m rest e h =
    rw (e, put_message, take-append m rest) (ground (arith, new_message-some im (length m) w e))

pub assert_both :
    (debug : Bool) (s : Step) → (assert debug true >> (assert debug true >> done s)) ≡ done s
assert_both true s = refl
assert_both false s = refl

take_data-some :
    (debug : Bool) (im : Impl) (m rest : List ℕ) (total : ℕ) (w : Message)
    → length m < 2 ^ 16
    → new_message im (length m) ≡ some w
    → take_data debug (targeted im w) (m ++ rest) total
      ≡ done (go_on (idle (put_message im m).0) rest (total + length m))
unfolding take_data fill_target
take_data-some debug im m rest total w h e =
    let (o, s, _) = new_message-some im (length m) w e in
    let n : to_read w (length (m ++ rest)) ≡ length m = to_read_all w m rest o (omega arith) h in
    rw (n, copy_bytes_all im w m rest e h, drop-append m rest) (assert_both debug _)

clip_all : (n : ℕ) (m rest : List ℕ) → n ≡ length m → clip n (length (m ++ rest)) ≡ length m
unfolding clip
clip_all n m rest e = ground (arith, length-append m rest)

pub assert_positive :
    (debug : Bool) (n : ℕ) (s : Step)
    → (0 < n) ⊎ (debug ≡ false)
    → (assert debug (ltb 0 n) >> done s) ≡ done s
assert_positive true n s (inl h) = ground arith
assert_positive true n s (inr e) = cc
assert_positive false n s h = refl

take_data_none :
    (debug : Bool) (im : Impl) (m rest : List ℕ) (total : ℕ)
    → (0 < length m) ⊎ (debug ≡ false)
    → length m < 2 ^ 16
    → take_data debug (skipping im (length m)) (m ++ rest) total
      ≡ done (go_on (idle im) rest (total + length m))
unfolding take_data skip_data
take_data_none debug im m rest total ok h =
    rw (clip_all (length m) m rest refl, drop-append m rest)
      (assert_positive debug (length m) _ ok
        ∙ ap (λ k. done (go_on (skipping im k) rest (total + length m))) (omega arith))

-- With the size of a message at hand, and the message, the round does what put_message does.
pub allocate-take_data :
    (debug : Bool) (im : Impl) (m rest : List ℕ) (total : ℕ)
    → (0 < length m) ⊎ (debug ≡ false)
    → length m < 2 ^ 16
    → (allocate debug (sized im (length m)) >>= λ next. take_data debug next (m ++ rest) total)
      ≡ done (go_on (idle (put_message im m).0) rest (total + length m))
unfolding put_message
allocate-take_data debug im m rest total ok h = elim (Option-cases (new_message im (length m))) [
  | inl e ↦
      rw (allocate-none debug im (length m) h e, e, put_message)
        (take_data_none debug im m rest total ok h)
  | inr (w, e) ↦
      rw (allocate-some debug im (length m) w h e) (take_data-some debug im m rest total w h e)
]

-- One frame that arrives whole takes one round, and does what put_message does.
round-frame :
    (debug : Bool) (im : Impl) (m rest : List ℕ) (total : ℕ)
    → (0 < length m) ⊎ (debug ≡ false)
    → length m < 2 ^ 16
    → round debug (idle im) (frame m ++ rest) total
      ≡ done (go_on (idle (put_message im m).0) rest (total + 2 + length m))
unfolding round
round-frame debug im m rest total ok h =
    rw (read_size-frame debug im m rest total) (allocate-take_data debug im m rest (total + 2) ok h)

-- The messages of a list, put one after the other.
unfoldable pub put_messages : Impl → List (List ℕ) → Impl
put_messages im [] = im
put_messages im (m ∷ ms) = put_messages (put_message im m).0 ms

-- A frame that the debug build takes without a failed assert, and every build without a wrap.
abbrev pub IsFramed : Bool → List ℕ → Type 0
IsFramed debug m = ((0 < length m) ⊎ (debug ≡ false)) × (length m < 2 ^ 16)

put_data_loop-frames :
    (fuel : ℕ) (debug : Bool) (im : Impl) (ms : List (List ℕ)) (total : ℕ)
    → All (IsFramed debug) ms
    → length (frames ms) < fuel
    → put_data_loop fuel debug (idle im) (frames ms) total
      ≡ done (idle (put_messages im ms), total + length (frames ms))
unfolding put_data_loop put_messages
put_data_loop-frames zero debug im ms total ok h = absurd (omega arith)
put_data_loop-frames (suc fuel) debug im [] total ok h = ap (λ t. done (idle im, t)) (omega arith)
put_data_loop-frames (suc fuel) debug im (m ∷ ms) total ok h =
    rw (round-frame debug im m (frames ms) total ok.0.0 ok.0.1) (
      put_data_loop-frames fuel debug (put_message im m).0 ms (total + 2 + length m) ok.1
        (omega (arith, length-append m (frames ms)))
      ∙ ap (λ t. done (idle (put_messages (put_message im m).0 ms), t))
          (omega (arith, length-append m (frames ms))))

pub put_message-IsIdle : (im : Impl) (m : List ℕ) → IsIdle im → IsIdle (put_message im m).0
unfolding put_message
put_message-IsIdle im m h = ground arith

pub put_messages-IsIdle : (im : Impl) (ms : List (List ℕ)) → IsIdle im → IsIdle (put_messages im ms)
unfolding put_messages
put_messages-IsIdle im [] h = h
put_messages-IsIdle im (m ∷ ms) h =
    put_messages-IsIdle (put_message im m).0 ms (put_message-IsIdle im m h)

-- On a buffer that is idle, put_data of whole frames (of nonempty messages, or in a release build)
-- fails no assert, takes every byte, and leaves the buffer that put_message leaves when it is
-- given the messages in turn, those that it refuses included.
pub put_data-frames :
    (debug : Bool) (im : Impl) (ms : List (List ℕ))
    → IsIdle im
    → All (IsFramed debug) ms
    → put_data debug im (frames ms) ≡ done (put_messages im ms, length (frames ms))
unfolding put_data
put_data-frames debug im ms free ok =
    ap (λ j. put_data_loop (suc (length (frames ms))) debug j (frames ms) 0) (IsIdle-idle im free)
    ∙ put_data_loop-frames (suc (length (frames ms))) debug im ms 0 ok (omega arith)
    ∙ ap (λ j. done (j, 0 + length (frames ms)))
        (sym (IsIdle-idle (put_messages im ms) (put_messages-IsIdle im ms free)))
    ∙ ap (λ t. done (put_messages im ms, t)) (omega arith)
