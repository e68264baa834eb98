-- ===== src/Buffer/Filling.antt =====
-- The part of put_data of src/lib/buffer.cpp that fills a target, on any bytes, in a release build.
use etwork.Common.{
  ℕ, zero, suc, ◌+◌, ◌-◌, ◌%◌, ◌^◌, ◌≤◌, ◌<◌, false, List, [], ◌∷◌, none, some, ◌≡◌, refl, ◌⊎◌, inl,
  inr, arith, length, take, drop, memcpy, ◌==◌, All, length-append, length-take, length-drop,
  length-memcpy, Bool-cases,
}
use etwork.Common.Bytes.{IsByte}
use etwork.Buffer.{Message, Impl, no_size, clip, push_back}
use etwork.Buffer.Run.{Run, done, assert_failed, bad_access, no_fuel}
use etwork.Buffer.PutData.{Step, return, go_on, to_read, copy_bytes, fill_target}
use etwork.Buffer.Invariant.{IsValid, sizes-push, All-push}

-- The state with no message and no half of a size on the way.
abbrev pub cleared : Impl → Impl
cleared im = record im { cur_target = none; tmp_size = no_size }

pub cleared-IsValid : (im : Impl) → IsValid im → IsValid (cleared im)
cleared-IsValid im v = record {
  counted = v.counted;
  few = v.few;
  bounded = v.bounded;
  whole = v.whole;
  room = tt;
  limits = v.limits;
  shorts = v.shorts;
  half = inl refl;
}

-- As HasRoom, but the message may have come in whole.
pub record RoomFor (im : Impl) (w : Message) : Type 0 where
  pub queued : length im.queue < im.max_num_messages
  pub total : im.written + w.size ≤ im.queue_size
  pub begun : w.offset ≤ w.size
  pub sized : w.size ≡ length w.payload
  pub short : w.size ≤ im.max_msg_size

copied_length :
    (w : Message) (n : ℕ) (bytes : List ℕ)
    → n ≤ length bytes
    → n ≤ w.size
    → w.size ≡ length w.payload
    → w.size ≡ length (memcpy w.payload (take n bytes))
copied_length w n bytes h k e =
    omega (arith, length-memcpy w.payload (take n bytes), length-take n bytes)

pushed-IsValid :
    (im : Impl) (w : Message) (payload : List ℕ)
    → IsValid (cleared im)
    → im.tmp_size ≡ no_size
    → RoomFor im w
    → w.size ≡ length payload
    → IsValid
        (record (push_back im (record { offset = 0; size = w.size; payload = payload }) w.size) {
          cur_target = none;
        })
pushed-IsValid im w payload v e r l =
    let m : Message = record { offset = 0; size = w.size; payload = payload } in
    record {
      counted = omega (arith, sizes-push im.queue m);
      few = omega (arith, length-append im.queue (m ∷ []));
      bounded = omega arith;
      whole =
          All-push im.queue m v.whole (record { at_start = refl; sized = l; short = omega arith });
      room = tt;
      limits = v.limits;
      shorts = v.shorts;
      half = inl e;
    }

partial-IsValid :
    (im : Impl) (w : Message)
    → IsValid (cleared im)
    → im.tmp_size ≡ no_size
    → RoomFor im w
    → w.offset < w.size
    → IsValid (record im { cur_target = some w })
partial-IsValid im w v e r h = record {
  counted = v.counted;
  few = v.few;
  bounded = v.bounded;
  whole = v.whole;
  room = omega arith;
  limits = v.limits;
  shorts = v.shorts;
  half = inl e;
}

copy_bytes-IsValid :
    (im : Impl) (w : Message) (n : ℕ) (bytes : List ℕ)
    → IsValid (cleared im)
    → im.tmp_size ≡ no_size
    → RoomFor im w
    → n ≤ length bytes
    → w.offset + n ≤ w.size
    → IsValid (copy_bytes im w n bytes)
unfolding copy_bytes
copy_bytes-IsValid im w n bytes v e r h k =
    let l : w.size ≡ length (memcpy w.payload (take n bytes)) =
      copied_length w n bytes h (omega arith) r.sized in
    elim (Bool-cases (w.size == (w.offset + n) % 2 ^ 16)) [
      | inl t ↦ rw t (pushed-IsValid im w _ v e r l)
      | inr f ↦ rw f (
          partial-IsValid im _ v e
            (record {
              queued = r.queued;
              total = r.total;
              begun = omega arith;
              sized = l;
              short = r.short;
            })
            (ground arith))
    ]

-- After a round, or a step of it.
abbrev pub Goes : ℕ → ℕ → Run Step → Type 0
Goes len total (done (go_on im bytes total')) =
    IsValid im × All IsByte bytes × (total' + length bytes ≡ total + len) × (length bytes < len)
Goes len total (done (return im total')) = IsValid im × (total' ≡ total + len)
Goes len total assert_failed = ⊥
Goes len total bad_access = ⊥
Goes len total no_fuel = ⊥

pub All-drop : (n : ℕ) (bytes : List ℕ) → All IsByte bytes → All IsByte (drop n bytes)
All-drop zero bytes h = h
All-drop (suc n) [] h = tt
All-drop (suc n) (b ∷ bs) h = All-drop n bs h.1

to_read_le :
    (w : Message) (n : ℕ)
    → w.offset ≤ w.size
    → w.size < 2 ^ 16
    → (to_read w n ≤ n) × (w.offset + to_read w n ≤ w.size)
unfolding to_read clip
to_read_le w n h k = ground arith

to_read_pos : (w : Message) (n : ℕ) → w.offset < w.size → w.size < 2 ^ 16 → 0 < n → 0 < to_read w n
unfolding to_read clip
to_read_pos w n h k l = ground arith

fewer :
    (w : Message) (len left : ℕ)
    → w.size < 2 ^ 16
    → (left < len) ⊎ ((left ≡ len) × (w.offset < w.size) × (0 < len))
    → left - to_read w left < len
fewer w len left h (inl p) = omega arith
fewer w len left h (inr (p, q, r)) = omega (arith, to_read_pos w left q h (omega arith))

pub fill_target-Goes :
    (im : Impl) (w : Message) (bytes : List ℕ) (len total taken : ℕ)
    → IsValid (cleared im)
    → im.tmp_size ≡ no_size
    → RoomFor im w
    → All IsByte bytes
    → taken + length bytes ≡ total + len
    → (length bytes < len) ⊎ ((length bytes ≡ len) × (w.offset < w.size) × (0 < len))
    → Goes len total (fill_target false im w bytes taken)
unfolding fill_target
fill_target-Goes im w bytes len total taken v e r b s p =
    let n = to_read w (length bytes) in
    let (le, room) = to_read_le w (length bytes) r.begun (omega arith) in
    (
      copy_bytes-IsValid im w n bytes v e r le room,
      All-drop n bytes b,
      omega (arith, length-drop n bytes),
      rw (length-drop n bytes) (fewer w len (length bytes) (omega arith) p),
    )
