-- ===== src/Buffer/Wire.antt =====
-- The wire protocol of src/lib/buffer.cpp end to end: put_message, get_data on one side, put_data
-- and get_message on the other.
use etwork.Common.{
  ℕ, zero, suc, ◌+◌, ◌-◌, ◌/◌, ◌%◌, ◌^◌, ◌≤◌, ◌<◌, true, false, List, [], ◌∷◌, ◌++◌, map, some, ◌≡◌,
  refl, ap, ◌∙◌, sym, inl, inr, arith, length, take, take_all, ltb, ◌==◌, if◌then◌else◌, All, ap₃,
  length-append, append-nil, append_assoc, Bool-cases, ltb→lt,
}
use etwork.Common.Bytes.{sub_size}
use etwork.Buffer.{Message, Impl, clip}
use etwork.Buffer.Run.{done}
use etwork.Buffer.GetData.{
  Output, to_write, write_bytes, write_size, write_message, get_data_loop, get_data,
}
use etwork.Buffer.Frames.{frame, frames}
use etwork.Buffer.Invariant.{IsValid, IsWhole, sizes}

-- The messages of a queue, oldest first: what a Buffer is to its user.
abbrev pub payloads : List Message → List (List ℕ)
payloads ms = map (λ w. w.payload) ms

abbrev pub contents : Impl → List (List ℕ)
contents im = payloads im.queue

-- The buffer with another queue.
abbrev pub holding : Impl → List Message → Impl
holding im ms = record im { queue = ms; written = sizes ms }

length-frame : (w : Message) → IsWhole w → length (frame w.payload) ≡ w.size + 2
length-frame w h = omega arith

abbrev sent : Impl → List Message → List ℕ → ℕ → ℕ → Output
sent im ms bytes m_size total = record {
  impl = holding im ms;
  bytes = bytes;
  m_size = m_size;
  total = total;
}

write_size-sent :
    (im : Impl) (w : Message) (ms : List Message) (bytes : List ℕ) (m_size total : ℕ)
    → IsWhole w
    → 2 ≤ m_size
    → m_size < 2 ^ 32
    → write_size w (sent im ms bytes m_size total)
      ≡ sent im ms
          (bytes ++ (length w.payload / 256 ∷ length w.payload % 256 ∷ []))
          (m_size - 2)
          (total + 2)
unfolding write_size
write_size-sent im w ms bytes m_size total h fits big =
    let start : (w.offset == 0) ≡ true = ground arith in
    rw start (
      ap₃ (λ x y m. sent im ms (bytes ++ (x ∷ y ∷ [])) m (total + 2)) (omega arith) (omega arith)
        (omega arith))

to_write_all : (w : Message) (m_size : ℕ) → IsWhole w → w.size ≤ m_size → to_write w m_size ≡ w.size
unfolding to_write clip
to_write_all w m_size h k = ground arith

write_message-sent :
    (im : Impl) (w : Message) (rest : List Message) (bytes : List ℕ) (m_size total : ℕ)
    → IsWhole w
    → w.size ≤ m_size
    → m_size < 2 ^ 32
    → sizes (w ∷ rest) ≤ 2 ^ 16
    → write_message w rest (sent im (w ∷ rest) bytes m_size total)
      ≡ sent im rest (bytes ++ w.payload) (m_size - w.size) (total + w.size)
unfolding write_message write_bytes
write_message-sent im w rest bytes m_size total h fits big few =
    let n : to_write w m_size ≡ w.size = to_write_all w m_size h fits in
    let ends : ((w.offset + w.size) % 2 ^ 16 == w.size) ≡ true = ground arith in
    let whole : take w.size w.payload ≡ w.payload = take_all w.size w.payload (omega arith) in
    let p : sub_size (w.size + sizes rest) w.size ≡ sizes rest = omega arith in
    let q : sub_size m_size w.size ≡ m_size - w.size = omega arith in
    rw (n, ends, whole)
      (λ i. record {
        impl = record im { queue = rest; written = p i };
        bytes = bytes ++ w.payload;
        m_size = q i;
        total = total + w.size;
      })

-- One round of get_data on a message that fits the room writes its frame.
write_frame :
    (im : Impl) (w : Message) (rest : List Message) (bytes : List ℕ) (m_size total : ℕ)
    → IsWhole w
    → w.size + 2 ≤ m_size
    → m_size < 2 ^ 32
    → sizes (w ∷ rest) ≤ 2 ^ 16
    → write_message w rest (write_size w (sent im (w ∷ rest) bytes m_size total))
      ≡ sent im rest (bytes ++ frame w.payload) (m_size - 2 - w.size) (total + 2 + w.size)
write_frame im w rest bytes m_size total h fits big few =
    ap (write_message w rest)
      (write_size-sent im w (w ∷ rest) bytes m_size total h (omega arith) big)
    ∙ write_message-sent im w rest _ (m_size - 2) (total + 2) h (omega arith) (omega arith) few
    ∙ ap (λ b. sent im rest b (m_size - 2 - w.size) (total + 2 + w.size))
        (append_assoc bytes _ w.payload)

-- The room that get_data leaves when it has written all the messages.
abbrev room_after : List Message → ℕ → ℕ
room_after [] m_size = m_size
room_after (w ∷ ms) m_size = room_after ms (m_size - 2 - w.size)

-- Where the loop returns for lack of room, there is no message left either.
stop_early :
    (fuel : ℕ) (im : Impl) (ms : List Message) (bytes : List ℕ) (m_size total : ℕ)
    → length (frames (payloads ms)) < m_size
    → length ms < fuel
    → ltb m_size 3 ≡ true
    → done (sent im ms bytes m_size total) ≡ get_data_loop fuel (sent im ms bytes m_size total)
unfolding get_data_loop
stop_early zero im ms bytes m_size total fits f e = absurd (omega arith)
stop_early (suc fuel) im [] bytes m_size total fits f e = refl
stop_early (suc fuel) im (w ∷ ms) bytes m_size total fits f e =
    absurd (omega (arith, ltb→lt m_size 3 e))

get_data_loop_step :
    (fuel : ℕ) (im : Impl) (w : Message) (ms : List Message) (bytes : List ℕ) (m_size total : ℕ)
    → IsWhole w
    → sizes (w ∷ ms) ≤ 2 ^ 16
    → length (frames (payloads (w ∷ ms))) < m_size
    → m_size < 2 ^ 32
    → length ms < fuel
    → get_data_loop (suc fuel) (sent im (w ∷ ms) bytes m_size total)
      ≡ get_data_loop fuel
          (sent im ms (bytes ++ frame w.payload) (m_size - 2 - w.size) (total + 2 + w.size))
unfolding get_data_loop
get_data_loop_step fuel im w ms bytes m_size total h few fits big f =
    let len = length-append w.payload (frames (payloads ms)) in
    let next = sent im ms (bytes ++ frame w.payload) (m_size - 2 - w.size) (total + 2 + w.size) in
    ap (λ o. let others = get_data_loop fuel o in if ltb o.m_size 3 then done o else others)
      (write_frame im w ms bytes m_size total h (omega (arith, len)) big few)
    ∙ elim (Bool-cases (ltb (m_size - 2 - w.size) 3)) [
      | inl t ↦ rw t (stop_early fuel im ms _ (m_size - 2 - w.size) _ (omega (arith, len)) f t)
      | inr t ↦ rw t refl
    ]

get_data_loop-frames :
    (fuel : ℕ) (im : Impl) (ms : List Message) (bytes : List ℕ) (m_size total : ℕ)
    → All IsWhole ms
    → sizes ms ≤ 2 ^ 16
    → length (frames (payloads ms)) < m_size
    → m_size < 2 ^ 32
    → length ms < fuel
    → get_data_loop fuel (sent im ms bytes m_size total)
      ≡ done (
          sent im []
            (bytes ++ frames (payloads ms))
            (room_after ms m_size)
            (total + length (frames (payloads ms))))
get_data_loop-frames zero im ms bytes m_size total h few fits big f = absurd (omega arith)
get_data_loop-frames (suc fuel) im [] bytes m_size total h few fits big f =
    unfold get_data_loop in λ i. done (sent im [] (sym (append-nil bytes) i) m_size (plus i))
  where
    plus : total ≡ total + 0
    plus = omega arith
get_data_loop-frames (suc fuel) im (w ∷ ms) bytes m_size total h few fits big f =
    let len = length-append w.payload (frames (payloads ms)) in
    let p : total + 2 + w.size + length (frames (payloads ms))
        ≡ total + length (frames (payloads (w ∷ ms))) =
      omega (arith, len) in
    get_data_loop_step fuel im w ms bytes m_size total h.0 few fits big (omega arith)
    ∙ get_data_loop-frames fuel im ms (bytes ++ frame w.payload) (m_size - 2 - w.size)
        (total + 2 + w.size) h.1 (omega arith) (omega (arith, len)) (omega arith) (omega arith)
    ∙ (λ i. done (
        sent im [] (append_assoc bytes (frame w.payload) (frames (payloads ms)) i)
          (room_after ms (m_size - 2 - w.size)) (p i)))

-- What get_data leaves when there was room for all.
abbrev pub emptied : Impl → Impl
emptied im = record im { queue = []; written = 0 }

-- With room for one byte more than all frames, get_data writes every message of the queue as a
-- frame, oldest first, returns the count of the bytes, and leaves the queue empty.
pub get_data-frames :
    (im : Impl) (m_size : ℕ)
    → IsValid im
    → 3 ≤ m_size
    → m_size < 2 ^ 32
    → length (frames (contents im)) < m_size
    → get_data im m_size
      ≡ done (emptied im, frames (contents im), some (length (frames (contents im))))
unfolding get_data
get_data-frames im m_size v three big fits =
    let room : ltb m_size 3 ≡ false = ground arith in
    rw (room, all) (ap (λ t. done (emptied im, frames (contents im), some t)) plus)
  where
    plus : 0 + length (frames (contents im)) ≡ length (frames (contents im))
    plus = omega arith

    all :
        get_data_loop
          (suc (length im.queue + m_size))
          (record { impl = im; bytes = []; m_size = m_size; total = 0 })
        ≡ done (
            sent im []
              (frames (contents im))
              (room_after im.queue m_size)
              (0 + length (frames (contents im))))
    all =
        ap
          (λ k.
            get_data_loop (suc (length im.queue + m_size))
              (record { impl = record im { written = k }; bytes = []; m_size = m_size; total = 0 }))
          v.counted
        ∙ get_data_loop-frames (suc (length im.queue + m_size)) im im.queue [] m_size 0 v.whole
            (omega arith) fits big (omega arith)
