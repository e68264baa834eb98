-- ===== src/Buffer/Split.antt =====
-- get_data of src/lib/buffer.cpp on a message that does not fit the caller's memory.
use etwork.Common.{
  ℕ, suc, ◌+◌, ◌-◌, ◌/◌, ◌%◌, ◌^◌, ◌≤◌, ◌<◌, true, false, List, [], ◌∷◌, ◌++◌, some, ◌≡◌, refl, ap,
  ◌∙◌, arith, length, take, ltb, ◌==◌, if◌then◌else◌, length-append, take-append, ◌≢◌, subst,
  Bool-cases, inl, inr,
}
use etwork.Common.Bytes.{sub_size}
use etwork.Buffer.{Message, Impl, clip}
use etwork.Buffer.Run.{done}
use etwork.Buffer.GetData.{
  Output, to_write, write_bytes, write_size, write_message, get_data_loop, get_data,
}
use etwork.Buffer.Frames.{frame}
use etwork.Buffer.Invariant.{IsWhole}

abbrev pub queueing : Impl → Message → Impl
queueing im w = record im { queue = w ∷ [] }

-- The message when n of its bytes are out.
abbrev pub partly : Message → ℕ → Message
partly w n = record w { offset = n }

to_write_clipped :
    (w : Message) (m_size : ℕ)
    → w.offset + m_size ≤ w.size
    → w.size < 2 ^ 16
    → to_write w m_size ≡ m_size
unfolding to_write clip
to_write_clipped w m_size h k = ground arith

to_write_left :
    (w : Message) (m_size : ℕ)
    → w.offset ≤ w.size
    → w.size < 2 ^ 16
    → w.size - w.offset ≤ m_size
    → to_write w m_size ≡ w.size - w.offset
unfolding to_write clip
to_write_left w m_size h k l = ground arith

get_first :
    (im : Impl) (w : Message) (m_size : ℕ)
    → IsWhole w
    → 3 ≤ m_size
    → m_size < w.size + 2
    → get_data (queueing im w) m_size
      ≡ done (
        queueing im (partly w (m_size - 2)),
        w.size / 256 ∷ w.size % 256 ∷ take (m_size - 2) w.payload,
        some m_size,
      )
unfolding get_data get_data_loop write_size write_message write_bytes
get_first im w m_size h three short =
    let room : ltb m_size 3 ≡ false = ground arith in
    let start : (w.offset == 0) ≡ true = ground arith in
    let less : sub_size m_size 2 ≡ m_size - 2 = omega arith in
    let n : to_write w (m_size - 2) ≡ m_size - 2 =
      to_write_clipped w (m_size - 2) (omega arith) h.short in
    let part : ((w.offset + (m_size - 2)) % 2 ^ 16 == w.size) ≡ false = ground arith in
    let out : sub_size (m_size - 2) (m_size - 2) ≡ 0 = omega arith in
    let o : (w.offset + (m_size - 2)) % 2 ^ 16 ≡ m_size - 2 = omega arith in
    let hi : w.size / 2 ^ 8 % 2 ^ 8 ≡ w.size / 256 = omega arith in
    let t : 0 + 2 + (m_size - 2) ≡ m_size = omega arith in
    rw (room, start, less, n, part, out)
      (λ i. done (
        queueing im (partly w (o i)),
        hi i ∷ w.size % 256 ∷ take (m_size - 2) w.payload,
        some (t i),
      ))

-- The buffer without its only message.
abbrev pub drained : Impl → Message → Impl
drained im w = record im { queue = []; written = sub_size im.written w.size }

abbrev started : Impl → ℕ → Output
started im m_size = record { impl = im; bytes = []; m_size = m_size; total = 0 }

abbrev finished : Impl → Message → List ℕ → ℕ → ℕ → Output
finished im w bytes m_size total = record {
  impl = drained im w;
  bytes = bytes;
  m_size = m_size;
  total = total;
}

-- A round that empties the queue is the last one.
last_round :
    (fuel : ℕ) (im : Impl) (w v : Message) (m_size : ℕ) (bytes : List ℕ) (room total : ℕ)
    → write_message v [] (write_size v (started (queueing im v) m_size))
      ≡ finished im w bytes room total
    → get_data_loop (suc (suc fuel)) (started (queueing im v) m_size)
      ≡ done (finished im w bytes room total)
unfolding get_data_loop
last_round fuel im w v m_size bytes room total e =
    ap (λ o. let others = get_data_loop (suc fuel) o in if ltb o.m_size 3 then done o else others) e
    ∙ elim (Bool-cases (ltb room 3)) [ inl t ↦ rw t refl | inr t ↦ rw t refl ]

write_rest :
    (im : Impl) (w : Message) (sent m_size : ℕ)
    → IsWhole w
    → 0 < sent
    → sent < w.size
    → w.size ≤ m_size
    → write_message
        (partly w sent)
        []
        (write_size (partly w sent) (started (queueing im (partly w sent)) m_size))
      ≡ finished im w
          (take (w.size - sent) w.payload)
          (sub_size m_size (w.size - sent))
          (0 + (w.size - sent))
unfolding write_size write_message write_bytes
write_rest im w sent m_size h pos less big =
    let start : (sent == 0) ≡ false = ground arith in
    let n : to_write (partly w sent) m_size ≡ w.size - sent =
      to_write_left (partly w sent) m_size (omega arith) h.short (omega arith) in
    let ends : ((sent + (w.size - sent)) % 2 ^ 16 == w.size) ≡ true = ground arith in
    rw (start, n, ends) refl

get_second :
    (im : Impl) (w : Message) (sent m_size : ℕ)
    → IsWhole w
    → 0 < sent
    → sent < w.size
    → 3 ≤ m_size
    → w.size ≤ m_size
    → get_data (queueing im (partly w sent)) m_size
      ≡ done (drained im w, take (w.size - sent) w.payload, some (w.size - sent))
unfolding get_data
get_second im w sent m_size h pos less three big =
    let room : ltb m_size 3 ≡ false = ground arith in
    let fuel : suc (1 + m_size) ≡ suc (suc m_size) = omega arith in
    let t : 0 + (w.size - sent) ≡ w.size - sent = omega arith in
    rw
      (
        room,
        fuel,
        last_round m_size im w (partly w sent) m_size _ _ _
            (write_rest im w sent m_size h pos less big),
      )
      (ap (λ k. done (drained im w, take (w.size - sent) w.payload, some k)) t)

-- A message of the given bytes.
abbrev pub message : List ℕ → Message
message m = record { offset = 0; size = length m; payload = m }

same_next : (ps us vs : List ℕ) {x y : ℕ} → ps ++ (x ∷ us) ≡ ps ++ (y ∷ vs) → x ≡ y
same_next [] us vs e = cc
same_next (p ∷ ps) us vs e = same_next ps us vs (cc)

-- The only message of a buffer, taken out in two calls: the second call copies from the start of
-- the message again. If that differs from the part that is due, what went out is not the frame.
pub get_data-split :
    (im : Impl) (x y : ℕ) (ps qs : List ℕ) (m_size : ℕ)
    → length ((x ∷ ps) ++ (y ∷ qs)) < 2 ^ 16
    → x ≢ y
    → 3 ≤ m_size
    → length ((x ∷ ps) ++ (y ∷ qs)) ≤ m_size
    → let m : List ℕ = (x ∷ ps) ++ (y ∷ qs) in
      let cut = length (x ∷ ps) in
      let again = take (length m - cut) m in
      (get_data (queueing im (message m)) (2 + cut)
        ≡ done (
          queueing im (partly (message m) cut),
          length m / 256 ∷ length m % 256 ∷ (x ∷ ps),
          some (2 + cut),
        ))
      × (get_data (queueing im (partly (message m) cut)) m_size
          ≡ done (drained im (message m), again, some (length m - cut)))
      × ((length m / 256 ∷ length m % 256 ∷ (x ∷ ps)) ++ again ≢ frame m)
get_data-split im x y ps qs m_size short differ three big =
    let w = message ((x ∷ ps) ++ (y ∷ qs)) in
    let cut = length (x ∷ ps) in
    let len = length-append ps (y ∷ qs) in
    let whole : IsWhole w = record { at_start = refl; sized = refl; short = short } in
    let back : (2 + cut) - 2 ≡ cut = omega arith in
    let left : length ((x ∷ ps) ++ (y ∷ qs)) - cut ≡ suc (length qs) = omega (arith, len) in
    (
      get_first im w (2 + cut) whole (omega arith) (omega (arith, len))
          ∙ (λ i. done (
            queueing im (partly w (back i)),
            length w.payload / 256 ∷ length w.payload % 256 ∷ take (back i) w.payload,
            some (2 + cut),
          ))
          ∙ ap
              (λ b. done (
                queueing im (partly w cut),
                length w.payload / 256 ∷ length w.payload % 256 ∷ b,
                some (2 + cut),
              ))
              (take-append (x ∷ ps) (y ∷ qs)),
      get_second im w cut m_size whole (omega arith) (omega (arith, len)) three big,
      λ e. differ (
          same_next ps _ qs
            (subst (λ k. ps ++ take k (x ∷ (ps ++ (y ∷ qs))) ≡ ps ++ (y ∷ qs)) left (third e))),
    )
  where
    third :
        {a b c : ℕ} {us vs : List ℕ} → ◌≡◌ {A = List ℕ} (a ∷ b ∷ c ∷ us) (a ∷ b ∷ c ∷ vs) → us ≡ vs
    third e = cc
