-- ===== src/Buffer/Mailbox.antt =====
-- What etwork::Buffer of src/etwork/buffer.h is to its user: a queue of messages, oldest first,
-- with three limits.
use etwork.Common.{
  ℕ, suc, ◌+◌, ◌^◌, ◌≤◌, ◌<◌, Bool, true, false, ◌&&◌, List, [], ◌∷◌, ◌++◌, map, Option, none, some,
  ◌≡◌, refl, ap, ◌∙◌, sym, inl, inr, arith, length, length-append, All, sum, subst, map-append,
  append-nil, append_assoc, ltb, leb, if◌then◌else◌, Bool-cases,
}
use etwork.Buffer.{Message, Impl, put_message, get_message}
use etwork.Buffer.Frames.{
  frames, IsIdle, IsFramed, put_messages, put_data-frames, put_message-IsIdle,
}
use etwork.Buffer.PutData.{put_data}
use etwork.Buffer.GetData.{get_data}
use etwork.Buffer.Run.{done}
use etwork.Buffer.Invariant.{
  IsValid, IsWhole, Fits, sizes, appended, put_message_cases, get_message_cases,
  put_message-IsValid,
}
use etwork.Buffer.Wire.{payloads, contents, emptied, get_data-frames}

pub record Mailbox : Type 0 where
  pub max_size : ℕ
  pub max_total : ℕ
  pub max_count : ℕ
  pub messages : List (List ℕ)

-- The bytes of some messages.
abbrev pub total : List (List ℕ) → ℕ
total ms = sum (map length ms)

-- Whether one more message is within the limits.
abbrev pub has_space : Mailbox → List ℕ → Bool
has_space b m =
    leb (length m) b.max_size
    && ltb (length b.messages) b.max_count
    && leb (total b.messages + length m) b.max_total

unfoldable pub post : Mailbox → List ℕ → Mailbox × Option ℕ
post b m =
    if has_space b m
    then (record b { messages = b.messages ++ (m ∷ []) }, some (length m))
    else (b, none)

-- The oldest message, if it is not longer than the memory for it.
unfoldable pub collect_first : Mailbox → ℕ → List (List ℕ) → Mailbox × List ℕ × Option ℕ
collect_first b m_size [] = (b, [], none)
collect_first b m_size (m ∷ ms) =
    if ltb m_size (length m)
    then (b, [], none)
    else (record b { messages = ms }, m, some (length m))

unfoldable pub collect : Mailbox → ℕ → Mailbox × List ℕ × Option ℕ
unfolding collect_first
collect b m_size = collect_first b m_size b.messages

-- The mailbox that a buffer is.
abbrev pub view : Impl → Mailbox
view im = record {
  max_size = im.max_msg_size;
  max_total = im.queue_size;
  max_count = im.max_num_messages;
  messages = contents im;
}

total-sizes : (ms : List Message) → All IsWhole ms → total (payloads ms) ≡ sizes ms
total-sizes [] h = refl
total-sizes (w ∷ ms) h = omega (arith, total-sizes ms h.1)

length-payloads : (ms : List Message) → length (payloads ms) ≡ length ms
length-payloads [] = refl
length-payloads (w ∷ ms) = ap suc (length-payloads ms)

has_space-Fits :
    (im : Impl) (m : List ℕ) → IsValid im → Fits im (length m) → has_space (view im) m ≡ true
has_space-Fits im m v f =
    let t = total-sizes im.queue v.whole in let l = length-payloads im.queue in ground arith

has_space→Fits :
    (im : Impl) (m : List ℕ) → IsValid im → has_space (view im) m ≡ true → Fits im (length m)
has_space→Fits im m v e =
    let t = total-sizes im.queue v.whole in let l = length-payloads im.queue in ground arith

has_space-not_Fits :
    (im : Impl) (m : List ℕ) → IsValid im → ¬ Fits im (length m) → has_space (view im) m ≡ false
has_space-not_Fits im m v f = elim (Bool-cases (has_space (view im) m)) [
  | inr e ↦ e
  | inl e ↦ absurd (f (has_space→Fits im m v e))
]

-- Seen as a mailbox, put_message posts: the same messages follow, and the same result.
pub put_message-post :
    (im : Impl) (m : List ℕ)
    → IsValid im
    → (view (put_message im m).0, (put_message im m).1) ≡ post (view im) m
unfolding post
put_message-post im m v = elim (put_message_cases im m v) [
  | inl (f, e) ↦ rw (e, has_space-Fits im m v f, map-append) refl
  | inr (f, e) ↦ rw (e, has_space-not_Fits im m v f) refl
]

by_queue :
    (im : Impl) (m_size : ℕ) {q : List Message}
    → im.queue ≡ q
    → collect_first (view im) m_size (contents im) ≡ collect_first (view im) m_size (payloads q)
by_queue im m_size e = ap (λ ms. collect_first (view im) m_size (payloads ms)) e

-- Seen as a mailbox, get_message collects: the same messages stay, and the same bytes and result
-- come out.
pub get_message-collect :
    (im : Impl) (m_size : ℕ)
    → IsValid im
    → (view (get_message im m_size).0, (get_message im m_size).1, (get_message im m_size).2)
      ≡ collect (view im) m_size
unfolding collect
get_message-collect im m_size v = elim (get_message_cases im m_size v) [
  | inl (q, e) ↦ rw e (sym (by_queue im m_size q))
  | inr (w, rest, q, h, inl (p, e)) ↦
      let t : ltb m_size (length w.payload) ≡ true = ground arith in
      rw e (sym (by_queue im m_size q ∙ rw t refl))
  | inr (w, rest, q, h, inr (p, e)) ↦
      let t : ltb m_size (length w.payload) ≡ false = ground arith in
      rw e (
        sym (
          by_queue im m_size q
          ∙ rw t (
              ap (λ n. (record (view im) { messages = payloads rest }, w.payload, some n))
                (sym h.sized))))
]

-- All the messages are within the limits of the buffer, one after the other.
pub record TakesIn (im : Impl) (ms : List (List ℕ)) : Type 0 where
  pub each : All (λ m. length m ≤ im.max_msg_size) ms
  pub count : length im.queue + length ms ≤ im.max_num_messages
  pub room : im.written + total ms ≤ im.queue_size

contents-appended :
    (im : Impl) (m : List ℕ) (ms : List (List ℕ))
    → contents (appended im m) ++ ms ≡ contents im ++ (m ∷ ms)
contents-appended im m ms = rw (map-append, append_assoc) refl

TakesIn-appended :
    (im : Impl) (m : List ℕ) (ms : List (List ℕ)) → TakesIn im (m ∷ ms) → TakesIn (appended im m) ms
TakesIn-appended im m ms t = record {
  each = t.each.1;
  count =
      omega
        (arith, length-append im.queue (record { offset = 0; size = length m; payload = m } ∷ []));
  room = omega arith;
}

pub put_messages-Took :
    (im : Impl) (ms : List (List ℕ))
    → IsValid im
    → IsIdle im
    → TakesIn im ms
    → IsValid (put_messages im ms) × (contents (put_messages im ms) ≡ contents im ++ ms)
unfolding put_messages
put_messages-Took im [] v free t = (v, sym (append-nil (contents im)))
put_messages-Took im (m ∷ ms) v free t = elim (put_message_cases im m v) [
  | inr (no_fit, _) ↦
      absurd (no_fit (record { message = t.each.0; messages = omega arith; total = omega arith }))
  | inl (f, e) ↦
      let next = (put_message im m).0 in
      let step : next ≡ appended im m = ap (λ r. r.0) e in
      let (v', c) =
        put_messages-Took next ms (put_message-IsValid im m v free.no_target)
          (put_message-IsIdle im m free)
          (subst (λ j. TakesIn j ms) (sym step) (TakesIn-appended im m ms t)) in
      (v', c ∙ ap (λ j. contents j ++ ms) step ∙ contents-appended im m ms)
]

-- From one peer to the other: what put_message queued in `a`, get_data takes out as bytes, in one
-- piece, and put_data in `b` turns into the same messages, behind those that `b` has.
pub wire_round_trip :
    (a b : Impl) (m_size : ℕ)
    → IsValid a
    → IsValid b
    → IsIdle b
    → 3 ≤ m_size
    → m_size < 2 ^ 32
    → length (frames (contents a)) < m_size
    → All (λ m. 0 < length m) (contents a)
    → TakesIn b (contents a)
    → (bytes : List ℕ) × (b' : Impl) × (get_data a m_size
        ≡ done (emptied a, bytes, some (length bytes)))
      × (put_data true b bytes ≡ done (b', length bytes))
      × (contents b' ≡ contents b ++ contents a)
wire_round_trip a b m_size va vb free three big fits full t = (
  frames (contents a),
  put_messages b (contents a),
  get_data-frames a m_size va three big fits,
  put_data-frames true b (contents a) free (framed (contents a) full (t.each)),
  (put_messages-Took b (contents a) vb free t).1,
)
  where
    framed :
        (ms : List (List ℕ))
        → All (λ m. 0 < length m) ms
        → All (λ m. length m ≤ b.max_msg_size) ms
        → All (IsFramed true) ms
    framed [] h k = tt
    framed (m ∷ ms) h k = ((inl h.0, omega (arith, vb.shorts)), framed ms h.1 k.1)
