-- ===== src/Sockets/Stream.antt =====
-- src/lib/socketbase.cpp: the bytes that a reliable socket sends and receives.
use etwork.Common.{
  ℕ, zero, suc, ◌+◌, ◌^◌, ◌%◌, ◌≤◌, ◌<◌, Bool, true, false, some, List, [], ◌++◌, ◌≡◌, refl, ap,
  sym, ◌∙◌, arith, length, take, drop, ltb, ◌==◌, if◌then◌else◌, inl, inr, Bool-cases, List-cases,
  append-nil, take-append-drop, append_assoc,
}
use etwork.Common.Bytes.{add_size}
use etwork.Buffer.Run.{done}
use etwork.Buffer.Frames.{frames}
use etwork.Buffer.Invariant.{IsValid, new_impl-IsValid}
use etwork.Buffer.Wire.{contents, emptied, get_data-frames}
use etwork.Sockets.{
  EtworkSettings, Verdict, unsupported_version, too_large, accepted, fill_defaults, check_settings,
  Socket, new_socket, Outcome, moved, would_block, failed, send_success, send_pending,
  fill_writebuf, write_or_wait, do_write, close_socket,
}

-- The bytes that a socket still has to send.
abbrev pub pending : Socket → List ℕ
pending s = s.writebuf ++ frames (contents s.buf_out)

-- What goes to the system in a step.
abbrev pub sent_bytes : Outcome → List ℕ → List ℕ
sent_bytes (moved w) bytes = take w bytes
sent_bytes _ bytes = []

-- What the step goes out from: the bytes that waited, or else all frames of the buffer.
abbrev pub loaded : Socket → List ℕ
loaded s = if length s.writebuf == 0 then frames (contents s.buf_out) else s.writebuf

take_nil : (w : ℕ) → take {A = ℕ} w [] ≡ []
take_nil zero = refl
take_nil (suc w) = refl

send_pending-pending :
    (now : ℕ) (s : Socket) (o : Outcome)
    → sent_bytes o s.writebuf ++ pending (send_pending now s o).0 ≡ pending s
unfolding send_pending send_success close_socket
send_pending-pending now s (moved w) =
    sym (append_assoc (take w s.writebuf) (drop w s.writebuf) (frames (contents s.buf_out)))
    ∙ ap (λ t. t ++ frames (contents s.buf_out)) (take-append-drop w s.writebuf)
send_pending-pending now s would_block = refl
send_pending-pending now s failed = refl

write_or_wait-pending :
    (now : ℕ) (s : Socket) (o : Outcome)
    → sent_bytes o s.writebuf ++ pending (write_or_wait now o (s, some (length s.writebuf))).0
      ≡ pending s
unfolding write_or_wait
write_or_wait-pending now s o = elim (List-cases s.writebuf) [
  | inl e ↦
      let n : (length s.writebuf == 0) ≡ true = ap (λ t. length t == 0) e in
      rw n (ap (λ t. t ++ pending s) (ap (sent_bytes o) e ∙ nothing o))
  | inr (b, bs, e) ↦
      let n : (length s.writebuf == 0) ≡ false = ap (λ t. length t == 0) e ∙ positive (length bs) in
      rw n (send_pending-pending now s o)
]
  where
    nothing : (o : Outcome) → sent_bytes o [] ≡ []
    nothing (moved w) = take_nil w
    nothing would_block = refl
    nothing failed = refl

    positive : (n : ℕ) → (suc n == 0) ≡ false
    positive n = ground arith

-- With a well-formed buffer, room for writing from 3 to below 2^32, and all frames of the buffer
-- within that room: whatever send comes to, what it took, followed by what then waits, is what
-- waited before.
pub do_write-pending :
    (now : ℕ) (s : Socket) (o : Outcome)
    → IsValid s.buf_out
    → 3 ≤ s.settings.queue_size
    → s.settings.queue_size < 2 ^ 32
    → length (frames (contents s.buf_out)) < s.settings.queue_size
    → (s' : Socket) × (go_on : Bool) × (do_write now s o ≡ done (s', go_on))
      × (sent_bytes o (loaded s) ++ pending s' ≡ pending s)
unfolding do_write fill_writebuf
do_write-pending now s o v three big fits = elim (List-cases s.writebuf) [
  | inr (b, bs, e) ↦
      let n : (length s.writebuf == 0) ≡ false = ap (λ t. length t == 0) e ∙ positive (length bs) in
      let r = write_or_wait now o (s, some (length s.writebuf)) in
      (r.0, r.1, rw n refl, rw n (write_or_wait-pending now s o))
  | inl e ↦
      let n : (length s.writebuf == 0) ≡ true = ap (λ t. length t == 0) e in
      let all = frames (contents s.buf_out) in
      let s1 : Socket = record s { buf_out = emptied s.buf_out; writebuf = all } in
      let r = write_or_wait now o (s1, some (length all)) in
      (
        r.0,
        r.1,
        rw (n, get_data-frames s.buf_out s.settings.queue_size v three big fits) refl,
        rw n (write_or_wait-pending now s1 o ∙ append-nil all ∙ ap (λ t. t ++ all) (sym e)),
      )
]
  where
    positive : (n : ℕ) → (suc n == 0) ≡ false
    positive n = ground arith

-- The buffers of a socket that is made with settings that were accepted are well-formed.
abbrev pub MakesValid : (ℕ → ℕ) → Verdict → Type 0
MakesValid fill unsupported_version = Unit
MakesValid fill too_large = Unit
MakesValid fill (accepted s) =
    IsValid (new_socket fill s 0).buf_in × IsValid (new_socket fill s 0).buf_out

default_bounds :
    (n d : ℕ)
    → n < 2 ^ 31
    → 0 < d
    → d < 2 ^ 31
    → (0 < (if n == 0 then d else n)) × ((if n == 0 then d else n) < 2 ^ 31)
default_bounds n d h k l = elim (Bool-cases (n == 0)) [
  | inl e ↦ rw e (k, l)
  | inr e ↦ rw e (ground arith, h)
]

filled :
    (s : EtworkSettings)
    → s.queue_size < 2 ^ 31
    → s.max_message_size < 2 ^ 31
    → let t = fill_defaults s in
      (0 < t.queue_size)
      × (t.queue_size < 2 ^ 31)
      × (0 < t.max_message_size)
      × (t.max_message_size < 2 ^ 31)
unfolding fill_defaults
filled s q m =
    let (a, b) = default_bounds s.queue_size 4000 q (omega arith) (omega arith) in
    let (c, d) = default_bounds s.max_message_size 1400 m (omega arith) (omega arith) in
    (a, b, c, d)

made :
    (fill : ℕ → ℕ) (t : EtworkSettings)
    → (0 < t.queue_size)
      × (t.queue_size < 2 ^ 31)
      × (0 < t.max_message_size)
      × (t.max_message_size < 2 ^ 31)
    → ltb 65536 (add_size t.queue_size t.max_message_size) ≡ false
    → IsValid (new_socket fill t 0).buf_in × IsValid (new_socket fill t 0).buf_out
unfolding new_socket
made fill t (a, b, c, d) fits =
    let limits : t.queue_size + t.max_message_size ≤ 2 ^ 16 = ground arith in
    let v =
      new_impl-IsValid fill t.max_message_size t.queue_size t.max_message_count limits
        (omega arith) in
    (v, v)

-- Settings that CreateEtwork accepts give well-formed buffers, if the sizes that are asked for are
-- below 2^31 each.
pub check_settings-MakesValid :
    (fill : ℕ → ℕ) (s : EtworkSettings)
    → s.queue_size < 2 ^ 31
    → s.max_message_size < 2 ^ 31
    → MakesValid fill (check_settings s)
unfolding check_settings
check_settings-MakesValid fill s q m = elim (Bool-cases (ltb 4864 (s.etwork_version % 2 ^ 16))) [
  | inl old ↦ rw old tt
  | inr new ↦
      elim (Bool-cases
        (ltb 65536 (add_size (fill_defaults s).queue_size (fill_defaults s).max_message_size))) [
          | inl big ↦ rw (new, big) tt
          | inr fits ↦ rw (new, fits) (made fill (fill_defaults s) (filled s q m) fits)
        ]
]

-- Sizes above 0 and below 2^32 whose sum is from 2^32 to 2^32 + 65536 are accepted, under a
-- version that is supported.
pub check_settings_wraps :
    (s : EtworkSettings)
    → s.etwork_version % 2 ^ 16 ≤ 4864
    → 0 < s.queue_size
    → 0 < s.max_message_size
    → s.queue_size < 2 ^ 32
    → s.max_message_size < 2 ^ 32
    → 2 ^ 32 ≤ s.queue_size + s.max_message_size
    → s.queue_size + s.max_message_size ≤ 2 ^ 32 + 65536
    → check_settings s ≡ accepted (fill_defaults s)
unfolding check_settings fill_defaults
check_settings_wraps s v q m qs ms wide wraps =
    let new : ltb 4864 (s.etwork_version % 2 ^ 16) ≡ false = ground arith in
    let a : (s.queue_size == 0) ≡ false = ground arith in
    let b : (s.max_message_size == 0) ≡ false = ground arith in
    let small : ltb 65536 (add_size s.queue_size s.max_message_size) ≡ false = ground arith in
    rw (new, a, b, small) refl
