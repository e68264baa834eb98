-- ===== src/Chat/Names.antt =====
-- src/chatserver/chathost.cpp: the names of the clients, in their fixed arrays and in the host's map,
-- and the texts that go to all of them.
use etwork.Common.{
  ◌++◌, ℕ, suc, Option, none, ◌+◌, ◌-◌, ◌<◌, ◌≤◌, true, false, some, List, [], ◌∷◌, ◌≡◌, ◌≢◌, refl,
  sym, ◌∙◌, ap, ◌⊎◌, inl, inr, arith, length, take, drop, ltb, leb, ◌==◌, if◌then◌else◌, Bool-cases,
  Option-cases, ==_iff, length-append, length-take, take_all, length-drop,
}
use etwork.Common.Map.{less_string, less_string_irreflexive, find, find-insert, length-insert}
use etwork.Sockets.{Socket, write}
use etwork.Sockets.Manager.{SocketManager, set_connection, store}
use etwork.Chat.{
  CChatClient, ChatHost, buf_size, name_size, write_to, broadcast_loop, broadcast_text,
  msg_text_from_server, validate_found, validate_name,
}
use etwork.Chat.Commands.{c_string, name_length, name_in, text_size, text_from}

length-c_string : (bs : List ℕ) → length (c_string bs) ≤ length bs
unfolding c_string
length-c_string [] = omega arith
length-c_string (b ∷ bs) = let h = length-c_string bs in ground arith

-- The name of a login fits into name[32] with its terminator.
pub name_in_fits : (buf : List ℕ) → length (name_in buf) < name_size
unfolding name_in name_length
name_in_fits buf =
    let n = if leb 32 (length buf - 1) then 31 else length buf - 1 in
    let a = length-c_string (take n (drop 1 buf)) in
    let b = length-take n (drop 1 buf) in ground arith

-- The whole text: the command, the name, a colon and then the message without its command.
abbrev pub whole_text : List ℕ → List ℕ → List ℕ
whole_text name buf = msg_text_from_server ∷ name ++ 58 ∷ drop 1 buf

take_past : (xs ys : List ℕ) (n : ℕ) → take (length xs + n) (xs ++ ys) ≡ xs ++ take n ys
take_past [] ys n = ap (λ k. take k ys) (omega arith)
take_past (x ∷ xs) ys n =
    let next : length (x ∷ xs) + n ≡ suc (length xs + n) = omega arith in
    ap (λ k. take k (x ∷ xs ++ ys)) next ∙ ap (λ t. x ∷ t) (take_past xs ys n)

cut_text :
    (name buf : List ℕ)
    → length name < name_size
    → 0 < length buf
    → name ++ 58 ∷ take (text_size (length buf) (length name) - 1) (drop 1 buf)
      ≡ take (buf_size - 1) (name ++ 58 ∷ drop 1 buf)
unfolding text_size
cut_text name buf short some_bytes =
    let bytes = drop 1 buf in
    let count = length-drop 1 buf in
    let whole : length name + suc (buf_size - 2 - length name) ≡ buf_size - 1 = omega arith in
    ap (λ t. name ++ 58 ∷ t)
      (elim (Bool-cases (ltb (buf_size - length name - 1) (length buf))) [
        | inl e ↦
            let n : buf_size - length name - 1 - 1 ≡ buf_size - 2 - length name = omega arith in
            rw e (ap (λ k. take k bytes) n)
        | inr e ↦
            let fits : length bytes ≤ buf_size - 2 - length name = ground arith in
            rw e (
              take_all (length buf - 1) bytes (omega (arith, count))
              ∙ sym (take_all (buf_size - 2 - length name) bytes fits))
      ])
    ∙ sym (take_past name (58 ∷ bytes) (suc (buf_size - 2 - length name)))
    ∙ ap (λ k. take k (name ++ 58 ∷ bytes)) whole

-- A text that a client with such a name sends, in a message that came into the buffer, goes out in
-- no more bytes than the buffer has: it is the command, the name, a colon and then the message
-- without its command, cut only where the buffer ends.
pub text_from_fits :
    (name buf : List ℕ)
    → length name < name_size
    → 0 < length buf
    → length buf ≤ buf_size
    → (text_from name buf ≡ take buf_size (whole_text name buf))
      × (length (text_from name buf) ≤ buf_size)
unfolding text_from text_size
text_from_fits name buf short some_bytes fits =
    let room =
      if ltb (buf_size - length name - 1) (length buf)
      then buf_size - length name - 1
      else length buf in
    let a = length-append name (58 ∷ take (room - 1) (drop 1 buf)) in
    let b = length-take (room - 1) (drop 1 buf) in
    let c = length-drop 1 buf in
    (ap (λ x. msg_text_from_server ∷ x) (cut_text name buf short some_bytes), ground arith)

-- What broadcastText should do to a socket: one write for each name whose client has it.
abbrev pub writes : ℕ → (ℕ → CChatClient) → List (List ℕ × ℕ) → List ℕ → Socket → Socket
writes p users [] text s = s
writes p users ((n, c) ∷ rest) text s =
    writes p users rest text (if p == (users c).socket then (write s text).0 else s)

write_to-socket :
    (p q : ℕ) (text : List ℕ) (m : SocketManager)
    → ((write_to p text m).heap q).socket
      ≡ (if q == p then (write (m.heap q).socket text).0 else (m.heap q).socket)
unfolding write_to set_connection store
write_to-socket p q text m = elim (Bool-cases (q == p)) [
  | inl e ↦ rw e (ap (λ x. (write (m.heap x).socket text).0) (sym ((==_iff q p).0 e)))
  | inr e ↦ rw e refl
]

broadcast_loop-writes :
    (named : List (List ℕ × ℕ)) (users : ℕ → CChatClient) (text : List ℕ) (m : SocketManager)
    (q : ℕ)
    → ((broadcast_loop named users text m).heap q).socket
      ≡ writes q users named text (m.heap q).socket
unfolding broadcast_loop
broadcast_loop-writes [] users text m q = refl
broadcast_loop-writes ((n, c) ∷ rest) users text m q =
    broadcast_loop-writes rest users text (write_to (users c).socket text m) q
    ∙ ap (writes q users rest text) (write_to-socket (users c).socket q text m)

-- broadcastText writes the text once to a socket for each name in the map whose client has that
-- socket, and leaves every other socket as it is. Whose text it is makes no difference: the client
-- that it is from is written to as well.
pub broadcast_text-writes :
    (client : Option ℕ) (text : List ℕ) (h : ChatHost) (q : ℕ)
    → ((broadcast_text client text h).mgr.heap q).socket
      ≡ writes q h.users h.named_clients text (h.mgr.heap q).socket
unfolding broadcast_text
broadcast_text-writes client text h q = broadcast_loop-writes h.named_clients h.users text h.mgr q

-- A free name is accepted: the client has it in the map then, one entry more, and the client list has
-- changed. A client that has the name already is accepted and the host stays as it was. A name that
-- another client has is not accepted, and the host stays as it was.
pub validate_name_lem :
    (c : ℕ) (h : ChatHost)
    → let name = (h.users c).name in
      let held = find less_string name h.named_clients in
      let r = validate_name c h in
      ((held ≡ none)
        × (r.1 ≡ true)
        × (find less_string name r.0.named_clients ≡ some c)
        × (length r.0.named_clients ≡ suc (length h.named_clients))
        × (r.0.generation ≡ suc h.generation)
        × (r.0.users ≡ h.users))
      ⊎ (((held ≡ some c) × (r ≡ (h, true)))
          ⊎ ((d : ℕ) × (d ≢ c) × (held ≡ some d) × (r ≡ (h, false))))
unfolding validate_name validate_found broadcast_text
validate_name_lem c h =
    let name = (h.users c).name in
    elim (Option-cases (find less_string name h.named_clients)) [
      | inl e ↦ inl (
          rw e (
            refl,
            refl,
            find-insert less_string name c h.named_clients (less_string_irreflexive name),
            length-insert less_string name c h.named_clients e,
            refl,
            refl,
          ))
      | inr (d, e) ↦ elim (Bool-cases (d == c)) [
        | inl i ↦ inr (inl (e ∙ ap some ((==_iff d c).0 i), rw (e, i) refl))
        | inr i ↦ inr (inr (d, different d c i, e, rw (e, i) refl))
      ]
    ]
  where
    different : (d c : ℕ) → (d == c) ≡ false → d ≢ c
    different d c i j = ground arith
