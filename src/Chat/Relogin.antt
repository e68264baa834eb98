-- ===== src/Chat/Relogin.antt =====
-- src/chatserver/chathost.cpp, serviceKnown: a second login of a client.
use etwork.Common.{
  ℕ, suc, ◌<◌, Bool, true, false, none, some, List, [], ◌∷◌, ◌++◌, ◌≡◌, refl, ◌∙◌, ap, arith,
  length, take_all, ◌==◌, if◌then◌else◌, All,
}
use etwork.Common.Map.{
  less_string, less_string_irreflexive, find, insert, find-insert, length-insert,
}
use etwork.Common.Map.Strings.{find-insert_behind, less_string_prefix}
use etwork.Chat.{
  ChatHost, name_size, msg_login, set_user, answer, broadcast_text, validate_found, validate_name,
}
use etwork.Chat.Commands.{
  c_string, name_length, name_in, same_start, rename, known_answer, known_login, handle_known,
}

-- Bytes without a terminator among them.
abbrev pub IsText : List ℕ → Type 0
IsText bs = All (λ b. 0 < b) bs

c_string_text : (bs : List ℕ) → IsText bs → c_string bs ≡ bs
unfolding c_string
c_string_text [] t = refl
c_string_text (b ∷ bs) (p, t) =
    let e : (b == 0) ≡ false = ground arith in rw e (ap (λ x. b ∷ x) (c_string_text bs t))

same_start_prefix : (bs rest : List ℕ) → same_start (length bs) (bs ++ rest) bs ≡ true
unfolding same_start
same_start_prefix [] rest = refl
same_start_prefix (b ∷ bs) rest =
    let e : (b == b) ≡ true = ground arith in rw e (either (b == 0) (same_start_prefix bs rest))
  where
    either : (t : Bool) {x : Bool} → x ≡ true → (if t then true else x) ≡ true
    either true e = refl
    either false e = e

name_length_short :
    (bs : List ℕ) → length bs < name_size → name_length (suc (length bs)) ≡ length bs
unfolding name_length
name_length_short bs h = ground arith

name_in_text : (bs : List ℕ) → IsText bs → length bs < name_size → name_in (msg_login ∷ bs) ≡ bs
unfolding name_in
name_in_text bs t h =
    rw (name_length_short bs h, take_all (length bs) bs (omega arith)) (c_string_text bs t)

-- The name that rename gave, where the map does not have it, is put into the map.
validated :
    (c : ℕ) (name : List ℕ) (h : ChatHost)
    → find less_string name h.named_clients ≡ none
    → ((validate_name c (rename c name h)).1 ≡ true)
      × ((validate_name c (rename c name h)).0.named_clients
          ≡ insert less_string name c h.named_clients)
unfolding validate_name validate_found rename set_user broadcast_text
validated c name h e =
    let here : (c == c) ≡ true = ground arith in rw (here, e) (refl, rw here refl)

accepts :
    (c : ℕ) (r : ChatHost × Bool)
    → r.1 ≡ true
    → ((known_answer c r).1 ≡ true) × ((known_answer c r).0.named_clients ≡ r.0.named_clients)
unfolding known_answer answer
accepts c (h, true) e = (refl, refl)
accepts c (h, false) e = absurd (false≢true e)
  where
    false≢true : false ≡ true → ⊥
    false≢true h = cc

-- A known client that is in the map under its name and logs in again with the beginning of it, where
-- nobody has that as a name, is accepted and stays; the map then has it under both names: an entry for
-- the new one, the entry under the old one being left, one entry more than before.
pub relogin_prefix :
    (c b : ℕ) (bs rest : List ℕ) (h : ChatHost)
    → (h.users c).name ≡ bs ++ b ∷ rest
    → IsText bs
    → length bs < name_size
    → find less_string bs h.named_clients ≡ none
    → find less_string (bs ++ b ∷ rest) h.named_clients ≡ some c
    → let r = handle_known c (msg_login ∷ bs) h in
      (r.1 ≡ true)
      × (find less_string bs r.0.named_clients ≡ some c)
      × (find less_string (bs ++ b ∷ rest) r.0.named_clients ≡ some c)
      × (length r.0.named_clients ≡ suc (length h.named_clients))
unfolding handle_known known_login
relogin_prefix c b bs rest h name text short free old =
    let v = validate_name c (rename c bs h) in
    let (ok, entries) = validated c bs h free in
    let (stays, same) = accepts c v ok in
    let start : same_start (name_length (suc (length bs))) (h.users c).name bs ≡ true =
      ap (λ n. same_start n (h.users c).name bs) (name_length_short bs short)
      ∙ ap (λ n. same_start (length bs) n bs) name
      ∙ same_start_prefix bs (b ∷ rest) in
    let named : (known_answer c v).0.named_clients ≡ insert less_string bs c h.named_clients =
      same ∙ entries in
    rw (start, name_in_text bs text short)
      (
        stays,
        ap (find less_string bs) named
            ∙ find-insert less_string bs c h.named_clients (less_string_irreflexive bs),
        ap (find less_string (bs ++ b ∷ rest)) named
            ∙ find-insert_behind (bs ++ b ∷ rest) bs c h.named_clients
                (less_string_prefix bs b rest).0 (less_string_prefix bs b rest).1 free
            ∙ old,
        ap length named ∙ length-insert less_string bs c h.named_clients free,
      )
