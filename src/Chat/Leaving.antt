-- ===== src/Chat/Leaving.antt =====
-- src/chatserver/chathost.cpp: the clients that poll of ChatHost takes out.
use etwork.Common.{ℕ, ◌+◌, ◌<◌, true, Option, none, some, [], ◌∷◌, ◌≡◌, refl, arith, ltb}
use etwork.Common.Map.{less_string, find, insert}
use etwork.Errors.Wsa.{WsaError}
use etwork.Buffer.Run.{done}
use etwork.Sockets.Manager.{Platform}
use etwork.Chat.{Texts, ChatHost}
use etwork.Chat.Polling.{
  undefined, and_then, kill_unless, service_active, check_times, check_clients, erase_named,
  kill_client, kill_loop, kill_next, count_change, after_poll,
}

-- A client that was silent for more than a minute and whose name is not in the map, as that of one
-- that has not logged in: with no other client, and none active, a poll is undefined.
pub after_poll_stranger :
    (w : Platform) (t : Texts) (now c : ℕ) (send receive : Option WsaError) (h : ChatHost)
    → h.clients ≡ c ∷ []
    → (h.users c).last_receive + 60 < now
    → find less_string (h.users c).name h.named_clients ≡ none
    → after_poll w t now send receive (some []) h ≡ done undefined
unfolding after_poll service_active check_clients check_times kill_unless insert kill_loop kill_next
    kill_client erase_named count_change and_then
after_poll_stranger w t now c send receive h alone silent stranger =
    let late : ltb ((h.users c).last_receive + 60) now ≡ true = ground arith in
    rw (alone, late, stranger) refl
