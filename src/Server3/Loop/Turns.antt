-- ===== src/Server3/Loop/Turns.antt =====
-- The states that 3.0/server reaches through its events, its tasks and its rounds of keepAlive.
use as3chat.Common.{◌≡◌, refl, subst, false, none, []}
use as3chat.Common.Int.{ℤ, minus_one}
use as3chat.Server3.Dict.{lookup, string_key, int_key}
use as3chat.Server3.FifoList.{new}
use as3chat.Server3.ClientList.{keep_alive}
use as3chat.Server3.ClientList.Expiry.{keep_alive-Sound}
use as3chat.Server3.ClientList.Adding.{Valid}
use as3chat.Server3.ClientList.Keeping.{Sound}
use as3chat.Server3.Jobs.{run_next}
use as3chat.Server3.Jobs.Keeping.{run_next-Sound}
use as3chat.Server3.Process.{Process, done}
use as3chat.Server3.System.{System}
use as3chat.Server3.Loop.{EpollEvent, handle_event}
use as3chat.Server3.Loop.Keeping.{Fresh, IsTraffic, handle_event-Sound}

-- What happens to the server between two looks at it.
pub data Turn (sys : System) (main_sock : ℤ) : Process → Process → Type 0 where
  on_event :
      (s t : Process) (ev : EpollEvent)
      → IsTraffic ev
      → Fresh sys s
      → handle_event sys main_sock ev s ≡ done tt t
      → Turn sys main_sock s t
  on_task : (s t : Process) → run_next sys s ≡ done tt t → Turn sys main_sock s t
  on_minute : (now : ℤ) (s t : Process) → keep_alive now s ≡ done tt t → Turn sys main_sock s t

pub data Turns (sys : System) (main_sock : ℤ) (s : Process) : Process → Type 0 where
  none_yet : Turns sys main_sock s s
  one_more :
      (t u : Process) → Turns sys main_sock s t → Turn sys main_sock t u → Turns sys main_sock s u

-- The server before its first event.
abbrev pub begin : Process
begin = record {
  heap = λ q. none;
  name_clients = [];
  clients = [];
  locked = false;
  work = new minus_one;
  calls = [];
}

Turn-Valid :
    (sys : System) (main_sock : ℤ) (s t : Process) → Turn sys main_sock s t → Valid s → Valid t
Turn-Valid sys main_sock s t (on_event _ _ ev traffic fresh e) v =
    subst Sound e (handle_event-Sound sys main_sock ev traffic s fresh v)
Turn-Valid sys main_sock s t (on_task _ _ e) v = subst Sound e (run_next-Sound sys s v)
Turn-Valid sys main_sock s t (on_minute now _ _ e) v = subst Sound e (keep_alive-Sound now s v)

Turns-Valid :
    (sys : System) (main_sock : ℤ) (s t : Process) → Turns sys main_sock s t → Valid s → Valid t
Turns-Valid sys main_sock s _ none_yet v = v
Turns-Valid sys main_sock s u (one_more t _ before turn) v =
    Turn-Valid sys main_sock t u turn (Turns-Valid sys main_sock s t before v)

-- The list of clients is sound in every state that the server reaches through its tasks, the rounds of
-- keepAlive and its events for input, output and new connections, whatever clients send and whatever the
-- system answers: each entry leads to a live client that has the name or the descriptor of the entry, no
-- key stands there twice, and the mutex is free. Conditions, which are those of `Turn`: `new` gives addresses
-- that nobody has, and no event has told only the end of a connection.
pub begin-Valid :
    (sys : System) (main_sock : ℤ) (t : Process) → Turns sys main_sock begin t → Valid t
unfolding lookup
begin-Valid sys main_sock t turns = Turns-Valid sys main_sock begin t turns (record {
  names = λ k p h. absurd cc;
  socks = λ k p h. absurd cc;
  names_once = tt;
  socks_once = tt;
  free = refl;
})
