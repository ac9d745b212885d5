-- ===== src/Tests/Scene3.antt =====
-- A small state of 3.0/server, and a system around it.
use as3chat.Common.{
  ℕ, ◌≡◌, refl, sym, inl, inr, true, false, Option, none, some, List, [], ◌∷◌, ◌++◌, arith,
}
use as3chat.Common.Tests.{◌==◌, if◌then◌else◌, Bool-cases}
use as3chat.Common.Int.{pos, minus_one, ◌==ℤ◌}
use as3chat.Common.Text.{Bytes}
use as3chat.Server3.Dict.{lookup, string_key, int_key}
use as3chat.Server3.Groups.{empty}
use as3chat.Server3.Client.{Client, Wire, head_of}
use as3chat.Server3.Process.{Process, Job}
use as3chat.Server3.System.{System, event}
use as3chat.Server3.ClientList.Adding.{Live, Owned, Valid}
use as3chat.Server3.Loop.RoundTrip.{idle}

abbrev pub eve_address : ℕ
eve_address = 1000

abbrev pub eve : Client
eve = idle (pos 7) [] (pos 40) empty

abbrev pub one_client : ℕ → Option Client
one_client q = if q == eve_address then some eve else none

-- Nobody is in the list.
abbrev pub unlisted_scene : Process
unlisted_scene = record {
  heap = one_client;
  name_clients = [];
  clients = [];
  locked = false;
  work = record { packets = []; max_size = minus_one };
  calls = [];
}

-- `eve` is, and these tasks wait.
abbrev pub scene3 : List Job → Process
scene3 jobs = record {
  heap = one_client;
  name_clients = [];
  clients = (pos 7, eve_address) ∷ [];
  locked = false;
  work = record { packets = jobs; max_size = minus_one };
  calls = [];
}

abbrev pub request : Bytes
request = 104 ∷ 105 ∷ []

abbrev pub reply_text : Bytes
reply_text = 60 ∷ 47 ∷ 62 ∷ []

abbrev pub request_wire : Wire
request_wire = record { pending = head_of 2 ++ (request ++ 9 ∷ []); sizes = 4 ∷ 1 ∷ 5 ∷ [] }

abbrev pub ended_wire : Wire
ended_wire = record { pending = []; sizes = 0 ∷ [] }

abbrev pub system : Wire → System
system w = record {
  epoll_ctl = λ _ _. true;
  wire = λ _ _. w;
  head_written = λ _ _. pos 4;
  packet_written = λ _ _. pos 3;
  now = λ _. pos 100;
  accept = λ _. pos 7;
  address = λ _. 2000;
  old_time = pos 0;
  parse = λ _. event (some (pos 0)) none;
  print = λ _ _. reply_text;
}

pub unlisted_scene-Valid : Valid unlisted_scene
unfolding lookup
unlisted_scene-Valid = record {
  names = λ k p h. absurd cc;
  socks = λ k p h. absurd cc;
  names_once = tt;
  socks_once = tt;
  free = refl;
}

pub eve-Live : Live unlisted_scene eve_address eve
eve-Live = (refl, refl)

scene3-socks : (jobs : List Job) → Owned (λ c. c.sock) (scene3 jobs) ((pos 7, eve_address) ∷ [])
unfolding lookup
scene3-socks jobs fd p h = elim (Bool-cases (fd ==ℤ pos 7)) [
  | inl same ↦
      let there : p ≡ eve_address = ground (arith, h) in
      (eve, (rw there, rw there), sym ((int_key.same_iff fd (pos 7)).0 same))
  | inr other ↦ absurd (ground (arith, h))
]

pub scene3-Valid : (jobs : List Job) → Valid (scene3 jobs)
unfolding lookup
scene3-Valid jobs = record {
  names = λ k p h. absurd cc;
  socks = scene3-socks jobs;
  names_once = tt;
  socks_once = (refl, tt);
  free = refl;
}
