-- ===== src/Events/Logout.antt =====
-- The logout tasks of 1.0/server/MyleftServer.c and of `readtask` in 1.0/server/message.c.
use as3chat.Common.{ℕ, ◌<◌, ◌≡◌, ap, ◌∙◌, ◌≢◌, inl, inr, true, some, none, List, ◌∷◌, ◌++◌}
use as3chat.Common.Tests.{◌==◌, Bool-cases}
use as3chat.Common.Lists.{length}
use as3chat.Common.Text.{Bytes}
use as3chat.Server.{Ptr, null, Client, Task, State, ok, fault}
use as3chat.Server.Commands.{load}
use as3chat.Rooms.{return_success}
use as3chat.Rooms.Chain.{Members, head, linked, load-ok, Chain-prefix}
use as3chat.Rooms.Broadcast.{name}
use as3chat.Rooms.Leave.{Roster}
use as3chat.HashTable.Chains.{Entries, InBucket}
use as3chat.Nodes.{node_del}
use as3chat.Nodes.Delete.{Deleted, node_del-Deleted}
use as3chat.Message.{parse_message}
use as3chat.Message.Login.{Env}
use as3chat.Events.{take_task, work, step, works}

-- A task that the end of a connection or `<quit/>` puts into the queue. Its text is what the buffer of
-- the last read held.
abbrev pub logout_of : Ptr → Bytes → Task
logout_of p text = record { client = p; logout = true; text = text }

-- The state with another queue.
abbrev pub queued : State → List Task → State
queued s tasks = record s { tasks = tasks }

parse_message-logout :
    (env : Env) (s t : State) (p : Ptr) (text : Bytes) (c : Client)
    → p ≢ null
    → s.heap p ≡ some c
    → node_del env.fuel p s ≡ ok return_success t
    → parse_message env (logout_of p text) s ≡ ok tt t
unfolding parse_message
parse_message-logout env s t p text c n live done = rw (load-ok s p c n live, done)

parse_message-freed :
    (env : Env) (s : State) (task : Task)
    → s.heap task.client ≡ none
    → parse_message env task s ≡ fault
unfolding parse_message load
parse_message-freed env s task freed = elim (Bool-cases (task.client == null)) [
  | inl null ↦ rw null
  | inr live ↦ rw (live, freed)
]

works-take :
    (env : Env) (s : State) (task : Task) (rest : List Task)
    → s.tasks ≡ task ∷ rest
    → step env works s ≡ parse_message env task (queued s rest)
unfolding step work take_task
works-take env s task rest q = rw (q, take_task)

Roster-queued :
    (s : State) (tasks : List Task) (r : ℕ) (xs : Members)
    → Roster s r xs
    → Roster (queued s tasks) r xs
Roster-queued s tasks r xs v = record {
  seats = record { in_range = v.seats.in_range; starts = v.seats.starts; chain = v.seats.chain };
  distinct = v.distinct;
  sit = v.sit;
}

-- A thread that takes the logout of a client, whatever its text, deletes the client, and goes on to the
-- tasks behind it. If the next one is of the same client, be it a second logout or a request that came
-- behind the first, the program reads the struct that it has freed. Conditions: the client sits in a room
-- as the server keeps it, the bucket of its name is keyed by live clients with terminated names, and the
-- fuel exceeds the members of the room.
pub logout_twice-faults :
    (env : Env) (r : ℕ) (s : State) (xs : Members) (p : Ptr) (c : Client) (ys : Members)
    (es : Entries) (text : Bytes) (task : Task) (rest : List Task)
    → s.tasks ≡ logout_of p text ∷ task ∷ rest
    → task.client ≡ p
    → Roster s r (xs ++ (p, c) ∷ ys)
    → InBucket s (name c) es
    → length (xs ++ (p, c) ∷ ys) < env.fuel
    → (t : State) × (step env works s ≡ ok tt t)
      × Deleted (queued s (task ∷ rest)) t r xs p c ys es
      × (step env works t ≡ fault)
logout_twice-faults env r s xs p c ys es text task rest q same here v fuel =
    let s' = queued s (task ∷ rest) in
    let (n, e, _) = (Chain-prefix s.heap null xs ((p, c) ∷ ys) here.seats.chain).1 in
    let (t, done, deleted) =
      node_del-Deleted env.fuel r s' xs p c ys es (Roster-queued s _ r _ here)
        (record { made = v.made; chain = v.chain; keys = v.keys }) fuel in
    (
      t,
      works-take env s (logout_of p text) (task ∷ rest) q
          ∙ parse_message-logout env s' t p text (linked c (head ys)) n e done,
      deleted,
      works-take env t task rest deleted.tasks
          ∙ parse_message-freed env (queued t rest) task (ap t.heap same ∙ deleted.freed),
    )
