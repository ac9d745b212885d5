-- ===== src/Message/Expulsion.antt =====
-- `EV_TYPE_ADMIN_COMMAND_GOOUT` of 1.0/server/message.c: an administrator throws a client out.
use as3chat.Common.{ℕ, ◌<◌, ◌≡◌, refl, ◌∙◌, ◌∷◌, ◌++◌}
use as3chat.Common.Tests.{==_ne}
use as3chat.Common.Int.{pos}
use as3chat.Common.Lists.{length}
use as3chat.Common.Text.{Bytes, lit}
use as3chat.Server.{Ptr, null, Client, Task, State, ok}
use as3chat.Server.Commands.{emit}
use as3chat.External.{Event}
use as3chat.Messages.{ev_type_admin_command_goout, notice}
use as3chat.Rooms.Chain.{Members, head, linked, Chain-prefix, load-ok}
use as3chat.Rooms.Broadcast.{deliveries, name, read_name-ok, send_message_all-deliveries}
use as3chat.Rooms.Leave.{Roster, AllSit-split}
use as3chat.HashTable.Chains.{Entries, InBucket}
use as3chat.Nodes.Delete.{Deleted, Roster-emit, node_del-Deleted}
use as3chat.Message.{parse_message, serve, handle_goout, go_out}
use as3chat.Message.Login.{Env}
use as3chat.Message.Gate.{parse_message-serve}
use as3chat.Message.Commands.{Commands, target-found}

-- The state after the room of `d` has been told that it goes.
abbrev pub announced : Env → State → Members → Ptr → Client → Members → State
announced env s xs q d ys =
    emit (deliveries (notice env.now (name d ++ lit "被管理员请出了聊天室")) (xs ++ (q, d) ∷ ys)) s

go_out-Deleted :
    (env : Env) (s : State) (r : ℕ) (xs : Members) (q : Ptr) (d : Client) (ys : Members)
    (es : Entries)
    → Roster s r (xs ++ (q, d) ∷ ys)
    → InBucket s (name d) es
    → length (xs ++ (q, d) ∷ ys) < env.fuel
    → (t : State) × (go_out env q s ≡ ok tt t)
      × Deleted (announced env s xs q d ys) t r xs q d ys es
unfolding go_out
go_out-Deleted env s r xs q d ys es here b fuel =
    let (n, live, _) = (Chain-prefix s.heap null xs ((q, d) ∷ ys) here.seats.chain).1 in
    let sits = (AllSit-split s.fd_clients r xs ((q, d) ∷ ys) here.sit).1.0 in
    let (t, gone, deleted) =
      node_del-Deleted env.fuel r (announced env s xs q d ys) xs q d ys es
        (Roster-emit s _ r _ here) (record { made = b.made; chain = b.chain; keys = b.keys })
        fuel in
    (
      t,
      rw (
        ==_ne q null n,
        load-ok s q (linked d (head ys)) n live,
        read_name-ok s (linked d (head ys)) sits.named,
        send_message_all-deliveries env.fuel r s d.fd q (linked d (head ys))
            (notice env.now (name d ++ lit "被管理员请出了聊天室")) (xs ++ (q, d) ∷ ys) sits.fd_range
            sits.known n live sits.room here.seats fuel,
        gone,
      ),
      deleted,
    )

-- An administrator's command to throw out another client tells that client's room, the client included,
-- and then deletes the client: the task ends with the room as the server keeps it without the client,
-- whose struct is freed. Conditions: the administrator is logged in, the name table leads from the name to
-- the client, the bucket of the client's own name is keyed by live clients with terminated names, the
-- client's room is as the server keeps it, and the fuel exceeds its members.
pub parse_message-goout :
    (env : Env) (s : State) (task : Task) (c : Client) (e : Event) (r : ℕ) (xs : Members) (q : Ptr)
    (d : Client) (ys : Members) (u : Bytes) (es fs : Entries)
    → Commands env s task c e ev_type_admin_command_goout r xs q d ys u es
    → InBucket s (name d) fs
    → (t : State) × (parse_message env task s ≡ ok tt t)
      × Deleted (announced env s xs q d ys) t r xs q d ys fs
unfolding serve handle_goout
parse_message-goout env s task c e r xs q d ys u es fs v b =
    let ev = ev_type_admin_command_goout in
    let (t, done, deleted) = go_out-Deleted env s r xs q d ys fs v.roster b v.fuel in
    (
      t,
      parse_message-serve env s task c e (pos ev) v.request v.type refl v.online
          ∙ rw (
            v.rank,
            v.username,
            handle_goout,
            target-found env s task c e ev r xs q d ys u es v,
            done,
          ),
      deleted,
    )
