-- ===== src/Tests/Turns.antt =====
-- A connection of a new client, its request and the two tasks of it, from the start of 3.0/server.
use as3chat.Common.{◌≡◌, refl, inl}
use as3chat.Common.Int.{pos}
use as3chat.Server3.Dict.{lookup, insert}
use as3chat.Server3.Process.{Process, done}
use as3chat.Server3.ClientList.Adding.{Valid}
use as3chat.Server3.System.{control}
use as3chat.Server3.ClientList.{add_client, add_name, add_sock}
use as3chat.Server3.Loop.{is_main_sock, accept_client, admit, handle_event}
use as3chat.Server3.Loop.Answers.{input}
use as3chat.Server3.Loop.Turns.{on_event, none_yet, one_more, begin, begin-Valid}
use as3chat.Tests.Scene3.{system, ended_wire}

accepted : (t : Process) × (handle_event (system ended_wire) (pos 3) (input 3) begin ≡ done tt t)
unfolding handle_event is_main_sock accept_client admit add_client add_name add_sock control lookup
    insert
accepted = (_, refl)

begin-Valid_example : Valid accepted.0
begin-Valid_example = begin-Valid (system ended_wire) (pos 3) accepted.0 (
    one_more begin accepted.0 none_yet
      (on_event begin accepted.0 (input 3) (inl refl) (refl, refl) accepted.1))
