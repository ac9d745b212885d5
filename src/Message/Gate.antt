-- ===== src/Message/Gate.antt =====
-- The tests of `parse_message` in 1.0/server/message.c before a request is served: the login, and the
-- rank of an administrator.
use as3chat.Common.{
  ℕ, ◌≡◌, refl, ap, ◌≢◌, ◌⊎◌, inl, inr, ◌∙◌, Bool, true, false, ◌&&◌, not, Option, none, some,
  arith,
}
use as3chat.Common.Tests.{if◌then◌else◌, ==_ne, Bool-cases, Option-cases}
use as3chat.Common.Int.{ℤ, pos, negsuc, ◌==ℤ◌}
use as3chat.Common.Text.{atoi}
use as3chat.Server.{Ptr, null, Client, is_success, client_type_admin, Task, State, Run, ok, fault}
use as3chat.External.{Event}
use as3chat.Messages.{ev_type_auth, ev_type_admin_command_goout, ev_type_admin_command_shutup}
use as3chat.Rooms.Chain.{load-ok}
use as3chat.Message.{parse_message, handle, dispatch, serve, script_returns, run_script}
use as3chat.Message.Login.{Env, attr}

-- The number of the request; `none` where the event has no type.
abbrev pub ev_type_of : Event → Option ℤ
ev_type_of e = elim (attr "type" e) [ none ↦ none | some text ↦ some (atoi text) ]

-- The task is a request `e` of the live client `c`.
pub record IsRequest (env : Env) (s : State) (task : Task) (c : Client) (e : Event) : Type 0 where
  pub ne_null : task.client ≢ null
  pub live : s.heap task.client ≡ some c
  pub stays : task.logout ≡ false
  pub event : env.external.parse task.text ≡ e

pub parse_message-handle :
    (env : Env) (s : State) (task : Task) (c : Client) (e : Event)
    → IsRequest env s task c e
    → parse_message env task s ≡ handle env task.client c.fd e s
unfolding parse_message
parse_message-handle env s task c e v =
    rw (load-ok s task.client c v.ne_null v.live, v.stays, v.event)

pub handle-dispatch :
    (env : Env) (s : State) (p : Ptr) (fd : ℕ) (e : Event) (n : ℤ)
    → ev_type_of e ≡ some n
    → handle env p fd e s ≡ dispatch env p fd e n s
unfolding handle
handle-dispatch env s p fd e n h = ground arith

pub dispatch-serve :
    (env : Env) (s : State) (p : Ptr) (fd : ℕ) (e : Event) (n : ℤ) (c : Client)
    → p ≢ null
    → s.heap p ≡ some c
    → (n ==ℤ pos ev_type_auth) ≡ false
    → dispatch env p fd e n s
      ≡ (if is_success c.state then serve env p fd e c.type n else run_script env fd e) s
unfolding dispatch
dispatch-serve env s p fd e n c ne live other = rw (other, load-ok s p c ne live)

-- A request of a logged-in client that is no login is served.
pub parse_message-serve :
    (env : Env) (s : State) (task : Task) (c : Client) (e : Event) (n : ℤ)
    → IsRequest env s task c e
    → ev_type_of e ≡ some n
    → (n ==ℤ pos ev_type_auth) ≡ false
    → is_success c.state ≡ true
    → parse_message env task s ≡ serve env task.client c.fd e c.type n s
parse_message-serve env s task c e n v t other on =
    parse_message-handle env s task c e v
    ∙ handle-dispatch env s task.client c.fd e n t
    ∙ dispatch-serve env s task.client c.fd e n c v.ne_null v.live other
    ∙ rw on

pub handle-silent :
    (env : Env) (s : State) (p : Ptr) (fd : ℕ) (e : Event)
    → attr "type" e ≡ none
    → handle env p fd e s ≡ ok tt s
unfolding handle
handle-silent env s p fd e a = ground arith

-- What is left of a request that goes to the script.
abbrev pub scripted : Env → ℕ → Event → State → Run (Unit {0})
scripted env fd e s = if script_returns env fd e then ok tt s else fault

pub run_script-scripted :
    (env : Env) (fd : ℕ) (e : Event) (s : State) → run_script env fd e s ≡ scripted env fd e s
unfolding run_script
run_script-scripted env fd e s = elim (Bool-cases (script_returns env fd e)) [
  | inl returns ↦ rw returns
  | inr fails ↦ rw fails
]

if-not : {A : Type 0} (x y : A) (b : Bool) → (if b then x else y) ≡ (if not b then y else x)
if-not x y true = refl
if-not x y false = refl

ne-auth : (n : ℤ) → n ≢ pos ev_type_auth → (n ==ℤ pos ev_type_auth) ≡ false
ne-auth (pos a) h = ==_ne a ev_type_auth (λ e. h (ap pos e))
ne-auth (negsuc a) h = refl

-- Whether the event has a type.
abbrev pub is_typed : Event → Bool
is_typed e = elim (attr "type" e) [ none ↦ false | some _ ↦ true ]

-- A client that has not logged in gets nothing but a login: any other request, one without a type
-- included, leaves the whole state as it was and writes nothing. The one exception is the script of the
-- requests, to which a request with a type goes: the program ends where the call of its function fails.
pub parse_message-unauthenticated :
    (env : Env) (s : State) (task : Task) (c : Client) (e : Event)
    → IsRequest env s task c e
    → is_success c.state ≡ false
    → ev_type_of e ≢ some (pos ev_type_auth)
    → parse_message env task s
      ≡ (if is_typed e && not (script_returns env c.fd e) then fault else ok tt s)
parse_message-unauthenticated env s task c e v off other = elim (Option-cases (attr "type" e)) [
  | inl absent ↦
      parse_message-handle env s task c e v
      ∙ handle-silent env s task.client c.fd e absent
      ∙ rw (absent, ◌&&◌)
  | inr (text, e') ↦
      parse_message-handle env s task c e v
      ∙ handle-dispatch env s task.client c.fd e (atoi text) (rw (e', ev_type_of))
      ∙ dispatch-serve env s task.client c.fd e (atoi text) c v.ne_null v.live
          (ne-auth (atoi text) λ h. other (rw (e', ev_type_of, h)))
      ∙ rw (off, e', ◌&&◌)
          (run_script-scripted env c.fd e s ∙ if-not (ok tt s) fault (script_returns env c.fd e))
]

-- The commands of an administrator, 90 to throw a client out and 91 to silence one, do nothing when a
-- logged-in client without that rank sends them: the state stays as it was and nothing is written. Like
-- any request of no known type they go to the script of the requests, and the program ends where the call
-- of its function fails.
pub parse_message-not_admin :
    (env : Env) (s : State) (task : Task) (c : Client) (e : Event) (n : ℕ)
    → IsRequest env s task c e
    → is_success c.state ≡ true
    → (c.type ==ℤ client_type_admin) ≡ false
    → ev_type_of e ≡ some (pos n)
    → (n ≡ ev_type_admin_command_goout) ⊎ (n ≡ ev_type_admin_command_shutup)
    → parse_message env task s ≡ (if script_returns env c.fd e then ok tt s else fault)
unfolding serve
parse_message-not_admin env s task c e n v on rank t (inl goout) =
    parse_message-serve env s task c e (pos n) v t (rw goout) on
    ∙ rw (goout, rank) (run_script-scripted env c.fd e s)
parse_message-not_admin env s task c e n v on rank t (inr shutup) =
    parse_message-serve env s task c e (pos n) v t (rw shutup) on
    ∙ rw (shutup, rank) (run_script-scripted env c.fd e s)
